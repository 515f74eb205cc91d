-- ===== src/Tokens/Tests.antt =====
-- The tokens of src/tokens.c at concrete calls.
use forgectrl.Prelude.{
  ℕ, zero, suc, subst, ◌≡◌, refl, ap, ◌∙◌, true, false, List, [], ◌∷◌, none, some, Bytes, codes,
  strip_prefix, if◌then◌else◌, arith, replicate,
}
use forgectrl.Sha256.Compare.{differences, ct_equal, ct_equal_iff, sha256_hex}
use forgectrl.Sha256.Stream.{sha256}
use forgectrl.Tokens.Caps.{
  Caps, parsed, caps_parse, caps_from, word_of, skip_seps, index_from, holds, is_some,
}
use forgectrl.Tokens.Checks.{Token, pos, hex_ok, name_ok, name_chars, is_token_text}
use forgectrl.Tokens.Numbers.{AllBytes}
use forgectrl.Tokens.File.{all_fit}
use forgectrl.Tokens.Lines.{IsToken}
use forgectrl.Tokens.Reload.{tokens_init-save}
use forgectrl.Tokens.Store.{
  Store, World, save, tokens_init, tokens_create, tokens_revoke, passes, live, no_token, Made, made,
  refused, cannot_write, holds_asked, add_token, name_clash, id_clash, tokens_holds_only,
  tokens_host_mint, tokens_host_check, if_saved, only_found, only_with, drop_last, find_id,
  close_gap, put_back,
}
use forgectrl.Tokens.Kept.{IsStore, length-sha256, sha256-AllBytes}
use forgectrl.Tokens.Runs.{
  Call, restart, flush, check, create, revoke, mint, run, AllCalls, run-IsStore,
}
use forgectrl.Tokens.Rights.{judged_lem, found_of, find_hash-owner, judged, owner, judged_of}
use forgectrl.Tokens.Granting.{create_judged}
use forgectrl.Tokens.Revoking.{unless, revoke_judged}
use forgectrl.Tokens.Limits.{refused_keeps, holds_only-judged}

abbrev world : World
world = record { disk = true; mono = 1000; wall = 1700000000 }

abbrev full_disk : World
full_disk = record { disk = false; mono = 2000; wall = 1700000001 }

abbrev empty : Store
empty = record {
  tokens = [];
  file = none;
  dirty = false;
  last_flush = 0;
  host_tok = [];
  host_caps = [];
}

empty-IsStore : IsStore empty
empty-IsStore = record { at_most = omega arith; all_tokens = tt; file_tokens = tt; synced = refl }

abbrev raw : Bytes
raw = replicate 16 171

abbrev raw_id : Bytes
raw_id = 1 ∷ 2 ∷ 254 ∷ 255 ∷ []

all_bytes : (n : ℕ) → AllBytes (replicate n 171)
all_bytes zero = tt
all_bytes (suc n) = (omega arith, all_bytes n)

raw_bytes : (r : Bytes) → some raw ≡ some r → AllBytes r
raw_bytes r e =
    let q : raw ≡ r = ground arith in
    let all : (n : ℕ) → AllBytes (replicate n 171) = all_bytes in subst AllBytes q (all 16)

abbrev text : Bytes
text = codes "fft_abababababababababababababababab"

abbrev calls : List Call
calls =
    create world (codes "a script") (codes "events, camera.lid") (some raw) (some raw_id)
    ∷ check full_disk text (some (codes "events"))
    ∷ revoke full_disk (codes "0102feff")
    ∷ restart world
    ∷ mint (some raw)
    ∷ flush world
    ∷ []

calls-AllCalls : AllCalls calls
calls-AllCalls = (
  (omega arith, (omega arith, (omega arith, (omega arith, (omega arith, tt))))),
  (omega arith, (tt, (tt, (tt, (tt, tt))))),
)

run-IsStore_example : IsStore (run calls empty)
run-IsStore_example = run-IsStore calls empty calls-AllCalls empty-IsStore

-- A token that may see the lid's camera, as `tokens_create` makes it.
abbrev eye : Token
eye = record {
  id = codes "0102feff";
  hash = sha256 text;
  name = codes "an eye";
  caps = false ∷ false ∷ true ∷ false ∷ false ∷ false ∷ [];
  created = pos 1700000000;
  last_used = pos 0;
}

eye-IsToken : IsToken eye
unfolding hex_ok name_ok name_chars
eye-IsToken = record {
  id_length = refl;
  id_chars = refl;
  hash_length = length-sha256 text;
  hash_bytes = sha256-AllBytes text;
  name_fine = refl;
  caps_length = refl;
  some_cap = refl;
  created_long = omega arith;
  used_long = omega arith;
}

abbrev with_eye : Store
with_eye = record empty { tokens = eye ∷ [] }

eye_saved : (save world with_eye).1 ≡ true
eye_saved = (tokens_init-save world world with_eye (eye-IsToken, tt) (omega arith) refl).0

eye_made :
    tokens_create world (codes "an eye") (codes "camera.lid") (some raw) (some raw_id) empty
    ≡ ((save world with_eye).0, made text (codes "0102feff"))
unfolding tokens_create add_token name_ok name_chars caps_from word_of skip_seps index_from
    sha256_hex name_clash id_clash
eye_made =
    let p = save world with_eye in
    ap
      (λ b.
        if_saved {A = Store × Made} (p.0, b) (λ s'. (s', made text (codes "0102feff")))
          (λ s'. (record s' { tokens = drop_last s'.tokens }, refused cannot_write)))
      eye_saved

create_judged_example :
    (set : Caps) × (caps_parse (codes "camera.lid") ≡ parsed set)
    × (judged full_disk text (some (codes "camera.any")) (save world with_eye).0
        ≡ (if holds_asked (some (codes "camera.any")) set then passes else live))
create_judged_example =
    create_judged world full_disk (codes "an eye") (codes "camera.lid") text (codes "0102feff")
      (some raw) (some raw_id) (some (codes "camera.any")) empty (save world with_eye).0 raw_bytes
      eye_made (unfold owner in refl)

tokens_init-save_example :
    ((save world with_eye).1 ≡ true)
    × ((tokens_init full_disk (save world with_eye).0).tokens ≡ eye ∷ [])
tokens_init-save_example =
    tokens_init-save world full_disk with_eye (eye-IsToken, tt) (omega arith) refl

eye_revoked : tokens_revoke world (codes "0102feff") with_eye ≡ ((save world empty).0, none)
unfolding tokens_revoke find_id close_gap save all_fit
eye_revoked = refl

revoke_judged_example : judged world text (some (codes "camera.lid")) (save world empty).0 ≡ (
    if is_token_text text
    then judged_of
        (some (codes "camera.lid"))
        (unless (codes "0102feff") (owner (sha256 text) (eye ∷ [])))
    else no_token)
revoke_judged_example =
    revoke_judged world world (codes "0102feff") text (some (codes "camera.lid")) with_eye
      (save world empty).0 (eye-IsToken, tt) (tt, tt) eye_revoked

abbrev other_id : Bytes
other_id = 3 ∷ 4 ∷ 5 ∷ 6 ∷ []

not_made :
    tokens_create full_disk
      (codes "a door")
      (codes "camera.lid")
      (some raw)
      (some other_id)
      with_eye
    ≡ (with_eye, refused cannot_write)
unfolding tokens_create add_token name_ok name_chars caps_from word_of skip_seps index_from
    sha256_hex name_clash id_clash save
not_made = refl

not_revoked : tokens_revoke full_disk (codes "0102feff") with_eye ≡ (with_eye, some cannot_write)
unfolding tokens_revoke find_id close_gap put_back save
not_revoked = refl

refused_keeps_example : (with_eye ≡ with_eye) × (with_eye ≡ with_eye)
refused_keeps_example =
    refused_keeps full_disk full_disk (codes "a door") (codes "camera.lid") (codes "0102feff")
      (some raw) (some other_id) cannot_write cannot_write with_eye with_eye with_eye with_eye
      not_made not_revoked

eye_owned : owner (sha256 text) (eye ∷ []) ≡ some eye
unfolding owner
eye_owned = rw ((ct_equal_iff (sha256 text) (sha256 text) refl).1 refl) refl

eye_only : tokens_holds_only text (codes "camera.") with_eye ≡ true
unfolding tokens_holds_only only_with
eye_only =
    ap (only_found (codes "camera."))
      (find_hash-owner (sha256 text) none (eye ∷ []) ∙ ap (found_of none) eye_owned)

eye_passes : judged world text (some (codes "camera.lid")) with_eye ≡ passes
unfolding hex_ok holds
eye_passes =
    judged_lem world text (some (codes "camera.lid")) with_eye
    ∙ ap (judged_of (some (codes "camera.lid"))) eye_owned

holds_only-judged_example : is_some (strip_prefix (codes "camera.") (codes "camera.lid")) ≡ true
holds_only-judged_example =
    holds_only-judged world text (codes "camera.") (codes "camera.lid") with_eye refl eye_only
      eye_passes

abbrev with_host : Store
with_host = record empty {
  host_tok = text;
  host_caps = false ∷ false ∷ false ∷ false ∷ true ∷ true ∷ [];
}

host_minted : tokens_host_mint (some raw) empty ≡ (with_host, true)
unfolding tokens_host_mint caps_from word_of skip_seps index_from sha256_hex
host_minted = refl

host_checked : tokens_host_check text (codes "motion.job") with_host ≡ true
unfolding tokens_host_check ct_equal holds differences
host_checked = refl
