-- ===== src/Tokens/Store.antt =====
-- The operations of src/tokens.c on the table of tokens, and the extension host's credential.
use forgectrl.Prelude.{
  ℕ, zero, suc, ◌-◌, Bool, true, false, not, ◌&&◌, ◌||◌, List, [], ◌∷◌, ◌++◌, Option, none, some,
  Bytes, codes, same, strip_prefix, length, take, leb, ltb, ◌==◌, if◌then◌else◌,
}
use forgectrl.Sha256.Compare.{ct_equal, sha256_hex}
use forgectrl.Sha256.Stream.{sha256}
use forgectrl.Tokens.Caps.{Caps, Parsed, parsed, bad_cap, all_caps, caps_parse, holds, is_some}
use forgectrl.Tokens.Checks.{
  Token, pos, tokens_max, prefix, text_len, name_ok, tokens_looks_scoped, is_token_text,
}
use forgectrl.Tokens.File.{all_fit, file_of, has_cap, load}

-- The table, its file, `dirty`, `last_flush` in milliseconds, and the host's credential.
pub record Store : Type 0 where
  pub tokens : List Token
  pub file : Option Bytes
  pub dirty : Bool
  pub last_flush : ℕ
  pub host_tok : Bytes
  pub host_caps : Caps

-- What the surroundings give a call: whether the file's writes, sync and rename succeed, the
-- monotonic clock in milliseconds, and the wall clock in seconds.
pub record World : Type 0 where
  pub disk : Bool
  pub mono : ℕ
  pub wall : ℕ

-- `save_locked`, and whether it returned 0. What it has written before a failure is unlinked.
unfoldable pub save : World → Store → Store × Bool
save w s =
    if w.disk && all_fit s.tokens
    then (record s { file = some (file_of s.tokens); dirty = false; last_flush = w.mono }, true)
    else (s, false)

-- `tokens_init` of a daemon that starts
abbrev pub tokens_init : World → Store → Store
tokens_init w s = record s { tokens = load s.file; last_flush = w.mono }

-- `tokens_flush`
unfoldable pub tokens_flush : World → Store → Store
tokens_flush w s = if s.dirty then (save w s).0 else s

-- The return values of `tokens_check`: -1, 0 and 1.
pub data Judged : Type 0 where
  no_token live passes : Judged

abbrev pub holds_asked : Option Bytes → Caps → Bool
holds_asked none s = false
holds_asked (some cap) s = holds cap s all_caps

-- The loop's first token with the hash: what is found, and the table with its use marked.
abbrev pub Found : Type 0
Found = Option (Token × Bool)

unfoldable pub find_hash : Bytes → Option Bytes → List Token → Found
find_hash h cap [] = none
find_hash h cap (t ∷ ts) =
    let rest = find_hash h cap ts in
    if ct_equal h t.hash then some (t, holds_asked cap t.caps) else rest

unfoldable pub mark_used : Bytes → ℕ → List Token → List Token
mark_used h now [] = []
mark_used h now (t ∷ ts) =
    let rest = mark_used h now ts in
    if ct_equal h t.hash then record t { last_used = pos now } ∷ ts else t ∷ rest

-- FLUSH_EVERY_S in milliseconds
abbrev pub flush_every : ℕ
flush_every = 600000

-- `if (mono_s() - last_flush > FLUSH_EVERY_S && save_locked() != 0)`
abbrev pub flush_late : World → Store → Store
flush_late w s = if ltb flush_every (w.mono - s.last_flush) then (save w s).0 else s

abbrev pub check_found : World → Bytes → Store → Found → Store × Judged × Option Bytes
check_found w h s none = (s, no_token, none)
check_found w h s (some (t, false)) = (s, live, some t.id)
check_found w h s (some (t, true)) = (
  flush_late w (record s { tokens = mark_used h w.wall s.tokens; dirty = true }),
  passes,
  some t.id,
)

-- `tokens_check`, with the id it gives.
unfoldable pub tokens_check : World → Bytes → Option Bytes → Store → Store × Judged × Option Bytes
tokens_check w presented cap s =
    let h = sha256 presented in
    let r = check_found w h s (find_hash h cap s.tokens) in
    if is_token_text presented then r else (s, no_token, none)

-- Whether every capability of a set begins with a text.
unfoldable pub only_with : Bytes → Caps → List Bytes → Bool
only_with p [] cs = true
only_with p (b ∷ bs) [] = true
only_with p (b ∷ bs) (c ∷ cs) = not (b && not (is_some (strip_prefix p c))) && only_with p bs cs

abbrev pub only_found : Bytes → Found → Bool
only_found p none = false
only_found p (some (t, b)) = only_with p t.caps all_caps

-- `tokens_holds_only`
unfoldable pub tokens_holds_only : Bytes → Bytes → Store → Bool
tokens_holds_only presented p s =
    tokens_looks_scoped presented
    && length presented == text_len
    && only_found p (find_hash (sha256 presented) none s.tokens)

-- `random_hex` of what /dev/urandom gave
abbrev pub random_hex : ℕ → Option Bytes → Option Bytes
random_hex n none = none
random_hex n (some raw) = if length raw == n then some (sha256_hex raw) else none

-- Why a call is refused.
pub data Refusal : Type 0 where
  bad_name no_caps no_entropy too_many name_exists try_again cannot_write no_such_token : Refusal
  not_a_capability : Bytes → Refusal

-- A token and its id, or the refusal.
pub data Made : Type 0 where
  made : Bytes → Bytes → Made
  refused : Refusal → Made

-- The bits of `clash`: a token of the name; one of the id, and not of the name.
unfoldable pub name_clash : Bytes → List Token → Bool
name_clash name [] = false
name_clash name (t ∷ ts) = same t.name name || name_clash name ts

unfoldable pub id_clash : Bytes → Bytes → List Token → Bool
id_clash name id [] = false
id_clash name id (t ∷ ts) = not (same t.name name) && same t.id id || id_clash name id ts

abbrev pub if_saved {ℓ} : {A : Type ℓ} → Store × Bool → (Store → A) → (Store → A) → A
if_saved (s, true) then_this else_this = then_this s
if_saved (s, false) then_this else_this = else_this s

-- `count--`
abbrev pub drop_last : List Token → List Token
drop_last ts = take (length ts - 1) ts

-- The part of `tokens_create` that holds the lock: the token goes to the end, and `count--` takes
-- the last one off when it cannot be saved.
unfoldable pub add_token : World → Token → Bytes → Store → Store × Made
add_token w t token s =
    let saved =
      if_saved (save w (record s { tokens = s.tokens ++ (t ∷ []) })) (λ s'. (s', made token t.id))
        (λ s'. (record s' { tokens = drop_last s'.tokens }, refused cannot_write)) in
    if leb tokens_max (length s.tokens)
    then (s, refused too_many)
    else if name_clash t.name s.tokens
    then (s, refused name_exists)
    else if id_clash t.name t.id s.tokens
    then (s, refused try_again)
    else saved

abbrev pub create_with : World → Bytes → Caps → Option Bytes → Option Bytes → Store → Store × Made
create_with w name set none id s = (s, refused no_entropy)
create_with w name set (some hex) none s = (s, refused no_entropy)
create_with w name set (some hex) (some id) s =
    let token = prefix ++ hex in
    add_token w
      (record {
        id = id;
        hash = sha256 token;
        name = name;
        caps = set;
        created = pos w.wall;
        last_used = pos 0;
      })
      token s

abbrev pub create_parsed :
    World → Bytes → Parsed → Option Bytes → Option Bytes → Store → Store × Made
create_parsed w name (bad_cap word) raw raw_id s = (s, refused (not_a_capability word))
create_parsed w name (parsed set) raw raw_id s =
    let r = create_with w name set (random_hex 16 raw) (random_hex 4 raw_id) s in
    if has_cap set then r else (s, refused no_caps)

-- `tokens_create`, with what /dev/urandom gives for the token and for the id.
unfoldable pub tokens_create :
    World → Bytes → Bytes → Option Bytes → Option Bytes → Store → Store × Made
tokens_create w name caps raw raw_id s =
    let r = create_parsed w name (caps_parse caps) raw raw_id s in
    if name_ok name then r else (s, refused bad_name)

-- The loop's first token of an id, with its place.
unfoldable pub find_id : Bytes → List Token → Option (ℕ × Token)
find_id id [] = none
find_id id (t ∷ ts) =
    let rest = find_id id ts in
    if same t.id id then some (0, t) else elim rest [ none ↦ none | some (i, g) ↦ some (suc i, g) ]

-- `memmove(&store[i], &store[i + 1], ...)` and `count--`
unfoldable pub close_gap : ℕ → List Token → List Token
close_gap i [] = []
close_gap zero (t ∷ ts) = ts
close_gap (suc i) (t ∷ ts) = t ∷ close_gap i ts

-- `memmove(&store[i + 1], &store[i], ...)`, `store[i] = gone` and `count++`
unfoldable pub put_back : ℕ → Token → List Token → List Token
put_back zero gone ts = gone ∷ ts
put_back (suc i) gone [] = gone ∷ []
put_back (suc i) gone (t ∷ ts) = t ∷ put_back i gone ts

abbrev pub revoke_found : World → Option (ℕ × Token) → Store → Store × Option Refusal
revoke_found w none s = (s, some no_such_token)
revoke_found w (some (i, gone)) s =
    if_saved (save w (record s { tokens = close_gap i s.tokens })) (λ s'. (s', none))
      (λ s'. (record s' { tokens = put_back i gone s'.tokens }, some cannot_write))

-- `tokens_revoke`; `none` is its 0.
unfoldable pub tokens_revoke : World → Bytes → Store → Store × Option Refusal
tokens_revoke w id s = revoke_found w (find_id id s.tokens) s

abbrev pub mint_with : Parsed → Option Bytes → Store → Store × Bool
mint_with (bad_cap word) hex s = (s, false)
mint_with (parsed set) none s = (s, false)
mint_with (parsed set) (some hex) s = (record s { host_tok = prefix ++ hex; host_caps = set }, true)

-- `tokens_host_mint`, and whether it came to the writing of the credential's own file.
unfoldable pub tokens_host_mint : Option Bytes → Store → Store × Bool
tokens_host_mint raw s =
    mint_with (caps_parse (codes "motion.jog,motion.job")) (random_hex 16 raw) s

abbrev pub is_empty : Bytes → Bool
is_empty [] = true
is_empty (c ∷ s) = false

-- `tokens_host_check`
unfoldable pub tokens_host_check : Bytes → Bytes → Store → Bool
tokens_host_check presented cap s =
    not (is_empty s.host_tok)
    && length presented == text_len
    && (ct_equal presented s.host_tok && holds cap s.host_caps all_caps)
