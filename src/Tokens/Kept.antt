-- ===== src/Tokens/Kept.antt =====
-- On the table of src/tokens.c and its file through any calls.
use forgectrl.Prelude.{
  ℕ, zero, suc, ◌-◌, ◌≤◌, ◌<◌, ◌^◌, ◌≡◌, refl, sym, ap, ◌∙◌, inl, inr, true, false, List, [], ◌∷◌,
  ◌++◌, map, Option, none, some, Bytes, length, big_endian, ltb, arith, Bool-cases,
}
use forgectrl.Sha256.Compare.{ct_equal}
use forgectrl.Sha256.Compress.{Words}
use forgectrl.Sha256.Stream.{sha256, final, out_bytes}
use forgectrl.Tokens.Caps.{Caps}
use forgectrl.Tokens.Checks.{Token, ℤ, pos, tokens_max, is_token_text}
use forgectrl.Tokens.Numbers.{AllBytes}
use forgectrl.Tokens.File.{load}
use forgectrl.Tokens.Lines.{IsToken}
use forgectrl.Tokens.Reload.{AllTokens, tokens_init-save}
use forgectrl.Tokens.Store.{
  Store, World, save, Found, find_hash, mark_used, flush_late, flush_every, check_found,
  tokens_check, if_saved,
}

AllBytes-append : (s r : Bytes) → AllBytes s → AllBytes r → AllBytes (s ++ r)
AllBytes-append [] r p q = q
AllBytes-append (c ∷ s) r p q = (p.0, AllBytes-append s r p.1 q)

big_endian-AllBytes : (n x : ℕ) → AllBytes (big_endian n x)
unfolding big_endian
big_endian-AllBytes zero x = tt
big_endian-AllBytes (suc n) x =
    AllBytes-append (big_endian n _) (_ ∷ []) (big_endian-AllBytes n _) (omega arith, tt)

out_bytes-AllBytes : (h : Words) → AllBytes (out_bytes h)
unfolding out_bytes
out_bytes-AllBytes h =
    let b = big_endian-AllBytes 4 in
    let join = AllBytes-append in
    join _ _
      (join _ _
        (join _ _
          (join _ _ (join _ _ (join _ _ (join _ _ (b h.a) (b h.b)) (b h.c)) (b h.d)) (b h.e))
          (b h.f))
        (b h.g))
      (b h.hh)

length-out_bytes : (h : Words) → length (out_bytes h) ≡ 32
unfolding out_bytes big_endian
length-out_bytes h = refl

pub length-sha256 : (m : Bytes) → length (sha256 m) ≡ 32
unfolding sha256 final
length-sha256 m = length-out_bytes _

pub sha256-AllBytes : (m : Bytes) → AllBytes (sha256 m)
unfolding sha256 final
sha256-AllBytes m = out_bytes-AllBytes _

-- What a restart keeps of a token.
pub record Grant : Type 0 where
  pub id : Bytes
  pub hash : Bytes
  pub name : Bytes
  pub caps : Caps
  pub created : ℤ

abbrev pub grant_of : Token → Grant
grant_of t = record { id = t.id; hash = t.hash; name = t.name; caps = t.caps; created = t.created }

abbrev pub grants : List Token → List Grant
grants ts = map grant_of ts

-- The table is well formed, and its file has the same tokens but for the times of their last use.
pub record IsStore (s : Store) : Type 0 where
  pub at_most : length s.tokens ≤ tokens_max
  pub all_tokens : AllTokens s.tokens
  pub file_tokens : AllTokens (load s.file)
  pub synced : grants (load s.file) ≡ grants s.tokens

pub tokens-save : (w : World) (s : Store) → (save w s).0.tokens ≡ s.tokens
unfolding save
tokens-save w s = ground arith

save_failed : (w : World) (s : Store) → (save w s).1 ≡ false → (save w s).0 ≡ s
unfolding save
save_failed w s h = ground arith

-- What a save that is done leaves in the file.
save_done :
    (w : World) (s : Store)
    → AllTokens s.tokens
    → length s.tokens ≤ tokens_max
    → (save w s).1 ≡ true
    → load (save w s).0.file ≡ s.tokens
save_done w s v h e =
    let d : w.disk ≡ true = unfold save in ground arith in (tokens_init-save w w s v h d).1

saved-IsStore :
    (w : World) (s : Store)
    → AllTokens s.tokens
    → length s.tokens ≤ tokens_max
    → (save w s).1 ≡ true
    → IsStore (save w s).0
saved-IsStore w s v h e =
    let same = tokens-save w s in
    let on_file = save_done w s v h e in
    record {
      at_most = rw same h;
      all_tokens = rw same v;
      file_tokens = rw on_file v;
      synced = ap grants (on_file ∙ sym same);
    }

pub save-IsStore : (w : World) (s : Store) → IsStore s → IsStore (save w s).0
save-IsStore w s v = elim (Bool-cases (save w s).1) [
  | inl e ↦ saved-IsStore w s v.all_tokens v.at_most e
  | inr e ↦ rw (save_failed w s e) v
]

-- A change of the table that is put back when it cannot be saved.
pub if_saved-IsStore {ℓ} :
    {X : Type ℓ}
    → (x y : X) (w : World) (ts : List Token) (s : Store) → AllTokens ts
    → length ts ≤ tokens_max
    → IsStore s
    → IsStore
        (if_saved {A = Store × X}
          (save w (record s { tokens = ts }))
          (λ s'. (s', x))
          (λ s'. (s, y))).0
if_saved-IsStore x y w ts s v h k =
    let p = save w (record s { tokens = ts }) in
    elim (Bool-cases p.1) [
      | inl e ↦ rw e (saved-IsStore w (record s { tokens = ts }) v h e)
      | inr e ↦ rw e k
    ]

used_now :
    (t : Token) (now : ℕ) → now < 2 ^ 63 → IsToken t → IsToken (record t { last_used = pos now })
used_now t now l v = record {
  id_length = v.id_length;
  id_chars = v.id_chars;
  hash_length = v.hash_length;
  hash_bytes = v.hash_bytes;
  name_fine = v.name_fine;
  caps_length = v.caps_length;
  some_cap = v.some_cap;
  created_long = v.created_long;
  used_long = l;
}

-- A new time of use changes no grant.
mark_used-AllTokens :
    (h : Bytes) (now : ℕ) (ts : List Token)
    → now < 2 ^ 63
    → AllTokens ts
    → AllTokens (mark_used h now ts)
unfolding mark_used
mark_used-AllTokens h now [] l v = tt
mark_used-AllTokens h now (t ∷ ts) l v = elim (Bool-cases (ct_equal h t.hash)) [
  | inl e ↦ rw e (used_now t now l v.0, v.1)
  | inr e ↦ rw e (v.0, mark_used-AllTokens h now ts l v.1)
]

grants-mark_used : (h : Bytes) (now : ℕ) (ts : List Token) → grants (mark_used h now ts) ≡ grants ts
unfolding mark_used
grants-mark_used h now [] = refl
grants-mark_used h now (t ∷ ts) = elim (Bool-cases (ct_equal h t.hash)) [
  | inl e ↦ rw e refl
  | inr e ↦ rw e (ap (λ r. grant_of t ∷ r) (grants-mark_used h now ts))
]

pub length-grants : (ts : List Token) → length (grants ts) ≡ length ts
length-grants [] = refl
length-grants (t ∷ ts) = ap suc (length-grants ts)

length-mark_used : (h : Bytes) (now : ℕ) (ts : List Token) → length (mark_used h now ts) ≡ length ts
length-mark_used h now ts =
    sym (length-grants (mark_used h now ts))
    ∙ ap length (grants-mark_used h now ts)
    ∙ length-grants ts

flush_late-IsStore : (w : World) (s : Store) → IsStore s → IsStore (flush_late w s)
flush_late-IsStore w s v = elim (Bool-cases (ltb flush_every (w.mono - s.last_flush))) [
  | inl e ↦ rw e (save-IsStore w s v)
  | inr e ↦ rw e v
]

check_found-IsStore :
    (w : World) (h : Bytes) (s : Store) (found : Found)
    → w.wall < 2 ^ 63
    → IsStore s
    → IsStore (check_found w h s found).0
check_found-IsStore w h s none l v = v
check_found-IsStore w h s (some (t, false)) l v = v
check_found-IsStore w h s (some (t, true)) l v =
    let marked : IsStore (record s { tokens = mark_used h w.wall s.tokens; dirty = true }) =
      record {
        at_most = rw (length-mark_used h w.wall s.tokens) v.at_most;
        all_tokens = mark_used-AllTokens h w.wall s.tokens l v.all_tokens;
        file_tokens = v.file_tokens;
        synced = v.synced ∙ sym (grants-mark_used h w.wall s.tokens);
      } in
    flush_late-IsStore w _ marked

pub check-IsStore :
    (w : World) (presented : Bytes) (cap : Option Bytes) (s : Store)
    → w.wall < 2 ^ 63
    → IsStore s
    → IsStore (tokens_check w presented cap s).0
unfolding tokens_check
check-IsStore w presented cap s l v =
    let h = sha256 presented in
    elim (Bool-cases (is_token_text presented)) [
      | inl e ↦ rw e (check_found-IsStore w h s (find_hash h cap s.tokens) l v)
      | inr e ↦ rw e v
    ]
