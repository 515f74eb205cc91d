-- ===== src/Tokens/Making.antt =====
-- On what the calls of src/tokens.c make and drop, and on any run of calls and restarts.
use forgectrl.Prelude.{
  ℕ, zero, suc, ◌*◌, ◌≤◌, ◌<◌, ◌^◌, ◌≡◌, refl, sym, subst, ap, ◌∙◌, inl, inr, true, List, [], ◌∷◌,
  ◌++◌, set, length-set, Option, none, some, Bytes, same, length, length-append, leb, arith,
  Bool-cases, Option-cases,
}
use forgectrl.Sha256.Compare.{sha256_hex}
use forgectrl.Tokens.Caps.{
  Caps, Parsed, parsed, bad_cap, caps_parse, caps_from, with_cap, parse_word, cap_index, word_of,
  skip_seps,
}
use forgectrl.Tokens.Checks.{Token, tokens_max, prefix, hex_ok, name_ok}
use forgectrl.Tokens.Numbers.{AllBytes, hex_ok-sha256_hex, length-sha256_hex}
use forgectrl.Tokens.File.{has_cap}
use forgectrl.Tokens.Lines.{IsToken}
use forgectrl.Tokens.Reload.{AllTokens}
use forgectrl.Tokens.Store.{
  Store, World, random_hex, made, refused, cannot_write, name_clash, id_clash, add_token,
  create_with, create_parsed, tokens_create, tokens_revoke, Made, Refusal,
}
use forgectrl.Tokens.Rollback.{added, add_token_lem, without, tokens_revoke_lem}
use forgectrl.Tokens.Kept.{length-sha256, sha256-AllBytes, IsStore, if_saved-IsStore}

with_cap-length :
    (s : Caps) (o : Option ℕ) (word : Bytes) (more : Caps → Parsed) (r : Caps)
    → length s ≡ 6
    → ((s' : Caps) → length s' ≡ 6 → more s' ≡ parsed r → length r ≡ 6)
    → with_cap s o word more ≡ parsed r
    → length r ≡ 6
with_cap-length s none word more r h f e = absurd (ground arith)
with_cap-length s (some i) word more r h f e = f (set s i true) (length-set s i true ∙ h) e

parse_word-length :
    (s : Caps) (x : Bytes × Bytes) (more : Caps → Parsed) (r : Caps)
    → length s ≡ 6
    → ((s' : Caps) → length s' ≡ 6 → more s' ≡ parsed r → length r ≡ 6)
    → parse_word s x more ≡ parsed r
    → length r ≡ 6
parse_word-length s ([], rest) more r h f e = ground arith
parse_word-length s (c ∷ word, rest) more r h f e =
    with_cap-length s (cap_index (c ∷ word)) (c ∷ word) more r h f e

caps_from-length :
    (rounds : ℕ) (s r : Caps) (p : Bytes)
    → length s ≡ 6
    → caps_from rounds s p ≡ parsed r
    → length r ≡ 6
unfolding caps_from
caps_from-length zero s r p h e = ground arith
caps_from-length (suc rounds) s r p h e =
    let x = word_of (skip_seps p) in
    parse_word-length s x (λ s'. caps_from rounds s' x.1) r h
      (λ s' k q. caps_from-length rounds s' r x.1 k q) e

-- The bytes that /dev/urandom gives are bytes.
abbrev pub RawBytes : Option Bytes → Type 0
RawBytes none = Unit
RawBytes (some raw) = AllBytes raw

random_hex-id :
    (raw : Option Bytes) (id : Bytes)
    → RawBytes raw
    → random_hex 4 raw ≡ some id
    → (length id ≡ 8) × (hex_ok id ≡ true)
random_hex-id none id v e = absurd (ground arith)
random_hex-id (some raw) id v e =
    let n = length-sha256_hex raw in
    let k = hex_ok-sha256_hex raw v in
    let l : length raw ≡ 4 = ground arith in
    let q : sha256_hex raw ≡ id = ground arith in
    (sym (ap length q) ∙ n ∙ ap (λ m. 2 * m) l, sym (ap hex_ok q) ∙ k)

AllTokens-append :
    (ts : List Token) (t : Token) → AllTokens ts → IsToken t → AllTokens (ts ++ (t ∷ []))
AllTokens-append [] t v h = (h, tt)
AllTokens-append (a ∷ ts) t v h = (v.0, AllTokens-append ts t v.1 h)

added-IsStore :
    (w : World) (t : Token) (token : Bytes) (s : Store)
    → IsToken t
    → IsStore s
    → IsStore (added w t token s).0
added-IsStore w t token s h v =
    let saved =
      if_saved-IsStore (made token t.id) (refused cannot_write) w (s.tokens ++ (t ∷ [])) s
        (AllTokens-append s.tokens t v.all_tokens h) in
    let n = length-append s.tokens (t ∷ []) in
    elim (Bool-cases (leb tokens_max (length s.tokens))) [
      | inl e ↦ rw e v
      | inr e ↦
          let done = saved (ground (arith, n)) v in
          elim (Bool-cases (name_clash t.name s.tokens)) [
            | inl a ↦ rw (e, a) v
            | inr a ↦ elim (Bool-cases (id_clash t.name t.id s.tokens)) [
              | inl b ↦ rw (e, a, b) v
              | inr b ↦ rw (e, a, b) done
            ]
          ]
    ]

add_token-IsStore :
    (w : World) (t : Token) (token : Bytes) (s : Store)
    → IsToken t
    → IsStore s
    → IsStore (add_token w t token s).0
add_token-IsStore w t token s h v =
    subst (λ (r : Store × Made). IsStore r.0) (sym (add_token_lem w t token s))
      (added-IsStore w t token s h v)

create_with-IsStore :
    (w : World) (name : Bytes) (set : Caps) (raw raw_id : Option Bytes) (s : Store)
    → w.wall < 2 ^ 63
    → RawBytes raw_id
    → name_ok name ≡ true
    → length set ≡ 6
    → has_cap set ≡ true
    → IsStore s
    → IsStore (create_with w name set (random_hex 16 raw) (random_hex 4 raw_id) s).0
create_with-IsStore w name set raw raw_id s l b n k c v = elim (Option-cases (random_hex 16 raw)) [
  | inl e ↦ rw e v
  | inr (hex, e) ↦ elim (Option-cases (random_hex 4 raw_id)) [
    | inl f ↦ rw (e, f) v
    | inr (id, f) ↦
        let q = random_hex-id raw_id id b f in
        let token = prefix ++ hex in
        rw (e, f)
          (add_token-IsStore w _ token s
            (record {
              id_length = q.0;
              id_chars = q.1;
              hash_length = length-sha256 token;
              hash_bytes = sha256-AllBytes token;
              name_fine = n;
              caps_length = k;
              some_cap = c;
              created_long = l;
              used_long = omega arith;
            })
            v)
  ]
]

create_parsed-IsStore :
    (w : World) (name : Bytes) (p : Parsed) (raw raw_id : Option Bytes) (s : Store)
    → w.wall < 2 ^ 63
    → RawBytes raw_id
    → name_ok name ≡ true
    → ((r : Caps) → p ≡ parsed r → length r ≡ 6)
    → IsStore s
    → IsStore (create_parsed w name p raw raw_id s).0
create_parsed-IsStore w name (bad_cap word) raw raw_id s l b n k v = v
create_parsed-IsStore w name (parsed set) raw raw_id s l b n k v = elim (Bool-cases (has_cap set)) [
  | inl e ↦ rw e (create_with-IsStore w name set raw raw_id s l b n (k set refl) e v)
  | inr e ↦ rw e v
]

pub create-IsStore :
    (w : World) (name caps : Bytes) (raw raw_id : Option Bytes) (s : Store)
    → w.wall < 2 ^ 63
    → RawBytes raw_id
    → IsStore s
    → IsStore (tokens_create w name caps raw raw_id s).0
unfolding tokens_create
create-IsStore w name caps raw raw_id s l b v = elim (Bool-cases (name_ok name)) [
  | inl e ↦ rw e (
      create_parsed-IsStore w name (caps_parse caps) raw raw_id s l b e
        (λ r q. caps_from-length (suc (length caps)) _ r caps refl q) v)
  | inr e ↦ rw e v
]

without-AllTokens :
    (id : Bytes) (ts rest : List Token)
    → AllTokens ts
    → without id ts ≡ some rest
    → AllTokens rest × (length rest < length ts)
unfolding without
without-AllTokens id [] rest v e = absurd (ground arith)
without-AllTokens id (t ∷ ts) rest v e = elim (Bool-cases (same t.id id)) [
  | inl a ↦ let q : ts ≡ rest = ground arith in rw (sym q) (v.1, omega arith)
  | inr a ↦ elim (Option-cases (without id ts)) [
    | inl b ↦ absurd (ground arith)
    | inr (r, b) ↦
        let q : t ∷ r ≡ rest = ground (arith, a, b) in
        let k = without-AllTokens id ts r v.1 b in rw (sym q) ((v.0, k.0), omega (arith, k.1))
  ]
]

pub revoke-IsStore :
    (w : World) (id : Bytes) (s : Store) → IsStore s → IsStore (tokens_revoke w id s).0
revoke-IsStore w id s v =
    subst (λ (r : Store × Option Refusal). IsStore r.0) (sym (tokens_revoke_lem w id s))
      (elim (Option-cases (without id s.tokens)) [
        | inl e ↦ rw e v
        | inr (ts, e) ↦
            let k = without-AllTokens id s.tokens ts v.all_tokens e in
            let fits : length ts ≤ tokens_max = let few = v.at_most in omega (arith, k.1) in
            rw e (if_saved-IsStore none (some cannot_write) w ts s k.0 fits v)
      ])
