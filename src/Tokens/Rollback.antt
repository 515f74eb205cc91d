-- ===== src/Tokens/Rollback.antt =====
-- On the two rollbacks of src/tokens.c, when a token cannot be saved or its revocation cannot.
use forgectrl.Prelude.{
  ℕ, suc, ◌-◌, ◌≡◌, refl, sym, subst, ap, ◌∙◌, inl, inr, ◌&&◌, List, [], ◌∷◌, ◌++◌, Option, none,
  some, Bytes, same, length, take, length-append, leb, if◌then◌else◌, arith, Bool-cases,
  Option-cases,
}
use forgectrl.Tokens.Checks.{Token, tokens_max}
use forgectrl.Tokens.File.{all_fit}
use forgectrl.Tokens.Store.{
  Store, World, save, Made, made, refused, Refusal, too_many, name_exists, try_again, cannot_write,
  no_such_token, if_saved, name_clash, id_clash, drop_last, add_token, find_id, close_gap, put_back,
  tokens_revoke,
}

-- A save that fails has changed nothing in memory.
if_saved-save {ℓ} :
    {A : Type ℓ} (w : World) (u : Store) (f g : Store → A)
    → if_saved (save w u) f g ≡ if_saved (save w u) f (λ s'. g u)
unfolding save
if_saved-save w u f g = elim (Bool-cases (w.disk && all_fit u.tokens)) [
  | inl e ↦ rw e refl
  | inr e ↦ rw e refl
]

drop_last-append : (ts : List Token) (t : Token) → drop_last (ts ++ (t ∷ [])) ≡ ts
drop_last-append ts t =
    let n : length (ts ++ (t ∷ [])) - 1 ≡ length ts = omega (arith, length-append ts (t ∷ [])) in
    ap (λ k. take k (ts ++ (t ∷ []))) n ∙ take_all ts
  where
    take_all : (xs : List Token) → take (length xs) (xs ++ (t ∷ [])) ≡ xs
    take_all [] = refl
    take_all (x ∷ xs) = ap (λ r. x ∷ r) (take_all xs)

-- What `add_token` comes to: a failed save leaves the store alone.
abbrev pub added : World → Token → Bytes → Store → Store × Made
added w t token s =
    let saved =
      if_saved (save w (record s { tokens = s.tokens ++ (t ∷ []) })) (λ s'. (s', made token t.id))
        (λ s'. (s, refused cannot_write)) in
    if leb tokens_max (length s.tokens)
    then (s, refused too_many)
    else if name_clash t.name s.tokens
    then (s, refused name_exists)
    else if id_clash t.name t.id s.tokens
    then (s, refused try_again)
    else saved

pub add_token_lem :
    (w : World) (t : Token) (token : Bytes) (s : Store) → add_token w t token s ≡ added w t token s
unfolding add_token
add_token_lem w t token s =
    let u : Store = record s { tokens = s.tokens ++ (t ∷ []) } in
    let back : if_saved {A = Store × Made} (save w u) (λ s'. (s', made token t.id))
          (λ s'. (record s' { tokens = drop_last s'.tokens }, refused cannot_write))
        ≡ if_saved {A = Store × Made} (save w u) (λ s'. (s', made token t.id))
            (λ s'. (s, refused cannot_write)) =
      if_saved-save w u (λ s'. (s', made token t.id))
        (λ s'. (record s' { tokens = drop_last s'.tokens }, refused cannot_write))
      ∙ ap
          (λ ts.
            if_saved {A = Store × Made} (save w u) (λ s'. (s', made token t.id))
              (λ s'. (record s { tokens = ts }, refused cannot_write)))
          (drop_last-append s.tokens t) in
    ap
      (λ (r : Store × Made).
        if leb tokens_max (length s.tokens)
        then (s, refused too_many)
        else if name_clash t.name s.tokens
        then (s, refused name_exists)
        else if id_clash t.name t.id s.tokens
        then (s, refused try_again)
        else r)
      back

-- The table without its first token of an id.
unfoldable pub without : Bytes → List Token → Option (List Token)
without id [] = none
without id (t ∷ ts) =
    let rest = without id ts in
    if same t.id id then some ts else elim rest [ none ↦ none | some r ↦ some (t ∷ r) ]

-- What `tokens_revoke` comes to: a failed save leaves the store alone.
abbrev pub revoked : World → Option (List Token) → Store → Store × Option Refusal
revoked w none s = (s, some no_such_token)
revoked w (some ts) s =
    if_saved (save w (record s { tokens = ts })) (λ s'. (s', none)) (λ s'. (s, some cannot_write))

without-none : (id : Bytes) (ts : List Token) → find_id id ts ≡ none → without id ts ≡ none
unfolding find_id without
without-none id [] e = refl
without-none id (t ∷ ts) e = elim (Bool-cases (same t.id id)) [
  | inl a ↦ absurd (ground (arith, a, e))
  | inr a ↦ elim (Option-cases (find_id id ts)) [
    | inl b ↦ rw (a, without-none id ts b) refl
    | inr (x, b) ↦ absurd (ground (arith, a, b, e))
  ]
]

record Gap (id : Bytes) (i : ℕ) (g : Token) (ts : List Token) : Type 0 where
  gone : without id ts ≡ some (close_gap i ts)
  back : put_back i g (close_gap i ts) ≡ ts

find_id-Gap :
    (id : Bytes) (x : ℕ × Token) (ts : List Token) → find_id id ts ≡ some x → Gap id x.0 x.1 ts
unfolding find_id without close_gap put_back
find_id-Gap id x [] e = absurd (ground arith)
find_id-Gap id x (t ∷ ts) e = elim (Bool-cases (same t.id id)) [
  | inl a ↦
      let here : find_id id (t ∷ ts) ≡ some (0, t) = rw a refl in
      let q : (0, t) ≡ x = cc (here, e) in
      subst (λ (x : ℕ × Token). Gap id x.0 x.1 (t ∷ ts)) q
        (record { gone = rw a refl; back = refl })
  | inr a ↦ elim (Option-cases (find_id id ts)) [
    | inl b ↦ absurd (
        let here : find_id id (t ∷ ts) ≡ none = rw (a, b) refl in
        let q : none ≡ some x = sym here ∙ e in cc (q))
    | inr ((i, g), b) ↦
        let here : find_id id (t ∷ ts) ≡ some (suc i, g) = rw (a, b) refl in
        let q : (suc i, g) ≡ x = cc (here, e) in
        let gap = find_id-Gap id (i, g) ts b in
        subst (λ (x : ℕ × Token). Gap id x.0 x.1 (t ∷ ts)) q
          (record { gone = rw (a, gap.gone) refl; back = ap (λ r. t ∷ r) gap.back })
  ]
]

pub tokens_revoke_lem :
    (w : World) (id : Bytes) (s : Store) → tokens_revoke w id s ≡ revoked w (without id s.tokens) s
unfolding tokens_revoke
tokens_revoke_lem w id s = elim (Option-cases (find_id id s.tokens)) [
  | inl e ↦ rw (e, without-none id s.tokens e) refl
  | inr ((i, g), e) ↦
      let gap = find_id-Gap id (i, g) s.tokens e in
      let u : Store = record s { tokens = close_gap i s.tokens } in
      rw (e, gap.gone)
        (if_saved-save w u (λ s'. (s', none))
            (λ s'. (record s' { tokens = put_back i g s'.tokens }, some cannot_write))
          ∙ ap
              (λ ts.
                if_saved {A = Store × Option Refusal} (save w u) (λ s'. (s', none))
                  (λ s'. (record s { tokens = ts }, some cannot_write)))
              gap.back)
]
