-- ===== src/Tokens/Revoking.antt =====
-- On the token that `tokens_revoke` of src/tokens.c drops.
use forgectrl.Prelude.{
  subst, ◌≡◌, refl, sym, ap, ◌∙◌, inl, inr, Bool, true, false, List, [], ◌∷◌, Option, none, some,
  Bytes, same, same→eq, length, if◌then◌else◌, arith, Bool-cases, Option-cases,
}
use forgectrl.Sha256.Compare.{ct_equal, ct_equal_iff}
use forgectrl.Sha256.Stream.{sha256}
use forgectrl.Tokens.Checks.{Token, is_token_text}
use forgectrl.Tokens.Reload.{AllTokens}
use forgectrl.Tokens.Kept.{tokens-save, length-sha256}
use forgectrl.Tokens.Rollback.{without, revoked, tokens_revoke_lem}
use forgectrl.Tokens.Store.{
  Store, World, save, no_token, Refusal, cannot_write, if_saved, tokens_revoke,
}
use forgectrl.Tokens.Rights.{judged, owner, judged_of, judged_lem}

-- The owner behind a revocation.
abbrev pub unless : Bytes → Option Token → Option Token
unless id none = none
unless id (some t) = if same t.id id then none else some t

-- No token of a list shares an id or a hash with a token.
abbrev pub Away : Token → List Token → Type 0
Away t [] = Unit
Away t (u ∷ us) = ((same u.id t.id ≡ false) × (ct_equal t.hash u.hash ≡ false)) × Away t us

abbrev pub Distinct : List Token → Type 0
Distinct [] = Unit
Distinct (t ∷ ts) = Away t ts × Distinct ts

owner-Away : (t : Token) (ts : List Token) → Away t ts → owner t.hash ts ≡ none
unfolding owner
owner-Away t [] a = refl
owner-Away t (u ∷ us) a = rw a.0.1 (owner-Away t us a.1)

unless-Away :
    (h id : Bytes) (t : Token) (ts : List Token)
    → Away t ts
    → same t.id id ≡ true
    → unless id (owner h ts) ≡ owner h ts
unfolding owner
unless-Away h id t [] a e = refl
unless-Away h id t (u ∷ us) a e = elim (Bool-cases (ct_equal h u.hash)) [
  | inl k ↦
      let q : t.id ≡ id = same→eq t.id id e in
      let n : same u.id id ≡ false = subst (λ i. same u.id i ≡ false) q a.0.0 in rw (k, n) refl
  | inr k ↦ rw k (unless-Away h id t us a.1 e)
]

owner-without :
    (h id : Bytes) (ts rest : List Token)
    → length h ≡ 32
    → AllTokens ts
    → Distinct ts
    → without id ts ≡ some rest
    → owner h rest ≡ unless id (owner h ts)
unfolding without owner
owner-without h id [] rest l v d e = absurd (ground arith)
owner-without h id (t ∷ ts) rest l v d e = elim (Bool-cases (same t.id id)) [
  | inl a ↦
      let q : ts ≡ rest = ground arith in
      elim (Bool-cases (ct_equal h t.hash)) [
        | inl k ↦
            let hl = v.0 in
            let same_hash : h ≡ t.hash = (ct_equal_iff h t.hash (l ∙ sym (hl.hash_length))).0 k in
            sym (ap (owner h) q)
            ∙ ap (λ x. owner x ts) same_hash
            ∙ owner-Away t ts d.0
            ∙ rw (k, a) refl
        | inr k ↦ sym (ap (owner h) q) ∙ sym (unless-Away h id t ts d.0 a) ∙ rw k refl
      ]
  | inr a ↦ elim (Option-cases (without id ts)) [
    | inl b ↦ absurd (ground (arith, a, b))
    | inr (r, b) ↦
        let q : t ∷ r ≡ rest = ground (arith, a, b) in
        let ih = owner-without h id ts r l v.1 d.1 b in
        sym (ap (owner h) q)
        ∙ elim (Bool-cases (ct_equal h t.hash)) [ inl k ↦ rw (k, a) refl | inr k ↦ rw k ih ]
  ]
]

revoked_done :
    (w : World) (o : Option (List Token)) (s s' : Store)
    → revoked w o s ≡ (s', none)
    → o ≡ some s'.tokens
revoked_done w none s s' e = absurd (ground (arith, e))
revoked_done w (some ts) s s' e =
    let p = save w (record s { tokens = ts }) in
    let kept = tokens-save w (record s { tokens = ts }) in
    let at : (b : Bool)
        → p.1 ≡ b
        → if_saved {A = Store × Option Refusal} (p.0, b) (λ s'. (s', none))
            (λ s'. (s, some cannot_write))
          ≡ (s', none) =
      λ b q.
        sym (
          ap
            (λ b.
              if_saved {A = Store × Option Refusal} (p.0, b) (λ s'. (s', none))
                (λ s'. (s, some cannot_write)))
            q)
        ∙ e in
    elim (Bool-cases p.1) [
      | inl a ↦ ap some (sym kept ∙ ap (λ x. x.0.tokens) (at true a))
      | inr a ↦ absurd (let q = at false a in ground (arith, q))
    ]

-- Once `tokens_revoke` has returned 0, the token of the id is no token any more, and every other
-- text is judged as it was, where the table is well formed and no two tokens share an id or a
-- hash.
pub revoke_judged :
    (w later : World) (id presented : Bytes) (cap : Option Bytes) (s s' : Store)
    → AllTokens s.tokens
    → Distinct s.tokens
    → tokens_revoke w id s ≡ (s', none)
    → judged later presented cap s' ≡ (
        if is_token_text presented
        then judged_of cap (unless id (owner (sha256 presented) s.tokens))
        else no_token)
revoke_judged w later id presented cap s s' v d e =
    let h = sha256 presented in
    let gone = revoked_done w (without id s.tokens) s s' (sym (tokens_revoke_lem w id s) ∙ e) in
    judged_lem later presented cap s'
    ∙ ap (λ o. if is_token_text presented then judged_of cap o else no_token)
        (owner-without h id s.tokens s'.tokens (length-sha256 presented) v d gone)
