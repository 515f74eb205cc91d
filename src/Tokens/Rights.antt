-- ===== src/Tokens/Rights.antt =====
-- On what a token of src/tokens.c reaches, from its making to its end.
use forgectrl.Prelude.{
  ◌≡◌, refl, ap, ◌∙◌, inl, inr, true, List, [], ◌∷◌, ◌++◌, Option, none, some, Bytes, if◌then◌else◌,
  arith, Bool-cases,
}
use forgectrl.Sha256.Compare.{ct_equal}
use forgectrl.Sha256.Stream.{sha256}
use forgectrl.Tokens.Checks.{Token, is_token_text}
use forgectrl.Tokens.Store.{
  Store, World, Judged, no_token, live, passes, Found, find_hash, holds_asked, check_found,
  tokens_check,
}

-- What `tokens_check` says, without what it does.
abbrev pub judged : World → Bytes → Option Bytes → Store → Judged
judged w presented cap s = (tokens_check w presented cap s).1

-- The first token with a hash.
unfoldable pub owner : Bytes → List Token → Option Token
owner h [] = none
owner h (t ∷ ts) = let rest = owner h ts in if ct_equal h t.hash then some t else rest

abbrev pub judged_of : Option Bytes → Option Token → Judged
judged_of cap none = no_token
judged_of cap (some t) = if holds_asked cap t.caps then passes else live

abbrev pub found_of : Option Bytes → Option Token → Found
found_of cap none = none
found_of cap (some t) = some (t, holds_asked cap t.caps)

pub find_hash-owner :
    (h : Bytes) (cap : Option Bytes) (ts : List Token)
    → find_hash h cap ts ≡ found_of cap (owner h ts)
unfolding find_hash owner
find_hash-owner h cap [] = refl
find_hash-owner h cap (t ∷ ts) = elim (Bool-cases (ct_equal h t.hash)) [
  | inl e ↦ rw e refl
  | inr e ↦ rw e (find_hash-owner h cap ts)
]

check_found-judged :
    (w : World) (h : Bytes) (s : Store) (cap : Option Bytes) (o : Option Token)
    → (check_found w h s (found_of cap o)).1 ≡ judged_of cap o
check_found-judged w h s cap none = refl
check_found-judged w h s cap (some t) = elim (Bool-cases (holds_asked cap t.caps)) [
  | inl e ↦ rw e refl
  | inr e ↦ rw e refl
]

-- The judgement is that of the first token whose hash is the text's.
pub judged_lem :
    (w : World) (presented : Bytes) (cap : Option Bytes) (s : Store)
    → judged w presented cap s ≡ (
        if is_token_text presented
        then judged_of cap (owner (sha256 presented) s.tokens)
        else no_token)
unfolding tokens_check
judged_lem w presented cap s = elim (Bool-cases (is_token_text presented)) [
  | inl e ↦
      let h = sha256 presented in
      rw e (
        ap (λ f. (check_found w h s f).1) (find_hash-owner h cap s.tokens)
        ∙ check_found-judged w h s cap (owner h s.tokens))
  | inr e ↦ rw e refl
]

-- A token is added behind the others.
pub owner-append :
    (h : Bytes) (ts : List Token) (t : Token)
    → owner h ts ≡ none
    → ct_equal h t.hash ≡ true
    → owner h (ts ++ (t ∷ [])) ≡ some t
unfolding owner
owner-append h [] t e k = rw k refl
owner-append h (a ∷ ts) t e k = elim (Bool-cases (ct_equal h a.hash)) [
  | inl q ↦ absurd (ground (arith, q))
  | inr q ↦ rw q (owner-append h ts t (ground (arith, q)) k)
]
