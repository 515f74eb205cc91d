-- ===== src/Tokens/Limits.antt =====
-- On the refusals of src/tokens.c, and on what a token cannot reach.
use forgectrl.Prelude.{
  ◌⊎◌, ◌-◌, ◌*◌, ◌≡◌, ◌≢◌, refl, sym, ap, ◌∙◌, inl, inr, Bool, true, false, ◌||◌, List, [], ◌∷◌,
  ◌++◌, Option, none, some, Bytes, codes, same, same→eq, strip_prefix, length, leb, if◌then◌else◌,
  arith, Bool-cases,
}
use forgectrl.Sha256.Compare.{ct_equal, ct_equal_iff, sha256_hex}
use forgectrl.Sha256.Stream.{sha256}
use forgectrl.Tokens.Caps.{
  caps_from, word_of, skip_seps, index_from, Caps, Parsed, parsed, bad_cap, all_caps, caps_parse,
  holds, covers, is_any, is_some,
}
use forgectrl.Tokens.Checks.{Token, tokens_max, prefix, name_ok, is_token_text}
use forgectrl.Tokens.Numbers.{length-sha256_hex}
use forgectrl.Tokens.File.{has_cap}
use forgectrl.Tokens.Store.{
  Store, World, save, no_token, live, passes, find_hash, only_with, only_found, tokens_holds_only,
  random_hex, Made, made, refused, Refusal, cannot_write, if_saved, create_with, create_parsed,
  tokens_create, name_clash, id_clash, tokens_revoke,
}
use forgectrl.Prelude.{take}
use forgectrl.Tokens.Store.{mint_with, tokens_host_mint, tokens_host_check}
use forgectrl.Tokens.Rollback.{added, add_token_lem, without, revoked, tokens_revoke_lem}
use forgectrl.Tokens.Rights.{judged, owner, found_of, find_hash-owner, judged_of, judged_lem}

if_saved_refused {ℓ} :
    {X : Type ℓ}
    → (x y z : X) (w : World) (s u s' : Store) → (x ≢ z)
    → if_saved {A = Store × X} (save w u) (λ s'. (s', x)) (λ s'. (s, y)) ≡ (s', z)
    → s' ≡ s
if_saved_refused {X = X} x y z w s u s' n e =
    let p = save w u in
    let at : (b : Bool)
        → p.1 ≡ b
        → if_saved {A = Store × X} (p.0, b) (λ s'. (s', x)) (λ s'. (s, y)) ≡ (s', z) =
      λ b q.
        sym (ap (λ b. if_saved {A = Store × X} (p.0, b) (λ s'. (s', x)) (λ s'. (s, y))) q) ∙ e in
    elim (Bool-cases p.1) [
      | inl a ↦ absurd (n (ap (λ x. x.1) (at true a)))
      | inr a ↦ sym (ap (λ x. x.0) (at false a))
    ]

added_refused :
    (w : World) (t : Token) (text : Bytes) (r : Refusal) (s s' : Store)
    → added w t text s ≡ (s', refused r)
    → s' ≡ s
added_refused w t text r s s' e =
    let kept = s.tokens in
    elim (Bool-cases (leb tokens_max (length s.tokens))) [
      | inl a ↦ ground (arith, a, e)
      | inr a ↦ elim (Bool-cases (name_clash t.name s.tokens)) [
        | inl b ↦ ground (arith, a, b, e)
        | inr b ↦ elim (Bool-cases (id_clash t.name t.id s.tokens)) [
          | inl c ↦ ground (arith, a, b, c, e)
          | inr c ↦
              let path : added w t text s
                  ≡ if_saved {A = Store × Made}
                      (save w (record s { tokens = s.tokens ++ (t ∷ []) }))
                      (λ s'. (s', made text t.id)) (λ s'. (s, refused cannot_write)) =
                rw (a, b, c) refl in
              if_saved_refused (made text t.id) (refused cannot_write) (refused r) w s _ s'
                (λ q. absurd (ground (arith, q))) (sym path ∙ e)
        ]
      ]
    ]

create_with_refused :
    (w : World) (name : Bytes) (set : Caps) (hex id : Option Bytes) (r : Refusal) (s s' : Store)
    → create_with w name set hex id s ≡ (s', refused r)
    → s' ≡ s
create_with_refused w name set none id r s s' e = sym (ap (λ x. x.0) e)
create_with_refused w name set (some hex) none r s s' e = sym (ap (λ x. x.0) e)
create_with_refused w name set (some hex) (some id) r s s' e =
    added_refused w _ (prefix ++ hex) r s s' (sym (add_token_lem w _ (prefix ++ hex) s) ∙ e)

create_parsed_refused :
    (w : World) (name : Bytes) (p : Parsed) (raw raw_id : Option Bytes) (r : Refusal) (s s' : Store)
    → create_parsed w name p raw raw_id s ≡ (s', refused r)
    → s' ≡ s
create_parsed_refused w name (bad_cap word) raw raw_id r s s' e = sym (ap (λ x. x.0) e)
create_parsed_refused w name (parsed set) raw raw_id r s s' e = elim (Bool-cases (has_cap set)) [
  | inl a ↦
      let path : create_parsed w name (parsed set) raw raw_id s
          ≡ create_with w name set (random_hex 16 raw) (random_hex 4 raw_id) s =
        rw a refl in
      create_with_refused w name set (random_hex 16 raw) (random_hex 4 raw_id) r s s' (sym path ∙ e)
  | inr a ↦ ground (arith, a, e)
]

create_refused :
    (w : World) (name caps : Bytes) (raw raw_id : Option Bytes) (r : Refusal) (s s' : Store)
    → tokens_create w name caps raw raw_id s ≡ (s', refused r)
    → s' ≡ s
unfolding tokens_create
create_refused w name caps raw raw_id r s s' e = elim (Bool-cases (name_ok name)) [
  | inl a ↦
      let path : tokens_create w name caps raw raw_id s
          ≡ create_parsed w name (caps_parse caps) raw raw_id s =
        rw a refl in
      create_parsed_refused w name (caps_parse caps) raw raw_id r s s' (sym path ∙ e)
  | inr a ↦ ground (arith, a, e)
]

revoked_refused :
    (w : World) (o : Option (List Token)) (r : Refusal) (s s' : Store)
    → revoked w o s ≡ (s', some r)
    → s' ≡ s
revoked_refused w none r s s' e = sym (ap (λ x. x.0) e)
revoked_refused w (some ts) r s s' e =
    if_saved_refused none (some cannot_write) (some r) w s _ s' (λ q. absurd (ground (arith, q))) e

-- A call of `tokens_create` that is refused and one of `tokens_revoke` that is, for whatever
-- reason, a save that fails behind the change of the table among them, leave the table as it was,
-- each token in its place, and the file.
pub refused_keeps :
    (w w' : World) (name caps id : Bytes) (raw raw_id : Option Bytes) (r r' : Refusal)
    (s s' u u' : Store)
    → tokens_create w name caps raw raw_id s ≡ (s', refused r)
    → tokens_revoke w' id u ≡ (u', some r')
    → (s' ≡ s) × (u' ≡ u)
refused_keeps w w' name caps id raw raw_id r r' s s' u u' e f = (
  create_refused w name caps raw raw_id r s s' e,
  revoked_refused w' (without id u.tokens) r' u u' (sym (tokens_revoke_lem w' id u) ∙ f),
)

only_with-holds :
    (p cap : Bytes) (set : Caps) (cs : List Bytes)
    → is_any cap ≡ false
    → only_with p set cs ≡ true
    → holds cap set cs ≡ true
    → is_some (strip_prefix p cap) ≡ true
unfolding only_with holds
only_with-holds p cap [] cs n a b = absurd (ground arith)
only_with-holds p cap (x ∷ xs) [] n a b = absurd (ground arith)
only_with-holds p cap (true ∷ xs) (c ∷ cs) n a b = elim (Bool-cases (covers cap c)) [
  | inl k ↦
      let q : c ≡ cap = same→eq c cap (
        sym (
          ap (λ z. if z then is_some (strip_prefix (take (length cap - 3) cap) c) else same c cap)
            n)
        ∙ k) in
      let f : is_some (strip_prefix p c) ≡ true = ground arith in
      sym (ap (λ z. is_some (strip_prefix p z)) q) ∙ f
  | inr k ↦
      only_with-holds p cap xs cs n (ground arith) (sym (ap (λ z. z || holds cap xs cs) k) ∙ b)
]
only_with-holds p cap (false ∷ xs) (c ∷ cs) n a b = only_with-holds p cap xs cs n a b

passing :
    (o : Option Token) (cap p : Bytes)
    → is_any cap ≡ false
    → only_found p (found_of none o) ≡ true
    → judged_of (some cap) o ≡ passes
    → is_some (strip_prefix p cap) ≡ true
passing none cap p n a b = absurd (ground (arith, a))
passing (some t) cap p n a b = elim (Bool-cases (holds cap t.caps all_caps)) [
  | inl k ↦ only_with-holds p cap t.caps all_caps n a k
  | inr k ↦ absurd (let q = sym (ap (λ z. if z then passes else live) k) ∙ b in ground (arith, q))
]

-- A token for which `tokens_holds_only` of a prefix holds passes for no capability that does not
-- begin with it, where the one asked for is no ".any".
pub holds_only-judged :
    (w : World) (presented p cap : Bytes) (s : Store)
    → is_any cap ≡ false
    → tokens_holds_only presented p s ≡ true
    → judged w presented (some cap) s ≡ passes
    → is_some (strip_prefix p cap) ≡ true
unfolding tokens_holds_only
holds_only-judged w presented p cap s n a b =
    let h = sha256 presented in
    let o = owner h s.tokens in
    let f : only_found p (find_hash h none s.tokens) ≡ true = ground arith in
    let j = sym (judged_lem w presented (some cap) s) ∙ b in
    elim (Bool-cases (is_token_text presented)) [
      | inl t ↦
          passing o cap p n (sym (ap (only_found p) (find_hash-owner h none s.tokens)) ∙ f)
            (sym (ap (λ z. if z then judged_of (some cap) o else no_token) t) ∙ j)
      | inr t ↦ absurd (
          let q = sym (ap (λ z. if z then judged_of (some cap) o else no_token) t) ∙ j in
          ground (arith, q))
    ]

abbrev host_set : Caps
host_set = false ∷ false ∷ false ∷ false ∷ true ∷ true ∷ []

host_set_lem : caps_parse (codes "motion.jog,motion.job") ≡ parsed host_set
unfolding caps_from word_of skip_seps index_from
host_set_lem = refl

host_holds :
    (cap : Bytes)
    → is_any cap ≡ false
    → holds cap host_set all_caps ≡ true
    → (cap ≡ codes "motion.jog") ⊎ (cap ≡ codes "motion.job")
unfolding holds
host_holds cap n h =
    let jog = same→eq (codes "motion.jog") cap in
    let job = same→eq (codes "motion.job") cap in
    let k : (same (codes "motion.jog") cap || (same (codes "motion.job") cap || false)) ≡ true =
      sym (
        ap
          (λ z.
            (if z
              then is_some (strip_prefix (take (length cap - 3) cap) (codes "motion.jog"))
              else same (codes "motion.jog") cap)
            || ((if z
                  then is_some (strip_prefix (take (length cap - 3) cap) (codes "motion.job"))
                  else same (codes "motion.job") cap)
                || false))
          n)
      ∙ h in
    elim (Bool-cases (same (codes "motion.jog") cap)) [
      | inl a ↦ inl (sym (jog a))
      | inr a ↦ inr (sym (job (ground (arith, a, k))))
    ]

minted :
    (raw : Option Bytes) (hex : Option Bytes) (s s' : Store)
    → random_hex 16 raw ≡ hex
    → mint_with (parsed host_set) hex s ≡ (s', true)
    → (length s'.host_tok ≡ 36) × (s'.host_caps ≡ host_set)
minted raw none s s' q e = absurd (ground (arith, e))
minted none (some hex) s s' q e = absurd (ground (arith, q))
minted (some raw) (some hex) s s' q e =
    let n = length-sha256_hex raw in
    let l : length raw ≡ 16 = ground arith in
    let k : sha256_hex raw ≡ hex = ground arith in
    let m : length hex ≡ 32 = sym (ap length k) ∙ n ∙ ap (λ m. 2 * m) l in
    (sym (ap (λ x. length x.0.host_tok) e) ∙ omega (arith, m), sym (ap (λ x. x.0.host_caps) e))

-- The extension host's credential, once minted, passes only for itself, and for nothing but
-- motion.jog and motion.job, where what is asked for is no ".any".
pub host_mint_check :
    (raw : Option Bytes) (presented cap : Bytes) (s s' : Store)
    → is_any cap ≡ false
    → tokens_host_mint raw s ≡ (s', true)
    → tokens_host_check presented cap s' ≡ true
    → (presented ≡ s'.host_tok) × ((cap ≡ codes "motion.jog") ⊎ (cap ≡ codes "motion.job"))
unfolding tokens_host_mint tokens_host_check
host_mint_check raw presented cap s s' n e h =
    let m =
      minted raw (random_hex 16 raw) s s' refl
        (sym (ap (λ p. mint_with p (random_hex 16 raw) s) host_set_lem) ∙ e) in
    let l : length presented ≡ length s'.host_tok = ground (arith, m.0) in
    let eq : ct_equal presented s'.host_tok ≡ true = ground arith in
    let k : holds cap s'.host_caps all_caps ≡ true = ground arith in
    (
      (ct_equal_iff presented s'.host_tok l).0 eq,
      host_holds cap n (sym (ap (λ c. holds cap c all_caps) m.1) ∙ k),
    )
