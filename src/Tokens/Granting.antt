-- ===== src/Tokens/Granting.antt =====
-- On the token that `tokens_create` of src/tokens.c makes.
use forgectrl.Prelude.{
  ◌*◌, ◌≡◌, refl, sym, ap, ap₂, ◌∙◌, inl, inr, true, List, [], ◌∷◌, ◌++◌, Option, none, some, Bytes,
  length, leb, if◌then◌else◌, arith, Bool-cases, Option-cases,
}
use forgectrl.Sha256.Compare.{ct_equal, ct_equal_iff, sha256_hex}
use forgectrl.Sha256.Stream.{sha256}
use forgectrl.Tokens.Caps.{Caps, Parsed, parsed, bad_cap, caps_parse}
use forgectrl.Tokens.Checks.{Token, pos, tokens_max, prefix, hex_ok, name_ok, is_token_text}
use forgectrl.Tokens.Numbers.{AllBytes, hex_ok-sha256_hex, length-sha256_hex}
use forgectrl.Tokens.File.{has_cap}
use forgectrl.Tokens.Kept.{tokens-save}
use forgectrl.Tokens.Store.{
  Store, World, save, no_token, live, passes, holds_asked, random_hex, Made, made, refused,
  cannot_write, if_saved, add_token, create_with, create_parsed, tokens_create, name_clash,
  id_clash,
}
use forgectrl.Tokens.Rollback.{added, add_token_lem}
use forgectrl.Tokens.Rights.{judged, owner, judged_of, judged_lem, owner-append}

if_saved-made :
    (w : World) (ts : List Token) (text i token id : Bytes) (s s' : Store)
    → if_saved {A = Store × Made}
        (save w (record s { tokens = ts }))
        (λ s'. (s', made text i))
        (λ s'. (s, refused cannot_write))
      ≡ (s', made token id)
    → (text ≡ token) × (s'.tokens ≡ ts)
if_saved-made w ts text i token id s s' e =
    let p = save w (record s { tokens = ts }) in
    let kept = tokens-save w (record s { tokens = ts }) in
    elim (Bool-cases p.1) [
      | inl a ↦
          let q : (p.0, made text i) ≡ (s', made token id) =
            sym (
              ap
                (λ b.
                  if_saved {A = Store × Made} (p.0, b) (λ s'. (s', made text i))
                    (λ s'. (s, refused cannot_write)))
                a)
            ∙ e in
          (ground (arith, q), sym (ap (λ x. x.0.tokens) q) ∙ kept)
      | inr a ↦
          let q : (s, refused cannot_write) ≡ (s', made token id) =
            sym (
              ap
                (λ b.
                  if_saved {A = Store × Made} (p.0, b) (λ s'. (s', made text i))
                    (λ s'. (s, refused cannot_write)))
                a)
            ∙ e in
          absurd (ground (arith, q))
    ]

-- What the lock holder of `tokens_create` has done when a token is made.
added-made :
    (w : World) (t : Token) (text token id : Bytes) (s s' : Store)
    → added w t text s ≡ (s', made token id)
    → (text ≡ token) × (s'.tokens ≡ s.tokens ++ (t ∷ []))
added-made w t text token id s s' e = elim (Bool-cases (leb tokens_max (length s.tokens))) [
  | inl a ↦ absurd (ground (arith, a))
  | inr a ↦ elim (Bool-cases (name_clash t.name s.tokens)) [
    | inl b ↦ absurd (ground (arith, a, b))
    | inr b ↦ elim (Bool-cases (id_clash t.name t.id s.tokens)) [
      | inl c ↦ absurd (ground (arith, a, b, c))
      | inr c ↦ if_saved-made w (s.tokens ++ (t ∷ [])) text t.id token id s s' (
          sym (
            let path : added w t text s
                ≡ if_saved {A = Store × Made} (save w (record s { tokens = s.tokens ++ (t ∷ []) }))
                    (λ s'. (s', made text t.id)) (λ s'. (s, refused cannot_write)) =
              rw (a, b, c) refl in
            path)
          ∙ e)
    ]
  ]
]

is_token_text-made :
    (raw hex : Bytes)
    → AllBytes raw
    → random_hex 16 (some raw) ≡ some hex
    → is_token_text (prefix ++ hex) ≡ true
is_token_text-made raw hex v e =
    let n = length-sha256_hex raw in
    let k = hex_ok-sha256_hex raw v in
    let l : length raw ≡ 16 = ground arith in
    let q : sha256_hex raw ≡ hex = ground arith in
    let m : length hex ≡ 32 = sym (ap length q) ∙ n ∙ ap (λ m. 2 * m) l in
    let f : hex_ok hex ≡ true = sym (ap hex_ok q) ∙ k in ground arith

-- A token that `tokens_create` makes is behind all others, and is what was asked for.
record Makes (name caps token id : Bytes) (s s' : Store) : Type 0 where
  set : Caps
  t : Token
  was_parsed : caps_parse caps ≡ parsed set
  added : s'.tokens ≡ s.tokens ++ (t ∷ [])
  hashed : t.hash ≡ sha256 token
  granted : t.caps ≡ set
  is_text : is_token_text token ≡ true

create_with-made :
    (w : World) (name caps token id : Bytes) (set : Caps) (raw raw_id : Option Bytes) (s s' : Store)
    → ((r : Bytes) → raw ≡ some r → AllBytes r)
    → caps_parse caps ≡ parsed set
    → create_with w name set (random_hex 16 raw) (random_hex 4 raw_id) s ≡ (s', made token id)
    → Makes name caps token id s s'
create_with-made w name caps token id set none raw_id s s' v p e = absurd (ground (arith, e))
create_with-made w name caps token id set (some raw) none s s' v p e =
    elim (Option-cases (random_hex 16 (some raw))) [
      | inl a ↦ absurd (ground (arith, a, e))
      | inr (hex, a) ↦ absurd (ground (arith, a, e))
    ]
create_with-made w name caps token id set (some raw) (some rid) s s' v p e =
    elim (Option-cases (random_hex 16 (some raw))) [
      | inl a ↦ absurd (ground (arith, a, e))
      | inr (hex, a) ↦ elim (Option-cases (random_hex 4 (some rid))) [
        | inl b ↦ absurd (ground (arith, a, b, e))
        | inr (i, b) ↦
            let text = prefix ++ hex in
            let t : Token = record {
              id = i;
              hash = sha256 text;
              name = name;
              caps = set;
              created = pos w.wall;
              last_used = pos 0;
            } in
            let path : create_with w name set (random_hex 16 (some raw)) (random_hex 4 (some rid)) s
                ≡ add_token w t text s =
              ap₂ (λ x y. create_with w name set x y s) a b in
            let q = added-made w t text token id s s' (sym (path ∙ add_token_lem w t text s) ∙ e) in
            record {
              set = set;
              t = t;
              was_parsed = p;
              added = q.1;
              hashed = ap sha256 q.0;
              granted = refl;
              is_text = ap is_token_text (sym q.0) ∙ is_token_text-made raw hex (v raw refl) a;
            }
      ]
    ]

create_parsed-made :
    (w : World) (name caps token id : Bytes) (p : Parsed) (raw raw_id : Option Bytes) (s s' : Store)
    → ((r : Bytes) → raw ≡ some r → AllBytes r)
    → caps_parse caps ≡ p
    → create_parsed w name p raw raw_id s ≡ (s', made token id)
    → Makes name caps token id s s'
create_parsed-made w name caps token id (bad_cap word) raw raw_id s s' v q e =
    absurd (ground (arith, e))
create_parsed-made w name caps token id (parsed set) raw raw_id s s' v q e =
    elim (Bool-cases (has_cap set)) [
      | inl a ↦
          let path : create_parsed w name (parsed set) raw raw_id s
              ≡ create_with w name set (random_hex 16 raw) (random_hex 4 raw_id) s =
            rw a refl in
          create_with-made w name caps token id set raw raw_id s s' v q (sym path ∙ e)
      | inr a ↦ absurd (ground (arith, a, e))
    ]

create-Makes :
    (w : World) (name caps token id : Bytes) (raw raw_id : Option Bytes) (s s' : Store)
    → ((r : Bytes) → raw ≡ some r → AllBytes r)
    → tokens_create w name caps raw raw_id s ≡ (s', made token id)
    → Makes name caps token id s s'
unfolding tokens_create
create-Makes w name caps token id raw raw_id s s' v e = elim (Bool-cases (name_ok name)) [
  | inl a ↦
      let path : tokens_create w name caps raw raw_id s
          ≡ create_parsed w name (caps_parse caps) raw raw_id s =
        rw a refl in
      create_parsed-made w name caps token id (caps_parse caps) raw raw_id s s' v refl
        (sym path ∙ e)
  | inr a ↦ absurd (ground (arith, a, e))
]

-- A token that `tokens_create` has made is live, and reaches exactly what the list of capabilities
-- it was made with holds, where no token of the table has its hash.
pub create_judged :
    (w later : World) (name caps token id : Bytes) (raw raw_id cap : Option Bytes) (s s' : Store)
    → ((r : Bytes) → raw ≡ some r → AllBytes r)
    → tokens_create w name caps raw raw_id s ≡ (s', made token id)
    → owner (sha256 token) s.tokens ≡ none
    → (set : Caps) × (caps_parse caps ≡ parsed set)
      × (judged later token cap s' ≡ (if holds_asked cap set then passes else live))
create_judged w later name caps token id raw raw_id cap s s' v e fresh =
    let m = create-Makes w name caps token id raw raw_id s s' v e in
    let h = sha256 token in
    let eq : ct_equal h m.t.hash ≡ true =
      (ct_equal_iff h m.t.hash (ap length (sym m.hashed))).1 (sym m.hashed) in
    let who : owner h s'.tokens ≡ some m.t =
      ap (owner h) m.added ∙ owner-append h s.tokens m.t fresh eq in
    (
      m.set,
      m.was_parsed,
      judged_lem later token cap s'
          ∙ ap (λ b. if b then judged_of cap (owner h s'.tokens) else no_token) m.is_text
          ∙ ap (judged_of cap) who
          ∙ ap (λ c. if holds_asked cap c then passes else live) m.granted,
    )
