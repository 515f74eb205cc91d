-- ===== src/Session/Validity.antt =====
-- On `session_valid` of src/session.c and the sessions in the table.
use forgectrl.Prelude.{
  ℕ, ◌+◌, ◌≤◌, ◌≡◌, ◌↔◌, ◌⊎◌, refl, sym, ◌∙◌, true, inl, inr, [], ◌∷◌, none, some, Bytes, length,
  arith, Bool-cases,
}
use forgectrl.Sha256.Compare.{ct_equal, ct_equal_iff}
use forgectrl.Session.State.{
  Session, Sessions, Table, Saving, id_well_formed, is_idle, expire, idle_seconds, id_hex,
}
use forgectrl.Session.Store.{matches, session_valid}

-- A session with the id that was seen within the twelve hours.
abbrev pub Fresh : ℕ → Bytes → Session → Type 0
Fresh t id e = (e.id ≡ id) × (t ≤ e.seen + idle_seconds)

abbrev pub Holds : ℕ → Bytes → Table → Type 0
Holds t id [] = ⊥
Holds t id (none ∷ es) = Holds t id es
Holds t id (some e ∷ es) = Fresh t id e ⊎ Holds t id es

-- Every id in the table has the length of an id.
abbrev pub AllFormed : Table → Type 0
AllFormed [] = Unit
AllFormed (none ∷ es) = AllFormed es
AllFormed (some e ∷ es) = (length e.id ≡ id_hex) × AllFormed es

pub length-well_formed : (id : Bytes) → id_well_formed id ≡ true → length id ≡ 64
unfolding id_well_formed
length-well_formed id h = ground arith

pub matches-Holds :
    (t : ℕ) (id : Bytes) (es : Table)
    → AllFormed es
    → length id ≡ 64
    → (matches id (expire t es) ≡ true) ↔ Holds t id es
unfolding matches expire
matches-Holds t id [] v l = (λ h. absurd (ground arith), λ h. absurd h)
matches-Holds t id (none ∷ es) v l = matches-Holds t id es v l
matches-Holds t id (some e ∷ es) v l =
    let (p, q) = matches-Holds t id es v.1 l in
    let (r, s) = ct_equal_iff e.id id (v.0 ∙ sym l) in
    elim (Bool-cases (is_idle t e)) [
      | inl i ↦ rw i (λ h. inr (p h), λ h. elim h [ inl f ↦ absurd (ground arith) | inr k ↦ q k ])
      | inr i ↦ elim (Bool-cases (ct_equal e.id id)) [
        | inl c ↦ rw (i, c) (λ h. inl (r c, ground arith), λ h. refl)
        | inr c ↦
            rw (i, c)
              (
                λ h. inr (p h),
                λ h. elim h [ inl f ↦ absurd (let d = s f.0 in ground arith) | inr k ↦ q k ],
              )
      ]
    ]

-- `session_valid` accepts an id exactly when it is well formed and is the id of a session in the
-- table that was seen at most twelve hours ago, where the ids of the table have their 64
-- characters.
pub session_valid_iff :
    (t : ℕ) (w : Saving) (id : Bytes) (s : Sessions)
    → AllFormed s.table
    → ((session_valid t w id s).1 ≡ true) ↔ ((id_well_formed id ≡ true) × Holds t id s.table)
unfolding session_valid
session_valid_iff t w id s v = elim (Bool-cases (id_well_formed id)) [
  | inl e ↦
      let (p, q) = matches-Holds t id s.table v (length-well_formed id e) in
      rw e (λ h. (refl, p h), λ h. q h.1)
  | inr e ↦ rw e (λ h. absurd (ground arith), λ h. absurd (let k = h.0 in ground arith))
]
