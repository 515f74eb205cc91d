-- ===== src/Session/Making.antt =====
-- On `session_create` and `session_end` of src/session.c, followed by `session_valid`.
use forgectrl.Prelude.{
  ℕ, zero, suc, ◌+◌, ◌≤◌, ◌<◌, ◌≡◌, ◌≢◌, ◌↔◌, refl, sym, subst, ap, ◌∙◌, true, false, inl, inr, [],
  ◌∷◌, Option, none, some, Bytes, length, set, take, ltb, arith, Bool-cases,
}
use forgectrl.Sha256.Compare.{ct_equal, ct_equal_iff}
use forgectrl.Session.State.{
  Session, Sessions, Table, Saving, save, id_well_formed, is_idle, expire, unopened, unwritten,
  written,
}
use forgectrl.Session.Store.{pick, session_create, session_valid, is_ended, drop_ended, session_end}
use forgectrl.Session.Validity.{Fresh, Holds, AllFormed, session_valid_iff, length-well_formed}

-- Where the scan for a slot stands.
abbrev Standing : ℕ → Option (ℕ × Session) → Table → Type 0
Standing i none es = 0 < length es
Standing i (some (k, o)) es = k < i

pick_lt :
    (i : ℕ) (oldest : Option (ℕ × Session)) (es : Table)
    → Standing i oldest es
    → pick i oldest es < i + length es
unfolding pick
pick_lt i none [] h = absurd (omega arith)
pick_lt i (some (k, o)) [] h = omega arith
pick_lt i none (none ∷ es) h = omega arith
pick_lt i (some (k, o)) (none ∷ es) h = omega arith
pick_lt i none (some e ∷ es) h = omega (arith, pick_lt (suc i) (some (i, e)) es (omega arith))
pick_lt i (some (k, o)) (some e ∷ es) h = elim (Bool-cases (ltb e.seen o.seen)) [
  | inl c ↦ rw c (omega (arith, pick_lt (suc i) (some (i, e)) es (omega arith)))
  | inr c ↦ rw c (omega (arith, pick_lt (suc i) (some (k, o)) es (omega arith)))
]

length-expire : (t : ℕ) (es : Table) → length (expire t es) ≡ length es
unfolding expire
length-expire t [] = refl
length-expire t (e ∷ es) = ap suc (length-expire t es)

Holds-set :
    (t : ℕ) (id : Bytes) (es : Table) (k : ℕ) (e : Session)
    → k < length es
    → Fresh t id e
    → Holds t id (set es k (some e))
Holds-set t id [] k e h f = absurd (omega arith)
Holds-set t id (none ∷ es) zero e h f = inl f
Holds-set t id (some x ∷ es) zero e h f = inl f
Holds-set t id (none ∷ es) (suc k) e h f = Holds-set t id es k e (omega arith) f
Holds-set t id (some x ∷ es) (suc k) e h f = inr (Holds-set t id es k e (omega arith) f)

AllFormed-set :
    (es : Table) (k : ℕ) (e : Session)
    → AllFormed es
    → length e.id ≡ 64
    → AllFormed (set es k (some e))
AllFormed-set [] k e v l = v
AllFormed-set (none ∷ es) zero e v l = (l, v)
AllFormed-set (some x ∷ es) zero e v l = (l, v.1)
AllFormed-set (none ∷ es) (suc k) e v l = AllFormed-set es k e v l
AllFormed-set (some x ∷ es) (suc k) e v l = (v.0, AllFormed-set es k e v.1 l)

AllFormed-expire : (t : ℕ) (es : Table) → AllFormed es → AllFormed (expire t es)
unfolding expire
AllFormed-expire t [] v = v
AllFormed-expire t (none ∷ es) v = AllFormed-expire t es v
AllFormed-expire t (some e ∷ es) v = elim (Bool-cases (is_idle t e)) [
  | inl i ↦ rw i (AllFormed-expire t es v.1)
  | inr i ↦ rw i (v.0, AllFormed-expire t es v.1)
]

table-save : (t : ℕ) (w : Saving) (s : Sessions) → (save t w s).table ≡ s.table
unfolding save
table-save t unopened s = elim (Bool-cases s.has_store) [ inl e ↦ rw e refl | inr e ↦ rw e refl ]
table-save t unwritten s = elim (Bool-cases s.has_store) [ inl e ↦ rw e refl | inr e ↦ rw e refl ]
table-save t written s = elim (Bool-cases s.has_store) [ inl e ↦ rw e refl | inr e ↦ rw e refl ]

-- A session that is made with a well-formed id, in a table that has slots, is valid for twelve
-- hours from then on, also where the table was full, and the ids of the table keep their form.
pub session_create_valid :
    (t later : ℕ) (w w' : Saving) (id name : Bytes) (len : ℕ) (s : Sessions)
    → AllFormed s.table
    → 0 < length s.table
    → id_well_formed id ≡ true
    → 65 ≤ len
    → later ≤ t + 43200
    → (session_valid later w' id (session_create t w (some id) name len s).0).1 ≡ true
unfolding session_create
session_create_valid t later w w' id name len s v n f l h =
    let es = expire t s.table in
    let k = pick 0 none es in
    let e : Session = record { id = id; name = take 39 name; created = t; seen = t } in
    let q : ltb len 65 ≡ false = ground arith in
    let s' = save t w (record s { table = set es k (some e) }) in
    let r = table-save t w (record s { table = set es k (some e) }) in
    let k_lt : k < length es =
      omega (arith, pick_lt 0 none es (omega (arith, length-expire t s.table))) in
    let formed : AllFormed s'.table =
      rw r (AllFormed-set es k e (AllFormed-expire t s.table v) (length-well_formed id f)) in
    let holds : Holds later id s'.table = rw r (Holds-set later id es k e k_lt (refl, h)) in
    rw q ((session_valid_iff later w' id s' formed).1 (f, holds))

AllFormed-drop : (id : Option Bytes) (es : Table) → AllFormed es → AllFormed (drop_ended id es)
unfolding drop_ended
AllFormed-drop id [] v = v
AllFormed-drop id (none ∷ es) v = AllFormed-drop id es v
AllFormed-drop id (some e ∷ es) v = elim (Bool-cases (is_ended id e)) [
  | inl i ↦ rw i (AllFormed-drop id es v.1)
  | inr i ↦ rw i (v.0, AllFormed-drop id es v.1)
]

-- What is left behind the end of an id.
Holds-drop :
    (t : ℕ) (id other : Bytes) (es : Table)
    → AllFormed es
    → id_well_formed id ≡ true
    → Holds t other (drop_ended (some id) es) ↔ ((other ≢ id) × Holds t other es)
unfolding drop_ended
Holds-drop t id other [] v f = (λ h. absurd h, λ h. absurd h.1)
Holds-drop t id other (none ∷ es) v f = Holds-drop t id other es v f
Holds-drop t id other (some e ∷ es) v f =
    let (p, q) = Holds-drop t id other es v.1 f in
    let (r, s) = ct_equal_iff e.id id (v.0 ∙ sym (length-well_formed id f)) in
    elim (Bool-cases (ct_equal e.id id)) [
      | inl c ↦
          rw (f, c)
            (
              λ h. ((p h).0, inr (p h).1),
              λ h. elim (h.1) [ inl k ↦ absurd (h.0 (sym k.0 ∙ r c)) | inr k ↦ q (h.0, k) ],
            )
      | inr c ↦
          rw (f, c)
            (
              λ h. elim h [
                | inl k ↦ (λ o. absurd (let d = s (k.0 ∙ o) in ground arith), inl k)
                | inr k ↦ ((p k).0, inr (p k).1)
              ],
              λ h. elim (h.1) [ inl k ↦ inl k | inr k ↦ inr (q (h.0, k)) ],
            )
    ]

-- Behind `session_end` of a well-formed id, that id is never valid, and any other id is valid
-- exactly when it was.
pub session_end_valid :
    (t ended : ℕ) (w w' w'' : Saving) (id other : Bytes) (s : Sessions)
    → AllFormed s.table
    → id_well_formed id ≡ true
    → ((session_valid t w' other (session_end ended w (some id) s)).1 ≡ true)
      ↔ ((other ≢ id) × ((session_valid t w'' other s).1 ≡ true))
unfolding session_end
session_end_valid t ended w w' w'' id other s v f =
    let d = record s { table = drop_ended (some id) s.table } in
    let r = table-save ended w d in
    let s' = save ended w d in
    let formed : AllFormed s'.table = rw r (AllFormed-drop (some id) s.table v) in
    let (p, q) = session_valid_iff t w' other s' formed in
    let (p', q') = session_valid_iff t w'' other s v in
    let (a, b) = Holds-drop t id other s.table v f in
    (
      λ h. let (x, y) = p h in let y' = subst (Holds t other) r y in ((a y').0, q' (x, (a y').1)),
      λ h. let (x, y) = p' h.1 in q (x, subst (Holds t other) (sym r) (b (h.0, y))),
    )
