-- ===== src/Session/Stamps.antt =====
-- On the sessions of src/session.c and the times of last use that their file has.
use forgectrl.Prelude.{
  ℕ, zero, suc, ◌+◌, ◌≤◌, ◌<◌, ◌≡◌, ◌⊎◌, refl, ap, true, false, inl, inr, List, [], ◌∷◌, Option,
  none, some, Bytes, length, set, arith, Bool-cases,
}
use forgectrl.Sha256.Compare.{ct_equal}
use forgectrl.Session.State.{Session, Table, id_well_formed, is_idle, expire, expires, live}
use forgectrl.Session.Store.{touch, matches, is_ended, drop_ended}

-- A session as the table has it at a time.
pub record IsSession (n : ℕ) (e : Session) : Type 0 where
  pub formed : id_well_formed e.id ≡ true
  pub past : e.seen ≤ n

abbrev pub AllSessions : ℕ → Table → Type 0
AllSessions n [] = Unit
AllSessions n (none ∷ es) = AllSessions n es
AllSessions n (some e ∷ es) = IsSession n e × AllSessions n es

-- The file's line of a session: of the same id, and as old as its last use, or older where that
-- fell in the five minutes behind the writing of the file, at `w`.
pub record Lag (w : ℕ) (o e : Session) : Type 0 where
  pub same_id : o.id ≡ e.id
  pub older : o.seen ≤ e.seen
  pub lag : (o.seen ≡ e.seen) ⊎ (e.seen < w + 300)

abbrev pub Behind : ℕ → List Session → List Session → Type 0
Behind w [] [] = Unit
Behind w [] (e ∷ es) = ⊥
Behind w (o ∷ os) [] = ⊥
Behind w (o ∷ os) (e ∷ es) = Lag w o e × Behind w os es

pub Behind-refl : (w : ℕ) (es : List Session) → Behind w es es
Behind-refl w [] = tt
Behind-refl w (e ∷ es) =
    (record { same_id = refl; older = omega arith; lag = inl refl }, Behind-refl w es)

pub AllSessions-later : (n m : ℕ) (es : Table) → n ≤ m → AllSessions n es → AllSessions m es
AllSessions-later n m [] h v = tt
AllSessions-later n m (none ∷ es) h v = AllSessions-later n m es h v
AllSessions-later n m (some e ∷ es) h v =
    let p = v.0.past in
    (record { formed = v.0.formed; past = omega arith }, AllSessions-later n m es h v.1)

pub AllSessions-expire : (n t : ℕ) (es : Table) → AllSessions n es → AllSessions n (expire t es)
unfolding expire
AllSessions-expire n t [] v = tt
AllSessions-expire n t (none ∷ es) v = AllSessions-expire n t es v
AllSessions-expire n t (some e ∷ es) v = elim (Bool-cases (is_idle t e)) [
  | inl i ↦ rw i (AllSessions-expire n t es v.1)
  | inr i ↦ rw i (v.0, AllSessions-expire n t es v.1)
]

pub AllSessions-set :
    (n i : ℕ) (e : Session) (es : Table)
    → IsSession n e
    → AllSessions n es
    → AllSessions n (set es i (some e))
AllSessions-set n i e [] h v = tt
AllSessions-set n zero e (none ∷ es) h v = (h, v)
AllSessions-set n zero e (some o ∷ es) h v = (h, v.1)
AllSessions-set n (suc i) e (none ∷ es) h v = AllSessions-set n i e es h v
AllSessions-set n (suc i) e (some o ∷ es) h v = (v.0, AllSessions-set n i e es h v.1)

pub AllSessions-touch :
    (n : ℕ) (id : Bytes) (es : Table) → AllSessions n es → AllSessions n (touch n id es)
unfolding touch
AllSessions-touch n id [] v = tt
AllSessions-touch n id (none ∷ es) v = AllSessions-touch n id es v
AllSessions-touch n id (some e ∷ es) v = elim (Bool-cases (ct_equal e.id id)) [
  | inl k ↦ rw k (record { formed = v.0.formed; past = omega arith }, AllSessions-touch n id es v.1)
  | inr k ↦ rw k (v.0, AllSessions-touch n id es v.1)
]

pub AllSessions-drop_ended :
    (n : ℕ) (id : Option Bytes) (es : Table) → AllSessions n es → AllSessions n (drop_ended id es)
unfolding drop_ended
AllSessions-drop_ended n id [] v = tt
AllSessions-drop_ended n id (none ∷ es) v = AllSessions-drop_ended n id es v
AllSessions-drop_ended n id (some e ∷ es) v = elim (Bool-cases (is_ended id e)) [
  | inl k ↦ rw k (AllSessions-drop_ended n id es v.1)
  | inr k ↦ rw k (v.0, AllSessions-drop_ended n id es v.1)
]

pub length-expire : (t : ℕ) (es : Table) → length (expire t es) ≡ length es
unfolding expire
length-expire t [] = refl
length-expire t (e ∷ es) = ap suc (length-expire t es)

pub length-touch : (t : ℕ) (id : Bytes) (es : Table) → length (touch t id es) ≡ length es
unfolding touch
length-touch t id [] = refl
length-touch t id (none ∷ es) = ap suc (length-touch t id es)
length-touch t id (some e ∷ es) = ap suc (length-touch t id es)

pub length-drop_ended : (id : Option Bytes) (es : Table) → length (drop_ended id es) ≡ length es
unfolding drop_ended
length-drop_ended id [] = refl
length-drop_ended id (none ∷ es) = ap suc (length-drop_ended id es)
length-drop_ended id (some e ∷ es) = ap suc (length-drop_ended id es)

pub expire_none : (t : ℕ) (es : Table) → expires t es ≡ false → expire t es ≡ es
unfolding expire expires
expire_none t [] h = refl
expire_none t (none ∷ es) h = ap (λ r. none ∷ r) (expire_none t es h)
expire_none t (some e ∷ es) h =
    let i : is_idle t e ≡ false = ground arith in
    let r : expires t es ≡ false = ground (arith, i) in
    rw i (ap (λ r. some e ∷ r) (expire_none t es r))

pub touch_none : (t : ℕ) (id : Bytes) (es : Table) → matches id es ≡ false → touch t id es ≡ es
unfolding touch matches
touch_none t id [] h = refl
touch_none t id (none ∷ es) h = ap (λ r. none ∷ r) (touch_none t id es h)
touch_none t id (some e ∷ es) h =
    let i : ct_equal e.id id ≡ false = ground arith in
    let r : matches id es ≡ false = ground (arith, i) in
    rw i (ap (λ r. some e ∷ r) (touch_none t id es r))

pub Behind-touch :
    (w t : ℕ) (id : Bytes) (os : List Session) (es : Table)
    → AllSessions t es
    → t < w + 300
    → Behind w os (live es)
    → Behind w os (live (touch t id es))
unfolding touch live
Behind-touch w t id os [] v l b = b
Behind-touch w t id os (none ∷ es) v l b = Behind-touch w t id os es v l b
Behind-touch w t id [] (some e ∷ es) v l b = absurd b
Behind-touch w t id (o ∷ os) (some e ∷ es) v l b =
    let rest = Behind-touch w t id os es v.1 l b.1 in
    let past = v.0.past in
    let old = b.0.older in
    elim (Bool-cases (ct_equal e.id id)) [
      | inl k ↦ rw k (record { same_id = b.0.same_id; older = omega arith; lag = inr l }, rest)
      | inr k ↦ rw k (b.0, rest)
    ]
