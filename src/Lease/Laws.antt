-- ===== src/Lease/Laws.antt =====
-- On taking, giving back and refusing in src/lease.c.
use forgectrl.Prelude.{
  ℕ, ◌≤◌, ◌≡◌, ◌↔◌, ◌⊎◌, Bool, true, false, ◌&&◌, List, [], ◌∷◌, Option, none, some, Bytes, same,
  same_refl, length, arith,
}
use forgectrl.Lease.{
  Kind, Held, Refusal, is_sender, usable_name, take, take_locked, release, refusal_for,
  refusal_locks, refusal_locks_for, holds_any, hook, name_of, Op, take_op, release_op, step, run,
  max_depth, runs_under,
}

-- Whom the lease lets in: anybody while the machine is nobody's, and at one level an owner that
-- names the holder.
abbrev pub Admits : Held → Option Bytes → Type 0
Admits [] under = under ≡ none
Admits (h ∷ []) under = runs_under under h ≡ true
Admits (h ∷ g ∷ rest) under = ⊥

module _ (owner under : Option Bytes) (kind : Kind) (connected : Option Bool) (now : ℕ)
    (held : Held) where
  abbrev call : Held × Option Refusal
  call = take owner kind under connected now held

  -- `lease_take` grants a hold exactly when the name is usable, the machine is nobody's or its one
  -- holder is the owner named by `under`, and no Grbl client is in the way of a sender hold.
  pub take_iff :
      (call.1 ≡ none)
      ↔ (usable_name owner ≡ true)
        × Admits held under
        × ((is_sender kind && hook connected) ≡ false)
  unfolding take take_locked
  take_iff = (λ e. ground arith, λ h. ground arith)

  -- A grant puts the caller's hold on top; a refusal changes nothing.
  pub take_state : call.0 ≡ elim (call.1) [
    | none ↦ record { owner = name_of owner; kind = kind; since = now } ∷ held
    | some r ↦ held
  ]
  unfolding take take_locked
  take_state = ground arith

  -- What has been taken is given back by its owner's release, and the holds below stand as before.
  pub release-take : call.1 ≡ none → release owner call.0 ≡ held
  unfolding take take_locked release
  release-take e = ground (arith, same_refl (name_of owner))

-- An owner that holds the machine at any level is never refused by the route's question that names
-- it; anybody else is, whenever there is a holder.
pub refusal_for_iff :
    (as_owner : Option Bytes) (held : Held)
    → (refusal_for as_owner held ≡ none) ↔ ((held ≡ []) ⊎ (holds_any as_owner held ≡ true))
unfolding refusal_for
refusal_for_iff as_owner held = (λ e. ground arith, λ h. ground arith)

-- The routes that a lock refuses are among those that a holder refuses, and an owner that holds the
-- machine passes both: what `lease_refusal_locks_for` refuses the two it is made of refuse as well.
pub refusal_locks_for_iff :
    (as_owner : Option Bytes) (held : Held)
    → (refusal_locks_for as_owner held ≡ none)
      ↔ ((refusal_locks held ≡ none) ⊎ (refusal_for as_owner held ≡ none))
unfolding refusal_locks_for refusal_locks refusal_for
refusal_locks_for_iff as_owner [] = (λ e. ground arith, λ h. ground arith)
refusal_locks_for_iff as_owner (h ∷ rest) = (λ e. ground arith, λ h. ground arith)

-- Every hold has a usable name, there are at most DEPTH, and an inner one never stands alone.
abbrev pub AllUsable : Held → Type 0
AllUsable [] = Unit
AllUsable (h ∷ rest) = (usable_name (some h.owner) ≡ true) × AllUsable rest

pub record IsValid (held : Held) : Type 0 where
  pub depth : length held ≤ max_depth
  pub usable : AllUsable held

step-IsValid : (o : Op) (held : Held) → IsValid held → IsValid (step o held)
unfolding step usable_name
step-IsValid (take_op owner kind under connected now) held v = ground arith
step-IsValid (release_op owner) held v = ground arith

-- Whatever calls are made, in whatever order, the lease has at most two levels and every owner in
-- it can go into the status document as it is.
pub run-IsValid : (ops : List Op) (held : Held) → IsValid held → IsValid (run ops held)
unfolding run
run-IsValid [] held v = v
run-IsValid (o ∷ ops) held v = run-IsValid ops (step o held) (step-IsValid o held v)

-- The outermost owner.
abbrev pub outermost : Held → Option Bytes
outermost [] = none
outermost (h ∷ []) = some h.owner
outermost (h ∷ g ∷ rest) = outermost (g ∷ rest)

-- No call among `ops` is a release by `o`.
abbrev pub NeverReleases : Bytes → List Op → Type 0
NeverReleases o [] = Unit
NeverReleases o (release_op (some p) ∷ ops) = (same o p ≡ false) × NeverReleases o ops
NeverReleases o (_ ∷ ops) = NeverReleases o ops

step-outermost :
    (a : Bytes) (o : Op) (held : Held)
    → NeverReleases a (o ∷ [])
    → outermost held ≡ some a
    → outermost (step o held) ≡ some a
unfolding step take take_locked release
step-outermost a (take_op owner kind under connected now) [] q h = ground arith
step-outermost a (take_op owner kind under connected now) (x ∷ []) q h = ground arith
step-outermost a (take_op owner kind under connected now) (x ∷ y ∷ r) q h = ground arith
step-outermost a (release_op none) held q h = h
step-outermost a (release_op (some p)) [] q h = h
step-outermost a (release_op (some p)) (x ∷ []) q h = ground arith
step-outermost a (release_op (some p)) (x ∷ y ∷ r) q h = ground arith

-- A hold is exclusive: once `a` is the outermost holder it stays so through any calls by anyone, in
-- any order, among which there is no release by `a`.
pub run-outermost :
    (a : Bytes) (ops : List Op) (held : Held)
    → NeverReleases a ops
    → outermost held ≡ some a
    → outermost (run ops held) ≡ some a
unfolding run
run-outermost a [] held q h = h
run-outermost a (take_op owner kind under connected now ∷ ops) held q h =
    let o = take_op owner kind under connected now in
    run-outermost a ops (step o held) q (step-outermost a o held tt h)
run-outermost a (release_op none ∷ ops) held q h =
    run-outermost a ops (step (release_op none) held) q
      (step-outermost a (release_op none) held tt h)
run-outermost a (release_op (some p) ∷ ops) held q h =
    run-outermost a ops (step (release_op (some p)) held) q.1
      (step-outermost a (release_op (some p)) held (q.0, tt) h)
