-- ===== src/Super/Api.antt =====
-- The calls of src/super.c that wait: `super_controller_stop` and `wait_for`.
use forgectrl.Prelude.{
  ℕ, ◌+◌, Bool, true, false, not, ◌&&◌, List, [], ◌∷◌, ltb, ◌==◌, if◌then◌else◌,
}
use forgectrl.Super.State.{Super}
use forgectrl.Super.Sections.{Other, other, others, stop_request, stop_gave_up}

-- `pred_child_gone`
abbrev pub child_gone : Super → Bool
child_gone s = s.child == 0 && not s.probing

-- One round of `wait_for`: the clock, and what other threads do while it sleeps.
pub record Look : Type 0 where
  pub now : ℕ
  pub asleep : List Other

-- `wait_for(pred_child_gone, ...)`, over the rounds that it makes; one that has not ended has not
-- seen its predicate.
unfoldable pub wait_for : ℕ → List Look → Super → Super × Bool
unfolding others
wait_for deadline [] s = (s, child_gone s)
wait_for deadline (l ∷ ls) s =
    let rest = wait_for deadline ls (others l.asleep s) in
    if child_gone s then (s, true) else if ltb deadline l.now then (s, false) else rest

-- `super_controller_stop`, with the time at which it starts to wait; `true` is its 0.
unfoldable pub controller_stop : ℕ → List Look → Super → Super × Bool
unfolding other wait_for
controller_stop at ls s =
    let (t, done) = wait_for (at + 15000) ls (other stop_request s) in
    if done then (t, true) else (other stop_gave_up t, false)
