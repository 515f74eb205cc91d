-- ===== src/Lease/Tests.antt =====
-- The lease on concrete owners, and the theorems at them.
use forgectrl.Prelude.{
  ◌≡◌, List, ◌↔◌, ◌⊎◌, refl, true, false, [], ◌∷◌, none, some, Bytes, codes, arith,
}
use forgectrl.Lease.{
  Held, Op, hardware, sender, take, take_op, release_op, run, refusal_for, holds_any, words,
  usable_name, held_by,
}
use forgectrl.Lease.Laws.{IsValid, take_state, refusal_for_iff, run-outermost, outermost}

abbrev wizard : Bytes
wizard = codes "wizard:motion"

abbrev diag : Bytes
diag = codes "diag:flow-verify"

abbrev one : Held
one = record { owner = wizard; kind = hardware; since = 5 } ∷ []

abbrev script : List Op
script =
    take_op (some diag) hardware (some wizard) none 6
    ∷ take_op (some (codes "job:panel")) sender none (some false) 7
    ∷ release_op (some diag)
    ∷ []

words_example : words diag ≡ codes "a diagnostic (flow-verify)"
unfolding words
words_example = refl

script_runs : run script one ≡ one
unfolding run
script_runs = refl

take_refused :
    (take (some diag) hardware none none 6 one).1 ≡ some (held_by (codes "a setup wizard (motion)"))
unfolding take words
take_refused = refl

take_state_example :
    (take (some diag) hardware (some wizard) none 6 one).0
    ≡ record { owner = diag; kind = hardware; since = 6 } ∷ one
unfolding take
take_state_example = take_state (some diag) (some wizard) hardware none 6 one

refusal_for_iff_example :
    (refusal_for (some wizard) one ≡ none) ↔ ((one ≡ []) ⊎ (holds_any (some wizard) one ≡ true))
refusal_for_iff_example = refusal_for_iff (some wizard) one

one-IsValid : IsValid one
unfolding usable_name
one-IsValid = record { depth = omega arith; usable = (refl, tt) }

run-outermost_example : outermost (run script one) ≡ some wizard
run-outermost_example = run-outermost wizard script one (refl, tt) refl
