-- ===== src/Button/Edge.antt =====
-- On what a press is for the wait of src/button.c.
use forgectrl.Prelude.{
  ℕ, ◌-◌, ◌<◌, ◌≡◌, refl, ap, inl, inr, Bool, true, false, ◌&&◌, ◌||◌, List, [], ◌∷◌, ◌++◌, some,
  leb, arith, Bool-cases,
}
use forgectrl.Button.Wait.{Read, is_up, is_down, pressed, Round, wait_from, wait_thread}

-- A reading of a released button in some round.
unfoldable pub saw_up : List Round → Bool
saw_up [] = false
saw_up (r ∷ rs) = is_up r.read || saw_up rs

-- A round that makes a press of what the rounds in front of it have seen.
pub record IsPress (t0 timeout_s : ℕ) (released : Bool) (rounds : List Round) : Type 0 where
  pub before : List Round
  pub at : Round
  pub after : List Round
  pub split : rounds ≡ before ++ (at ∷ after)
  pub was_up : (released || saw_up before) ≡ true
  pub is_held : is_down at.read ≡ true
  pub still_held : is_down at.again ≡ true
  pub in_time : at.now - t0 < timeout_s
  pub not_cancelled : at.cancel ≡ false

later-IsPress :
    (t0 timeout_s : ℕ) (released : Bool) (r : Round) (rs : List Round)
    → IsPress t0 timeout_s (released || is_up r.read) rs
    → IsPress t0 timeout_s released (r ∷ rs)
later-IsPress t0 timeout_s released r rs v = record {
  before = r ∷ v.before;
  at = v.at;
  after = v.after;
  split = ap (λ x. r ∷ x) v.split;
  was_up = let h = v.was_up in unfold saw_up in ground (arith, h);
  is_held = v.is_held;
  still_held = v.still_held;
  in_time = v.in_time;
  not_cancelled = v.not_cancelled;
}

wait_from-IsPress :
    (t0 timeout_s : ℕ) (released : Bool) (rs : List Round)
    → wait_from t0 timeout_s released rs ≡ some pressed
    → IsPress t0 timeout_s released rs
unfolding wait_from
wait_from-IsPress t0 timeout_s released [] e = absurd (ground (arith, e))
wait_from-IsPress t0 timeout_s released (r ∷ rs) e = elim (Bool-cases r.cancel) [
  | inl a ↦ absurd (ground (arith, a, e))
  | inr a ↦ elim (Bool-cases (leb timeout_s (r.now - t0))) [
    | inl b ↦ absurd (ground (arith, a, b, e))
    | inr b ↦ elim (Bool-cases (is_down r.read && released && is_down r.again)) [
      | inl c ↦ record {
        before = [];
        at = r;
        after = rs;
        split = refl;
        was_up = unfold saw_up in ground (arith, c);
        is_held = ground (arith, c);
        still_held = ground (arith, c);
        in_time = ground (arith, b);
        not_cancelled = a;
      }
      | inr c ↦ later-IsPress t0 timeout_s released r rs (
          wait_from-IsPress t0 timeout_s (released || is_up r.read) rs (ground (arith, a, b, c, e)))
    ]
  ]
]

-- A wait that ends as pressed has read the button released, at its start or in some round, and in
-- a later round that is in time and not cancelled has read it held, twice: a button that is held
-- from the start on is no press.
pub wait_thread-IsPress :
    (t0 timeout_s : ℕ) (first : Read) (rounds : List Round)
    → wait_thread t0 timeout_s first rounds ≡ some pressed
    → IsPress t0 timeout_s (is_up first) rounds
wait_thread-IsPress t0 timeout_s first rounds e =
    wait_from-IsPress t0 timeout_s (is_up first) rounds e
