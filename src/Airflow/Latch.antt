-- ===== src/Airflow/Latch.antt =====
-- On the latch of src/airflow.c over a run of ticks, and the decisions on a duty.
use forgectrl.Prelude.{
  ℕ, ◌+◌, ◌≤◌, ◌<◌, ◌≡◌, inl, inr, refl, ap, ◌∙◌, Bool, true, false, not, ◌&&◌, ◌||◌, List, [], ◌∷◌,
  Option, none, some, leb, ◌==◌, if◌then◌else◌, arith, Bool-cases,
}
use forgectrl.Airflow.Gate.{
  Air, tripped, Fan, Reading, reset, airflow_tick, ticks, airflow_run_duty, airflow_judged,
}

-- A reading that counts against the fan.
abbrev pub is_low : Reading → Bool
is_low r = not (r.floor == 0) && not r.in_grace && not (leb r.floor r.reading)

-- No reading has the gate off.
abbrev pub AllOn : List Reading → Type 0
AllOn [] = Unit
AllOn (r ∷ rs) = (0 < r.floor) × AllOn rs

-- Whether three readings in a row count somewhere, behind a run of `n`.
abbrev pub three_low : ℕ → List Reading → Bool
three_low n [] = false
three_low n (r ∷ rs) = let m = if is_low r then n + 1 else 0 in leb 3 m || three_low m rs

latched-tick :
    (r : Reading) (f : Fan) → 0 < r.floor → f.latched ≡ true → (airflow_tick r f).latched ≡ true
unfolding airflow_tick
latched-tick r f h e = ground arith

latched-ticks :
    (rs : List Reading) (f : Fan) → AllOn rs → f.latched ≡ true → (ticks rs f).latched ≡ true
unfolding ticks
latched-ticks [] f h e = e
latched-ticks (r ∷ rs) f (h, hs) e = latched-ticks rs (airflow_tick r f) hs (latched-tick r f h e)

one_tick :
    (r : Reading) (f : Fan)
    → 0 < r.floor
    → f.latched ≡ false
    → ((airflow_tick r f).under_ticks ≡ (if is_low r then f.under_ticks + 1 else 0))
      × ((airflow_tick r f).latched ≡ leb 3 (if is_low r then f.under_ticks + 1 else 0))
unfolding airflow_tick
one_tick r f h e = (ground arith, ground arith)

ticks_from :
    (rs : List Reading) (f : Fan)
    → AllOn rs
    → f.latched ≡ false
    → (ticks rs f).latched ≡ three_low f.under_ticks rs
unfolding ticks
ticks_from [] f h e = e
ticks_from (r ∷ rs) f (h, hs) e =
    let (p, q) = one_tick r f h e in
    let m = if is_low r then f.under_ticks + 1 else 0 in
    elim (Bool-cases (leb 3 m)) [
      | inl k ↦ rw k (latched-ticks rs (airflow_tick r f) hs (q ∙ k))
      | inr k ↦ rw k (ticks_from rs (airflow_tick r f) hs (q ∙ k) ∙ ap (λ n. three_low n rs) p)
    ]

abbrev pub is_tripped : Air → Bool
is_tripped tripped = true
is_tripped _ = false

state_tick :
    (r : Reading) (f : Fan)
    → 0 < r.floor
    → is_tripped (airflow_tick r f).state ≡ (airflow_tick r f).latched
unfolding airflow_tick
state_tick r f h = ground arith

state_ticks :
    (rs : List Reading) (f : Fan)
    → AllOn rs
    → is_tripped f.state ≡ f.latched
    → is_tripped (ticks rs f).state ≡ (ticks rs f).latched
unfolding ticks
state_ticks [] f h e = e
state_ticks (r ∷ rs) f (h, hs) e = state_ticks rs (airflow_tick r f) hs (state_tick r f h)

-- While the gate is on, a fan that was reset says after any readings that it is tripped exactly
-- when three in a row of them, outside of the spin-up window, were under the floor: it stays
-- tripped however good the later ones are.
pub ticks_trip : (rs : List Reading) → AllOn rs → is_tripped (ticks rs reset).state ≡ three_low 0 rs
ticks_trip rs h = state_ticks rs reset h refl ∙ ticks_from rs reset h refl

-- An armed job never runs a fan slower than the machine's own setting, and a fan of a run is left
-- unjudged only where no job is armed and the fan runs under the machine's own setting.
pub run_duty_judged :
    (here : ℕ) (job : Option ℕ) (armed : Bool)
    → (armed ≡ true → here ≤ airflow_run_duty here job armed)
      × (airflow_judged true armed (airflow_run_duty here job armed) here ≡ false
          → (armed ≡ false) × (airflow_run_duty here job armed < here))
unfolding airflow_run_duty airflow_judged
run_duty_judged here none armed = (λ e. ground arith, λ e. absurd (ground arith))
run_duty_judged here (some job) armed = (λ e. ground arith, λ e. ground arith)
