-- ===== src/Airflow/Gate.antt =====
-- `airflow_tick`, `airflow_reset` and the decisions on a duty in src/airflow.c. Readings and floors
-- are natural numbers of one scale; `floor <= 0.0` is a floor of 0.
use forgectrl.Prelude.{
  ℕ, ◌+◌, Bool, true, false, not, ◌&&◌, ◌||◌, List, [], ◌∷◌, Option, none, some, ltb, leb, ◌==◌,
  if◌then◌else◌,
}

-- `airflow_state_t`
pub data Air : Type 0 where
  off grace ok under tripped : Air

-- `airflow_fan_t`
pub record Fan : Type 0 where
  pub under_ticks : ℕ
  pub latched : Bool
  pub state : Air

-- AIRFLOW_DEBOUNCE_TICKS
abbrev pub debounce_ticks : ℕ
debounce_ticks = 3

-- One reading of the fan: the reading, its floor, and whether it is in the spin-up window.
pub record Reading : Type 0 where
  pub reading : ℕ
  pub floor : ℕ
  pub in_grace : Bool

-- `airflow_reset`
abbrev pub reset : Fan
reset = record { under_ticks = 0; latched = false; state = off }

-- `airflow_tick`
unfoldable pub airflow_tick : Reading → Fan → Fan
airflow_tick r f =
    if r.floor == 0
    then record { under_ticks = 0; latched = false; state = off }
    else if f.latched
    then record f { state = tripped }
    else if r.in_grace
    then record f { under_ticks = 0; state = grace }
    else if leb r.floor r.reading
    then record f { under_ticks = 0; state = ok }
    else (let n = f.under_ticks + 1 in
        if leb debounce_ticks n
        then record { under_ticks = n; latched = true; state = tripped }
        else record f { under_ticks = n; state = under })

-- The ticks one behind the other, the first one first.
unfoldable pub ticks : List Reading → Fan → Fan
ticks [] f = f
ticks (r ∷ rs) f = ticks rs (airflow_tick r f)

-- `airflow_run_duty`, where a job that asks for no duty is `none` for its negative number
unfoldable pub airflow_run_duty : ℕ → Option ℕ → Bool → ℕ
airflow_run_duty here none armed = here
airflow_run_duty here (some job) armed = if armed && ltb job here then here else job

-- `airflow_judged`
unfoldable pub airflow_judged : Bool → Bool → ℕ → ℕ → Bool
airflow_judged run armed duty here = if not run then false else armed || leb here duty
