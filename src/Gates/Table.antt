-- ===== src/Gates/Table.antt =====
-- The table and the decisions of src/gates.c. Every number is ten million times the code's, so that
-- its fractions, and the heat of the tube that is compared with them elsewhere, are natural.
use forgectrl.Prelude.{
  ℕ, ◌+◌, ◌*◌, Bool, true, false, not, ◌&&◌, ◌||◌, List, [], ◌∷◌, Option, none, some, Bytes, codes,
  same, ltb, leb, if◌then◌else◌,
}

abbrev pub unit : ℕ
unit = 10000000

-- `gate_state_t`
pub data GateState : Type 0 where
  gate_ok gate_warn gate_off : GateState

-- `off_end`: -1, 1 and 0.
pub data OffEnd : Type 0 where
  low_end high_end no_end : OffEnd

-- `gate_setting_t`
pub record GateSetting : Type 0 where
  pub key : Bytes
  pub gate : Option Bytes
  pub def : ℕ
  pub lo : ℕ
  pub hi : ℕ
  pub band_lo : ℕ
  pub band_hi : ℕ
  pub off_end : OffEnd

-- A row of tenths.
abbrev row : Bytes → Option Bytes → ℕ → ℕ → ℕ → ℕ → ℕ → OffEnd → GateSetting
row key gate def lo hi band_lo band_hi off_end = record {
  key = key;
  gate = gate;
  def = def * 1000000;
  lo = lo * 1000000;
  hi = hi * 1000000;
  band_lo = band_lo * 1000000;
  band_hi = band_hi * 1000000;
  off_end = off_end;
}

abbrev pub coolant_max : GateSetting
coolant_max = row (codes "cool_temp_max") (some (codes "coolant_max")) 330 50 600 250 380 high_end

abbrev pub coolant_critical : GateSetting
coolant_critical =
    row (codes "cool_temp_critical_c") (some (codes "coolant_critical")) 380 60 700 360 450 high_end

abbrev pub coolant_min : GateSetting
coolant_min = row (codes "cool_temp_min") (some (codes "coolant_min")) 50 0 400 30 80 low_end

abbrev pub warm_up : GateSetting
warm_up = row (codes "cool_temp_start") (some (codes "warm_up")) 160 0 400 120 200 low_end

-- `table`
abbrev pub table : List GateSetting
table =
    coolant_max
    ∷ row (codes "cool_temp_resume") none 310 50 590 200 360 no_end
    ∷ coolant_critical
    ∷ coolant_min
    ∷ warm_up
    ∷ row (codes "cool_tec_on_c") none 200 60 320 180 240 no_end
    ∷ row (codes "cool_tec_off_c") none 180 50 310 160 220 no_end
    ∷ row (codes "cool_fire_q1_alert") (some (codes "flame_q1_alert")) 2750 0 10230 2500 4500
        low_end
    ∷ row (codes "cool_fire_q1_critical") (some (codes "flame_q1_critical")) 6880 0 10230 5000 10230
        low_end
    ∷ row (codes "cool_fire_q2_alert") (some (codes "flame_q2_alert")) 3740 0 10230 3000 5000
        low_end
    ∷ row (codes "cool_fire_q2_critical") (some (codes "flame_q2_critical")) 10220 0 10230 5000
        10230 low_end
    ∷ row (codes "cool_accel_x_alert") (some (codes "crash_x_alert")) 1320 0 2550 1000 1700 low_end
    ∷ row (codes "cool_accel_y_alert") (some (codes "crash_y_alert")) 1120 0 2550 850 1450 low_end
    ∷ row (codes "cool_accel_abort") (some (codes "crash_abort")) 1330 0 2550 1000 1700 low_end
    ∷ row (codes "cool_flow_check_s") (some (codes "flow")) 500 0 3000 300 1200 low_end
    ∷ row (codes "cool_recheck_s") (some (codes "recheck")) 1500 0 36000 600 6000 low_end
    ∷ row (codes "cool_flow_rise") none 144 10 400 10 400 no_end
    ∷ row (codes "cool_tach_exhaust_min_rpm") (some (codes "exhaust")) 64000 0 200000 58000 70000
        low_end
    ∷ row (codes "cool_tach_intake_min_rpm") (some (codes "intake")) 22900 0 200000 21000 25000
        low_end
    ∷ row (codes "cool_tach_air_assist_min_rpm") (some (codes "air_assist")) 60000 0 300000 55000
        66000 low_end
    ∷ row (codes "cool_purge_min_current") (some (codes "purge")) 3000 0 10230 1500 5000 low_end
    ∷ row (codes "cool_fan_grace_s") none 150 0 1200 50 300 no_end
    ∷ []

unfoldable pub find_in : Bytes → List GateSetting → Option GateSetting
find_in key [] = none
find_in key (g ∷ gs) = if same g.key key then some g else find_in key gs

-- `gate_setting_find`
abbrev pub gate_setting_find : Bytes → Option GateSetting
gate_setting_find key = find_in key table

abbrev pub at_off_end : GateSetting → ℕ → OffEnd → Bool
at_off_end g v low_end = leb v g.lo
at_off_end g v high_end = leb g.hi v
at_off_end g v no_end = false

-- `gate_state`
unfoldable pub gate_state : GateSetting → ℕ → GateState
gate_state g v =
    if at_off_end g v g.off_end
    then gate_off
    else if ltb v g.band_lo || ltb g.band_hi v
    then gate_warn
    else gate_ok

abbrev pub is_off : GateState → Bool
is_off gate_off = true
is_off gate_warn = false
is_off gate_ok = false

-- `gate_effective`, and whether the header's value is in force; a header's value that is absent, or
-- not above zero, is 0.
unfoldable pub gate_effective : ℕ → ℕ → Bool → ℕ × Bool
gate_effective here header is_floor =
    let use_it = ltb 0 header && (if is_floor then ltb here header else ltb header here) in
    (if use_it then header else here, use_it)

-- `gate_floor_trip`
unfoldable pub gate_floor_trip : Bool → ℕ → ℕ → ℕ → Bool
gate_floor_trip tripped up floor hyst = ltb up (if tripped then floor + hyst else floor)

-- `gate_critical_refused`
unfoldable pub gate_critical_refused : ℕ → ℕ → Bool
gate_critical_refused temp_max critical = not (leb coolant_max.hi temp_max) && leb critical temp_max

-- `gate_tec_refused`
abbrev pub gate_tec_refused : ℕ → ℕ → Bool
gate_tec_refused on off = leb on off
