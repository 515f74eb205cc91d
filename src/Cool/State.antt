-- ===== src/Cool/State.antt =====
-- The state of the engine in src/cool.c, what a tick reads, and what it writes. Times are in
-- milliseconds; settings are in the unit of the gate table, but for counts, percents, whole seconds
-- and the grace of the fans, which is in milliseconds.
use forgectrl.Prelude.{ℕ, ◌+◌, ◌*◌, Bool, List, ◌∷◌, Option}
use forgectrl.Gates.Table.{unit}
use forgectrl.Airflow.Gate.{Fan}
use forgectrl.Crash.Watch.{Watch, Source}

-- A reading of the coolant is counted from 300 degrees below zero, so that it is natural.
abbrev pub deg : ℕ → ℕ
deg v = v + 300 * unit

-- The tunables.
pub record Config : Type 0 where
  pub smoke_s : ℕ
  pub cooldown_max_s : ℕ
  pub temp_max_c : ℕ
  pub temp_resume_c : ℕ
  pub temp_critical_c : ℕ
  pub temp_min_c : ℕ
  pub temp_start_c : ℕ
  pub tec_present : Bool
  pub tec_on_c : ℕ
  pub tec_off_c : ℕ
  pub tach_exhaust_min_rpm : ℕ
  pub tach_intake_min_rpm : ℕ
  pub tach_air_assist_min_rpm : ℕ
  pub purge_min_current : ℕ
  pub one_intake : Bool
  pub fan_grace_s : ℕ
  pub flow_fault_rise : ℕ
  pub flow_heater_pct : ℕ
  pub flow_check_s : ℕ
  pub flow_recheck_s : ℕ
  pub confirm_max_s : ℕ
  pub laser_heat : ℕ
  pub fire_q1_alert : ℕ
  pub fire_q1_critical : ℕ
  pub fire_q2_alert : ℕ
  pub fire_q2_critical : ℕ
  pub accel_x_alert : ℕ
  pub accel_y_alert : ℕ
  pub accel_abort : ℕ

-- `cool_state_t` and `flow_verdict_t`
pub data CoolState : Type 0 where
  cool_idle cool_run cool_smoke cool_thermal cool_warmup : CoolState

pub data FlowVerdict : Type 0 where
  flow_normal flow_suspect flow_fault : FlowVerdict

-- `cool_limits_t`: a limit that is absent is 0.
pub record Limits : Type 0 where
  pub coolant_max : ℕ
  pub coolant_min : ℕ
  pub exhaust_min : ℕ
  pub intake_min : ℕ
  pub air_assist_min : ℕ

-- The controller's report: whether its mode is "run", and when it came.
pub record Report : Type 0 where
  pub mode_run : Bool
  pub armed : Bool
  pub duty : List (Option ℕ)
  pub lim : Limits
  pub at : Option ℕ

-- What the engine writes and calls, besides the words of its log.
pub data Write : Type 0 where
  wr_stop wr_latch fail_tier_stop flow_flagged : Write
  wr_air_assist wr_exhaust wr_intake wr_heater : ℕ → Write
  wr_tec wr_purge wr_pump : Bool → Write

-- The lid's fire watch.
pub record Fire : Type 0 where
  pub alarm : Bool
  pub alert : Bool
  pub over_ticks : ℕ
  pub clear_ticks : ℕ

-- The crash watch and its chip: `hw_state` is 0, 1 and -1.
pub data Chip : Type 0 where
  unprobed present absent : Chip

pub record Head : Type 0 where
  pub watch : Watch
  pub chip : Chip
  pub chip_armed : Bool
  pub poll_errs : ℕ

-- The airflow gates: exhaust, the intakes, air assist, purge.
pub record Air : Type 0 where
  pub gates : List Fan
  pub air_alarm : Bool
  pub grace_until : ℕ
  pub fans_up : Bool
  pub lost : List ℕ

-- The gates on the coolant, and the limits in force.
pub record Coolant : Type 0 where
  pub over_temp : Bool
  pub cold : Bool
  pub critical : Bool
  pub sensor_alarm : Bool
  pub sensor_fails : ℕ
  pub forced_cool : Bool
  pub max_off : Bool
  pub critical_off : Bool
  pub floor_off : Bool
  pub warmup_off : Bool
  pub eff_max : ℕ
  pub eff_resume : ℕ
  pub eff_min : ℕ
  pub eff_lim : Limits

-- The warm-up hold: the window has its latest reading first.
pub record Warm : Type 0 where
  pub gate_c : ℕ
  pub last_up : ℕ
  pub progress_at : ℕ
  pub stalled : Bool
  pub win : List ℕ

-- The flow check: the readings have the latest first; the baseline is a sum and how many it is of.
pub record Flow : Type 0 where
  pub verdict : FlowVerdict
  pub active : Bool
  pub pending : Bool
  pub held : Bool
  pub hold_since : ℕ
  pub settle_warned : Bool
  pub next_check : ℕ
  pub pending_since : ℕ
  pub suspect_since : ℕ
  pub check_end : ℕ
  pub hist : List ℕ
  pub ends : List ℕ
  pub base_sum : ℕ
  pub base_n : ℕ
  pub dose : ℕ
  pub hv_hist : List (Option ℕ)
  pub hv_last : Option ℕ
  pub episodes : ℕ
  pub streak : ℕ

pub record Tec : Type 0 where
  pub on_state : Bool
  pub switched_at : ℕ
  pub tec_written : Option Bool

-- The verdicts that are published, in their order of precedence.
pub data Named : Type 0 where
  v_fire v_crash v_flame v_bump v_airflow v_critical v_sensor v_overtemp v_cold v_warmup v_fault
        v_suspect v_ext v_ok :
      Named

pub record Verdict : Type 0 where
  pub fire_ok : Bool
  pub named : Named
  pub hold : Bool
  pub armed_ack : Bool

-- The engine. `shown_idle` says whether the published phase is "idle". The log has the latest write
-- first.
pub record Engine : Type 0 where
  pub conf : Config
  pub report : Report
  pub phase : CoolState
  pub phase_until : ℕ
  pub flood_on : Bool
  pub eff_armed : Bool
  pub session_armed : Bool
  pub last_armed_at : Option ℕ
  pub silent_safed : Bool
  pub start_cool : Bool
  pub run_duty : List (Option ℕ)
  pub cmd_duty : List ℕ
  pub fan_cmd : List (Option ℕ)
  pub heater_pct : ℕ
  pub diag_owned : Bool
  pub quiet_held : Bool
  pub quiet_pump : Bool
  pub quiet_since : ℕ
  pub fire : Fire
  pub head : Head
  pub air : Air
  pub coolant : Coolant
  pub warm : Warm
  pub flow : Flow
  pub tec : Tec
  pub shown_idle : Bool
  pub published : Verdict
  pub log : List Write

-- What one tick reads: `none` is a reading that fails. `settings` is what the tunables resolve to.
pub record Sight : Type 0 where
  pub now : ℕ
  pub settings : Config
  pub running_first : Bool
  pub running_last : Bool
  pub is_idle : Bool
  pub emission : Option ℕ
  pub lid_ir : List (Option ℕ)
  pub hv : Option ℕ
  pub chip_opens : Bool
  pub chip_arms : Bool
  pub polled : Option (Source × Source)
  pub fan_back : List (Option ℕ)
  pub fan_takes : List Bool
  pub fan_reading : List ℕ
  pub up_at_open : Option ℕ
  pub down : Option ℕ
  pub up : Option ℕ
  pub ext_standing : Bool

abbrev pub wrote : Write → Engine → Engine
wrote w e = record e { log = w ∷ e.log }
