-- ===== src/Cool/Tests.antt =====
-- The cooling engine at concrete sights.
use forgectrl.Prelude.{
  ℕ, ◌*◌, true, false, ◌&&◌, ◌||◌, List, [], ◌∷◌, none, some, ◌≡◌, inl, refl, arith, codes,
}
use forgectrl.Gates.Table.{unit}
use forgectrl.Cool.State.{Config, Engine, Sight, deg}
use forgectrl.Cool.Fans.{
  heater_set_pct, fans_idle, fans_run, fans_cool, fans_apply_phase, cool_quiet_hold_ex, fans_verify,
}
use forgectrl.Cool.Limits.{gates_apply, conf_reload, limits_of, limits_apply}
use forgectrl.Cool.Session.{
  flow_check_start, ask_check, open_warm, open_phase, open_gates, open_watches, flood_open,
  close_gates, drop_check, flood_close,
}
use forgectrl.Cool.Watches.{
  dead_man, quiet_release, note_armed, reapply_duty, flood_edge, heard, heeded, take_report,
  emission_watch, exchange, quartiles, fire_judge, fire_signal, fire_watch, hv_watch, arm_chip,
  crash_signal, crash_unread, crash_poll,
}
use forgectrl.Cool.Airflow.{any_under, judge_fans, any_tripped, judge_airflow, airflow_gates}
use forgectrl.Cool.Coolant.{
  sensors_back, blinded, sensors_lost, sensors, cool_released, over_set, ceiling_at, ceiling,
  cold_floor, least_of, warm_release, warm_wait, warm_at, warm_hold, critical_line,
}
use forgectrl.Cool.Flow.{
  check_sample, fault_noted, check_verdict, check_end_at, check_tick, check_due, flow_check,
  suspicion, flow_history, flow_release, check_start_at, check_gate, flow_part,
}
use forgectrl.Cool.Tick.{
  start_stood_down, smoke_end, thermal_end, cooldown, tec_wanted, tec_switch, tec_write, tec_part,
  verdict_of, verdict_publish, watches, gates, closing, engine_tick,
}
use forgectrl.Cool.Calls.{
  cool_state_report, cool_controller_stopped, cool_armed, cool_diag_take, cool_diag_release,
  cool_flow_check_hold, cool_diag_pump, cool_diag_heater_pct, cool_diag_fans_run,
  cool_diag_fans_idle, cool_diag_aa, cool_diag_purge, cool_shutdown,
}
use forgectrl.Gates.Table.{gate_state, gate_effective, gate_floor_trip}
use forgectrl.Airflow.Gate.{airflow_run_duty, airflow_judged, airflow_tick}
use forgectrl.Crash.Watch.{crash_tick}
use forgectrl.Cool.Alarms.{any_alarm}
use forgectrl.Cool.Faults.{InSession, fault_stands}
use forgectrl.Cool.Silence.{silence-IsSafed}
use forgectrl.Cool.Safing.{IsSafed}
use forgectrl.Cool.Raised.{raised-IsSafed}
use forgectrl.Cool.Heaters.{HasReason, heater_has_a_reason}
use forgectrl.Cool.Acks.{all_at, judged_at, armed_ack_iff}
use forgectrl.Cool.Standdown.{FansIdle, idle_when_done}
use forgectrl.Cool.Fans.{is_warmup}
use forgectrl.Cool.Watches.{armed_at}
use forgectrl.Cool.Airflow.{rows}
use forgectrl.Cool.FireOk.{IsClear, fire_ok-IsClear}
use forgectrl.Cool.Calls.{Act, a_tick, a_report, act, acts, statics, cool_init}

abbrev base : Config
base = record {
  smoke_s = 15;
  cooldown_max_s = 300;
  temp_max_c = 33 * unit;
  temp_resume_c = 31 * unit;
  temp_critical_c = 38 * unit;
  temp_min_c = 5 * unit;
  temp_start_c = 16 * unit;
  tec_present = false;
  tec_on_c = 20 * unit;
  tec_off_c = 18 * unit;
  tach_exhaust_min_rpm = 6400 * unit;
  tach_intake_min_rpm = 2290 * unit;
  tach_air_assist_min_rpm = 6000 * unit;
  purge_min_current = 300 * unit;
  one_intake = false;
  fan_grace_s = 15000;
  flow_fault_rise = 144000000;
  flow_heater_pct = 40;
  flow_check_s = 50;
  flow_recheck_s = 150;
  confirm_max_s = 480;
  laser_heat = 236;
  fire_q1_alert = 275 * unit;
  fire_q1_critical = 688 * unit;
  fire_q2_alert = 374 * unit;
  fire_q2_critical = 1022 * unit;
  accel_x_alert = 132 * unit;
  accel_y_alert = 112 * unit;
  accel_abort = 133 * unit;
}

-- A machine at rest, at a time, with a coolant at a temperature.
abbrev seen_at : ℕ → ℕ → Sight
seen_at now temp = record {
  now = now;
  settings = base;
  running_first = false;
  running_last = false;
  is_idle = true;
  emission = some 0;
  lid_ir = some 100 ∷ some 110 ∷ some 120 ∷ some 130 ∷ [];
  hv = none;
  chip_opens = true;
  chip_arms = true;
  polled = some (
    record { ia = false; xh = false; yh = false },
    record { ia = false; xh = false; yh = false },
  );
  fan_back = none ∷ none ∷ none ∷ [];
  fan_takes = true ∷ true ∷ true ∷ [];
  fan_reading = 6800 * unit ∷ 2400 * unit ∷ 2400 * unit ∷ 9000 * unit ∷ 500 * unit ∷ [];
  up_at_open = some (deg (temp * unit));
  down = some (deg (temp * unit));
  up = some (deg (temp * unit));
  ext_standing = false;
}

abbrev burning : ℕ → Sight
burning now = record (seen_at now 20) { lid_ir = some 900 ∷ some 1023 ∷ some 1000 ∷ some 800 ∷ [] }

abbrev armed_report : ℕ → Act
armed_report now = a_report now (codes "run") true (none, (none, none)) none

abbrev booted : Engine
booted = cool_init (seen_at 1000 20) (statics base)

abbrev reported : Engine
reported = act (armed_report 9500) booted

-- A job whose coolant read 39 degrees once, and what follows.
abbrev overheated : Engine
overheated =
    acts
      (armed_report 9500
        ∷ a_tick (seen_at 10000 20)
        ∷ armed_report 10500
        ∷ a_tick (seen_at 11000 39)
        ∷ [])
      booted

abbrev cooled_again : List Act
cooled_again = armed_report 11500 ∷ a_tick (seen_at 12000 20) ∷ armed_report 12500 ∷ []

-- A job whose lid saw a fire once.
abbrev smouldering : Engine
smouldering = acts (armed_report 9500 ∷ a_tick (burning 10000) ∷ armed_report 10500 ∷ []) booted

abbrev cold_job : List Act
cold_job = armed_report 9500 ∷ a_tick (seen_at 10000 10) ∷ []

abbrev one_report : List Act
one_report = armed_report 9500 ∷ []

-- A run without the laser that has ended.
abbrev ended : Engine
ended =
    acts
      (a_report 9500 (codes "run") false (none, (none, none)) none
        ∷ a_tick (seen_at 10000 20)
        ∷ a_report 10500 (codes "idle") false (none, (none, none)) none
        ∷ [])
      booted

fire_ok-IsClear_example :
    IsClear (seen_at 10000 20) reported (engine_tick (seen_at 10000 20) reported)
unfolding heater_set_pct fans_idle fans_run fans_cool fans_apply_phase cool_quiet_hold_ex
    fans_verify gates_apply conf_reload limits_of limits_apply flow_check_start ask_check open_warm
    open_phase open_gates open_watches flood_open close_gates drop_check flood_close dead_man
    quiet_release note_armed reapply_duty flood_edge heard heeded take_report emission_watch
    exchange quartiles fire_judge fire_signal fire_watch hv_watch arm_chip crash_signal crash_unread
    crash_poll any_under judge_fans any_tripped judge_airflow airflow_gates sensors_back blinded
    sensors_lost sensors cool_released over_set ceiling_at ceiling cold_floor least_of warm_release
    warm_wait warm_at warm_hold critical_line check_sample fault_noted check_verdict check_end_at
    check_tick check_due flow_check suspicion flow_history flow_release check_start_at check_gate
    flow_part start_stood_down smoke_end thermal_end cooldown tec_wanted tec_switch tec_write
    tec_part verdict_of verdict_publish watches gates closing engine_tick cool_state_report
    cool_controller_stopped cool_armed cool_diag_take cool_diag_release cool_flow_check_hold
    cool_diag_pump cool_diag_heater_pct cool_diag_fans_run cool_diag_fans_idle cool_diag_aa
    cool_diag_purge cool_init cool_shutdown act acts gate_state gate_effective gate_floor_trip
    airflow_run_duty airflow_judged airflow_tick crash_tick
fire_ok-IsClear_example =
    fire_ok-IsClear (seen_at 10000 20) reported (omega arith) (omega arith) refl

fault_stands_example :
    ((engine_tick (seen_at 13000 20) (acts cooled_again overheated)).published.fire_ok ≡ false)
    × ((engine_tick (seen_at 13000 20) (acts cooled_again overheated)).published.hold ≡ true)
unfolding heater_set_pct fans_idle fans_run fans_cool fans_apply_phase cool_quiet_hold_ex
    fans_verify gates_apply conf_reload limits_of limits_apply flow_check_start ask_check open_warm
    open_phase open_gates open_watches flood_open close_gates drop_check flood_close dead_man
    quiet_release note_armed reapply_duty flood_edge heard heeded take_report emission_watch
    exchange quartiles fire_judge fire_signal fire_watch hv_watch arm_chip crash_signal crash_unread
    crash_poll any_under judge_fans any_tripped judge_airflow airflow_gates sensors_back blinded
    sensors_lost sensors cool_released over_set ceiling_at ceiling cold_floor least_of warm_release
    warm_wait warm_at warm_hold critical_line check_sample fault_noted check_verdict check_end_at
    check_tick check_due flow_check suspicion flow_history flow_release check_start_at check_gate
    flow_part start_stood_down smoke_end thermal_end cooldown tec_wanted tec_switch tec_write
    tec_part verdict_of verdict_publish watches gates closing engine_tick cool_state_report
    cool_controller_stopped cool_armed cool_diag_take cool_diag_release cool_flow_check_hold
    cool_diag_pump cool_diag_heater_pct cool_diag_fans_run cool_diag_fans_idle cool_diag_aa
    cool_diag_purge cool_init cool_shutdown act acts gate_state gate_effective gate_floor_trip
    airflow_run_duty airflow_judged airflow_tick crash_tick any_alarm InSession
fault_stands_example =
    fault_stands cooled_again (seen_at 13000 20) overheated refl (tt, (refl, (tt, tt))) refl

silence-IsSafed_example : IsSafed reported (engine_tick (seen_at 20000 20) reported)
unfolding heater_set_pct fans_idle fans_run fans_cool fans_apply_phase cool_quiet_hold_ex
    fans_verify gates_apply conf_reload limits_of limits_apply flow_check_start ask_check open_warm
    open_phase open_gates open_watches flood_open close_gates drop_check flood_close dead_man
    quiet_release note_armed reapply_duty flood_edge heard heeded take_report emission_watch
    exchange quartiles fire_judge fire_signal fire_watch hv_watch arm_chip crash_signal crash_unread
    crash_poll any_under judge_fans any_tripped judge_airflow airflow_gates sensors_back blinded
    sensors_lost sensors cool_released over_set ceiling_at ceiling cold_floor least_of warm_release
    warm_wait warm_at warm_hold critical_line check_sample fault_noted check_verdict check_end_at
    check_tick check_due flow_check suspicion flow_history flow_release check_start_at check_gate
    flow_part start_stood_down smoke_end thermal_end cooldown tec_wanted tec_switch tec_write
    tec_part verdict_of verdict_publish watches gates closing engine_tick cool_state_report
    cool_controller_stopped cool_armed cool_diag_take cool_diag_release cool_flow_check_hold
    cool_diag_pump cool_diag_heater_pct cool_diag_fans_run cool_diag_fans_idle cool_diag_aa
    cool_diag_purge cool_init cool_shutdown act acts gate_state gate_effective gate_floor_trip
    airflow_run_duty airflow_judged airflow_tick crash_tick
silence-IsSafed_example =
    silence-IsSafed (seen_at 20000 20) reported refl (inl ((9500, refl), (refl, refl)))

raised-IsSafed_example : IsSafed smouldering (engine_tick (burning 11000) smouldering)
unfolding heater_set_pct fans_idle fans_run fans_cool fans_apply_phase cool_quiet_hold_ex
    fans_verify gates_apply conf_reload limits_of limits_apply flow_check_start ask_check open_warm
    open_phase open_gates open_watches flood_open close_gates drop_check flood_close dead_man
    quiet_release note_armed reapply_duty flood_edge heard heeded take_report emission_watch
    exchange quartiles fire_judge fire_signal fire_watch hv_watch arm_chip crash_signal crash_unread
    crash_poll any_under judge_fans any_tripped judge_airflow airflow_gates sensors_back blinded
    sensors_lost sensors cool_released over_set ceiling_at ceiling cold_floor least_of warm_release
    warm_wait warm_at warm_hold critical_line check_sample fault_noted check_verdict check_end_at
    check_tick check_due flow_check suspicion flow_history flow_release check_start_at check_gate
    flow_part start_stood_down smoke_end thermal_end cooldown tec_wanted tec_switch tec_write
    tec_part verdict_of verdict_publish watches gates closing engine_tick cool_state_report
    cool_controller_stopped cool_armed cool_diag_take cool_diag_release cool_flow_check_hold
    cool_diag_pump cool_diag_heater_pct cool_diag_fans_run cool_diag_fans_idle cool_diag_aa
    cool_diag_purge cool_init cool_shutdown act acts gate_state gate_effective gate_floor_trip
    airflow_run_duty airflow_judged airflow_tick crash_tick
raised-IsSafed_example = raised-IsSafed (burning 11000) smouldering refl refl

heater_has_a_reason_example : HasReason (acts cold_job booted)
heater_has_a_reason_example = heater_has_a_reason (seen_at 1000 20) base cold_job

armed_ack_iff_example :
    (engine_tick (seen_at 10000 20) (acts one_report booted)).published.armed_ack ≡ (
      armed_at (seen_at 10000 20) (acts one_report booted)
      && (is_warmup (judged_at (seen_at 10000 20) (acts one_report booted)).phase
          || all_at
              (rows (seen_at 10000 20) (judged_at (seen_at 10000 20) (acts one_report booted)))))
unfolding heater_set_pct fans_idle fans_run fans_cool fans_apply_phase cool_quiet_hold_ex
    fans_verify gates_apply conf_reload limits_of limits_apply flow_check_start ask_check open_warm
    open_phase open_gates open_watches flood_open close_gates drop_check flood_close dead_man
    quiet_release note_armed reapply_duty flood_edge heard heeded take_report emission_watch
    exchange quartiles fire_judge fire_signal fire_watch hv_watch arm_chip crash_signal crash_unread
    crash_poll any_under judge_fans any_tripped judge_airflow airflow_gates sensors_back blinded
    sensors_lost sensors cool_released over_set ceiling_at ceiling cold_floor least_of warm_release
    warm_wait warm_at warm_hold critical_line check_sample fault_noted check_verdict check_end_at
    check_tick check_due flow_check suspicion flow_history flow_release check_start_at check_gate
    flow_part start_stood_down smoke_end thermal_end cooldown tec_wanted tec_switch tec_write
    tec_part verdict_of verdict_publish watches gates closing engine_tick cool_state_report
    cool_controller_stopped cool_armed cool_diag_take cool_diag_release cool_flow_check_hold
    cool_diag_pump cool_diag_heater_pct cool_diag_fans_run cool_diag_fans_idle cool_diag_aa
    cool_diag_purge cool_init cool_shutdown act acts gate_state gate_effective gate_floor_trip
    airflow_run_duty airflow_judged airflow_tick crash_tick
armed_ack_iff_example = armed_ack_iff (seen_at 1000 20) base one_report (seen_at 10000 20) refl

idle_when_done_example :
    ((seen_at 11000 20).running_last ≡ false) × FansIdle (engine_tick (seen_at 11000 20) ended)
unfolding heater_set_pct fans_idle fans_run fans_cool fans_apply_phase cool_quiet_hold_ex
    fans_verify gates_apply conf_reload limits_of limits_apply flow_check_start ask_check open_warm
    open_phase open_gates open_watches flood_open close_gates drop_check flood_close dead_man
    quiet_release note_armed reapply_duty flood_edge heard heeded take_report emission_watch
    exchange quartiles fire_judge fire_signal fire_watch hv_watch arm_chip crash_signal crash_unread
    crash_poll any_under judge_fans any_tripped judge_airflow airflow_gates sensors_back blinded
    sensors_lost sensors cool_released over_set ceiling_at ceiling cold_floor least_of warm_release
    warm_wait warm_at warm_hold critical_line check_sample fault_noted check_verdict check_end_at
    check_tick check_due flow_check suspicion flow_history flow_release check_start_at check_gate
    flow_part start_stood_down smoke_end thermal_end cooldown tec_wanted tec_switch tec_write
    tec_part verdict_of verdict_publish watches gates closing engine_tick cool_state_report
    cool_controller_stopped cool_armed cool_diag_take cool_diag_release cool_flow_check_hold
    cool_diag_pump cool_diag_heater_pct cool_diag_fans_run cool_diag_fans_idle cool_diag_aa
    cool_diag_purge cool_init cool_shutdown act acts gate_state gate_effective gate_floor_trip
    airflow_run_duty airflow_judged airflow_tick crash_tick
idle_when_done_example = idle_when_done (seen_at 11000 20) ended refl refl
