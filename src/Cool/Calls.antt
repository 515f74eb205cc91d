-- ===== src/Cool/Calls.antt =====
-- The calls of the other threads into src/cool.c, and the engine's start and end.
use forgectrl.Prelude.{
  ℕ, ◌*◌, Bool, true, false, not, ◌&&◌, ◌||◌, List, [], ◌∷◌, Option, none, some, Bytes, codes, same,
  leb, if◌then◌else◌,
}
use forgectrl.Gates.Table.{unit}
use forgectrl.Airflow.Gate.{reset}
use forgectrl.Crash.Watch.{crash_reset}
use forgectrl.Cool.State.{
  Config, cool_idle, flow_normal, Limits, wr_purge, wr_pump, wr_tec, unprobed, v_ok, Engine, Sight,
  deg, wrote,
}
use forgectrl.Cool.Fans.{
  heater_set_pct, aa_write, exhaust_write, intake_write, fans_idle, fans_cool, cool_quiet_hold_ex,
  air_assist_idle, air_assist_run, exhaust_run, intake_run,
}
use forgectrl.Cool.Limits.{conf_reload, no_limits}
use forgectrl.Cool.Watches.{fresh_at}
use forgectrl.Cool.Tick.{is_idle_phase, engine_tick}

-- The mode of a report: whether it is "run", or no mode at all.
abbrev mode_of : Bytes → Option Bool
mode_of mode =
    if same mode (codes "idle")
    then some false
    else if same mode (codes "run")
    then some true
    else if same mode (codes "cooldown")
    then some false
    else none

-- A duty in its range; `none` is below zero.
abbrev duty_within : ℕ → Option ℕ → Option ℕ
duty_within top none = none
duty_within top (some d) = if leb d top then some d else none

abbrev limits_given : Option Limits → Limits
limits_given none = no_limits
limits_given (some lim) = lim

-- `cool_state_report`, its three duties in their order, or `none` for -1
unfoldable pub cool_state_report :
    ℕ → Bytes → Bool → Option ℕ × (Option ℕ × Option ℕ) → Option Limits → Engine → Option Engine
cool_state_report now mode armed duty lim e = elim (mode_of mode) [
  | none ↦ none
  | some run ↦ some (record e {
    report = record {
      mode_run = run;
      armed = armed;
      duty =
          duty_within 1023 (duty.0)
          ∷ duty_within 65535 (duty.1.0)
          ∷ duty_within 65535 (duty.1.1)
          ∷ [];
      lim = limits_given lim;
      at = some now;
    };
  })
]

-- `cool_controller_stopped`
unfoldable pub cool_controller_stopped : Engine → Engine
cool_controller_stopped e = record e {
  report = record e.report { at = none; mode_run = false; armed = false };
}

-- `cool_armed`
unfoldable pub cool_armed : ℕ → Engine → Bool
cool_armed now e = e.report.armed && fresh_at now e.report.at

-- `cool_diag_take`, or `none` for -1
unfoldable pub cool_diag_take : Engine → Option Engine
cool_diag_take e =
    if e.diag_owned || (not (is_idle_phase e.phase) || not e.shown_idle)
    then none
    else some (record e { diag_owned = true })

-- `cool_diag_release`
unfoldable pub cool_diag_release : Engine → Engine
cool_diag_release e =
    let idled = fans_idle (wrote (wr_pump true) (heater_set_pct 0 e)) in
    record idled { tec = record idled.tec { tec_written = none }; diag_owned = false }

-- `cool_flow_check_hold`
unfoldable pub cool_flow_check_hold : ℕ → Bool → Engine → Engine
cool_flow_check_hold now on e = record e {
  flow = record e.flow { held = on; hold_since = if on then now else e.flow.hold_since };
}

-- The writes of a diagnostic, behind `diag_guard`.
unfoldable pub cool_diag_pump : Bool → Engine → Engine
cool_diag_pump on e = if e.diag_owned then wrote (wr_pump on) e else e

-- A percentage below zero is `none`, and the rest loses its fraction.
unfoldable pub cool_diag_heater_pct : Option ℕ → Engine → Engine
cool_diag_heater_pct none e = if e.diag_owned then heater_set_pct 0 e else e
cool_diag_heater_pct (some pct) e = if e.diag_owned then heater_set_pct pct e else e

unfoldable pub cool_diag_fans_run : Engine → Engine
cool_diag_fans_run e =
    if e.diag_owned
    then wrote (wr_purge true)
        (aa_write air_assist_run (intake_write intake_run (exhaust_write exhaust_run e)))
    else e

unfoldable pub cool_diag_fans_idle : Engine → Engine
cool_diag_fans_idle e =
    if e.diag_owned
    then wrote (wr_purge true) (aa_write air_assist_idle (intake_write 0 (exhaust_write 0 e)))
    else e

unfoldable pub cool_diag_aa : ℕ → Engine → Engine
cool_diag_aa duty e = if e.diag_owned then aa_write duty e else e

unfoldable pub cool_diag_purge : Bool → Engine → Engine
cool_diag_purge on e = if e.diag_owned then wrote (wr_purge on) e else e

-- `cool_init`, up to the thread's start
unfoldable pub cool_init : Sight → Engine → Engine
cool_init x e =
    let posed =
      heater_set_pct 0
        (wrote (wr_purge true) (wrote (wr_tec false) (wrote (wr_pump true) (conf_reload x e)))) in
    if x.is_idle then fans_idle posed else fans_cool (record posed { start_cool = true })

-- `cool_shutdown`, behind the thread's end
unfoldable pub cool_shutdown : Bool → Engine → Engine
cool_shutdown idle e =
    let off = heater_set_pct 0 e in
    let parted = record off { head = record off.head { chip_armed = false } } in
    if idle then fans_idle parted else parted

-- The statics, with the tunables given.
abbrev pub statics : Config → Engine
statics c = record {
  conf = c;
  report = record {
    mode_run = false;
    armed = false;
    duty = none ∷ none ∷ none ∷ [];
    lim = no_limits;
    at = none;
  };
  phase = cool_idle;
  phase_until = 0;
  flood_on = false;
  eff_armed = false;
  session_armed = false;
  last_armed_at = none;
  silent_safed = false;
  start_cool = false;
  run_duty = none ∷ none ∷ none ∷ [];
  cmd_duty = 0 ∷ 0 ∷ 0 ∷ [];
  fan_cmd = none ∷ none ∷ none ∷ [];
  heater_pct = 0;
  diag_owned = false;
  quiet_held = false;
  quiet_pump = false;
  quiet_since = 0;
  fire = record { alarm = false; alert = false; over_ticks = 0; clear_ticks = 0 };
  head = record { watch = crash_reset; chip = unprobed; chip_armed = false; poll_errs = 0 };
  air = record {
    gates = reset ∷ reset ∷ reset ∷ reset ∷ reset ∷ [];
    air_alarm = false;
    grace_until = 0;
    fans_up = false;
    lost = 0 ∷ 0 ∷ 0 ∷ [];
  };
  coolant = record {
    over_temp = false;
    cold = false;
    critical = false;
    sensor_alarm = false;
    sensor_fails = 0;
    forced_cool = false;
    max_off = false;
    critical_off = false;
    floor_off = false;
    warmup_off = false;
    eff_max = deg (33 * unit);
    eff_resume = deg (31 * unit);
    eff_min = deg (5 * unit);
    eff_lim = no_limits;
  };
  warm = record { gate_c = 0; last_up = 0; progress_at = 0; stalled = false; win = [] };
  flow = record {
    verdict = flow_normal;
    active = false;
    pending = false;
    held = false;
    hold_since = 0;
    settle_warned = false;
    next_check = 0;
    pending_since = 0;
    suspect_since = 0;
    check_end = 0;
    hist = [];
    ends = [];
    base_sum = 0;
    base_n = 0;
    dose = 0;
    hv_hist = [];
    hv_last = none;
    episodes = 0;
    streak = 0;
  };
  tec = record { on_state = false; switched_at = 0; tec_written = none };
  shown_idle = true;
  published = record { fire_ok = false; named = v_ok; hold = false; armed_ack = false };
  log = [];
}

-- What happens to the engine: its ticks, and the calls of the other threads between them.
pub data Act : Type 0 where
  a_tick : Sight → Act
  a_report : ℕ → Bytes → Bool → Option ℕ × (Option ℕ × Option ℕ) → Option Limits → Act
  a_stopped a_take a_release a_fans_run a_fans_idle : Act
  a_pump a_purge : Bool → Act
  a_heater : Option ℕ → Act
  a_aa : ℕ → Act
  a_hold : ℕ → Bool → Act
  a_quiet : ℕ → Bool → Bool → Act

-- A call that is refused changes nothing.
abbrev pub or_same : Option Engine → Engine → Engine
or_same none e = e
or_same (some f) e = f

-- The tools release what they have taken, and only that.
unfoldable pub act : Act → Engine → Engine
act (a_tick x) e = engine_tick x e
act (a_report now mode armed duty lim) e = or_same (cool_state_report now mode armed duty lim e) e
act a_stopped e = cool_controller_stopped e
act a_take e = or_same (cool_diag_take e) e
act a_release e = if e.diag_owned then cool_diag_release e else e
act a_fans_run e = cool_diag_fans_run e
act a_fans_idle e = cool_diag_fans_idle e
act (a_pump on) e = cool_diag_pump on e
act (a_purge on) e = cool_diag_purge on e
act (a_heater pct) e = cool_diag_heater_pct pct e
act (a_aa duty) e = cool_diag_aa duty e
act (a_hold now on) e = cool_flow_check_hold now on e
act (a_quiet now on with_pump) e = cool_quiet_hold_ex now on with_pump e

unfoldable pub acts : List Act → Engine → Engine
acts [] e = e
acts (a ∷ rest) e = acts rest (act a e)
