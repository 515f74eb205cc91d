-- ===== src/Cool/Session.antt =====
-- The flow check's start and the run session's opening and end, in src/cool.c.
use forgectrl.Prelude.{
  ℕ, ◌+◌, Bool, true, false, not, ◌&&◌, ◌||◌, List, [], ◌∷◌, Option, none, some, length, ltb,
  if◌then◌else◌,
}
use forgectrl.Airflow.Gate.{reset}
use forgectrl.Crash.Watch.{crash_reset}
use forgectrl.Cool.State.{
  cool_run, cool_smoke, cool_warmup, FlowVerdict, flow_normal, flow_suspect, flow_fault, Flow,
  Engine, Sight, deg,
}
use forgectrl.Cool.Fans.{heater_set_pct, fans_idle, fans_run, is_run, is_warmup, seconds}
use forgectrl.Cool.Limits.{conf_reload}

abbrev pub sum : List ℕ → ℕ
sum [] = 0
sum (v ∷ vs) = v + sum vs

-- The tube's current over a history of readings.
abbrev dose_of : List (Option ℕ) → ℕ
dose_of [] = 0
dose_of (none ∷ vs) = dose_of vs
dose_of (some v ∷ vs) = v + dose_of vs

-- `flow_check_start`
unfoldable pub flow_check_start : ℕ → Engine → Engine
flow_check_start now e = heater_set_pct e.conf.flow_heater_pct (record e {
  flow = record e.flow {
    active = true;
    base_sum = sum e.flow.hist;
    base_n = length e.flow.hist;
    ends = [];
    dose = dose_of e.flow.hv_hist;
    check_end = now + seconds e.conf.flow_check_s;
  };
})

-- A check is asked for, where none is under way or waiting.
abbrev pub asked : ℕ → Flow → Flow
asked now f = record f { pending = true; pending_since = now; settle_warned = false }

unfoldable pub ask_check : ℕ → Engine → Engine
ask_check now e =
    if ltb 0 e.conf.flow_check_s && (not e.flow.active && not e.flow.pending)
    then record e { flow = asked now e.flow }
    else e

-- A session opens under the warm-up gate, or into a run.
unfoldable pub open_warm : ℕ → ℕ → Engine → Engine
open_warm up now e = heater_set_pct e.conf.flow_heater_pct (
    fans_idle (record e {
      phase = cool_warmup;
      warm = record {
        gate_c = deg e.conf.temp_start_c;
        last_up = up;
        progress_at = now;
        stalled = false;
        win = [];
      };
    }))

abbrev pub open_run : Engine → Engine
open_run e = fans_run (record e { phase = cool_run })

unfoldable pub open_phase : Option ℕ → ℕ → Engine → Engine
open_phase none now e = open_run e
open_phase (some up) now e =
    if not e.coolant.warmup_off && ltb up (deg e.conf.temp_start_c)
    then open_warm up now e
    else open_run e

abbrev pub is_suspect : FlowVerdict → Bool
is_suspect flow_suspect = true
is_suspect flow_normal = false
is_suspect flow_fault = false

-- What the opening sets before the phase, and behind it.
unfoldable pub open_gates : ℕ → Engine → Engine
open_gates now e = record e {
  flow = record e.flow { hist = [] };
  air = record e.air {
    gates = reset ∷ reset ∷ reset ∷ reset ∷ reset ∷ [];
    air_alarm = false;
    fans_up = false;
    lost = 0 ∷ 0 ∷ 0 ∷ [];
    grace_until = now + e.conf.fan_grace_s;
  };
  coolant = record e.coolant { critical = false };
}

unfoldable pub open_watches : ℕ → Engine → Engine
open_watches now e = record e {
  flow = record e.flow {
    suspect_since = if is_suspect e.flow.verdict then now else e.flow.suspect_since;
  };
  fire = record { alarm = false; alert = false; over_ticks = 0; clear_ticks = 0 };
  head = record e.head { watch = crash_reset; poll_errs = 0 };
}

-- `flood_apply` of an opening
unfoldable pub flood_open : Sight → Engine → Engine
flood_open x e =
    let opened = open_phase x.up_at_open x.now (open_gates x.now (conf_reload x e)) in
    open_watches x.now (if is_run opened.phase then ask_check x.now opened else opened)

-- `flood_apply` of an end
unfoldable pub close_gates : ℕ → Engine → Engine
close_gates now e = record e {
  phase = cool_smoke;
  phase_until = now + (if e.session_armed then seconds e.conf.smoke_s else 0);
  air = record e.air { air_alarm = false; gates = reset ∷ reset ∷ reset ∷ reset ∷ reset ∷ [] };
  head = record e.head { watch = crash_reset };
  coolant = record e.coolant { critical = false };
  flow = record e.flow { pending = false; held = false };
}

unfoldable pub drop_check : Engine → Engine
drop_check e =
    if e.flow.active
    then heater_set_pct 0 (record e { flow = record e.flow { active = false } })
    else e

unfoldable pub flood_close : Sight → Engine → Engine
flood_close x e =
    if is_run e.phase || is_warmup e.phase
    then drop_check (close_gates x.now (if is_warmup e.phase then heater_set_pct 0 e else e))
    else e
