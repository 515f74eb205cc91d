-- ===== src/Cool/Tick.antt =====
-- The cooldown phases, the TEC and the verdict of a tick, the tick itself and the other operations
-- of src/cool.c.
use forgectrl.Prelude.{
  ℕ, ◌+◌, Bool, true, false, not, ◌&&◌, ◌||◌, Option, none, some, ltb, leb, if◌then◌else◌,
}
use forgectrl.Cool.State.{
  CoolState, cool_idle, cool_run, cool_smoke, cool_thermal, cool_warmup, FlowVerdict, flow_normal,
  flow_suspect, flow_fault, wr_tec, Tec, Named, v_fire, v_crash, v_flame, v_bump, v_airflow,
  v_critical, v_sensor, v_overtemp, v_cold, v_warmup, v_fault, v_suspect, v_ext, v_ok, Verdict,
  Engine, Sight, deg, wrote,
}
use forgectrl.Cool.Fans.{fans_idle, fans_cool, is_airflow, is_warmup, seconds}
use forgectrl.Cool.Limits.{limits_apply}
use forgectrl.Cool.Session.{is_suspect}
use forgectrl.Cool.Watches.{
  fresh, dead_man, take_report, emission_watch, fire_watch, hv_watch, arm_chip, crash_poll,
}
use forgectrl.Cool.Airflow.{airflow_gates}
use forgectrl.Cool.Coolant.{sensors, ceiling, cold_floor, warm_hold, critical_line, floor_hyst}
use forgectrl.Cool.Flow.{flow_part}

abbrev pub is_idle_phase : CoolState → Bool
is_idle_phase cool_idle = true
is_idle_phase cool_run = false
is_idle_phase cool_smoke = false
is_idle_phase cool_thermal = false
is_idle_phase cool_warmup = false

-- The cooldown airflow of a busy start, stood down.
unfoldable pub start_stood_down : Sight → Engine → Engine
start_stood_down x e =
    if e.start_cool && (is_idle_phase e.phase && x.is_idle) then fans_idle e else e

abbrev above : ℕ → Option ℕ → Bool
above limit none = false
above limit (some up) = ltb limit up

abbrev at_most : ℕ → Option ℕ → Bool
at_most limit none = false
at_most limit (some up) = leb up limit

abbrev to_idle : Engine → Engine
to_idle e = record (fans_idle (record e { phase = cool_idle })) {
  flow = record e.flow { episodes = 0 };
}

abbrev to_thermal : ℕ → Engine → Engine
to_thermal now e =
    fans_cool (record e { phase = cool_thermal; phase_until = now + seconds e.conf.cooldown_max_s })

unfoldable pub smoke_end : Sight → Engine → Engine
smoke_end x e =
    if ltb x.now e.phase_until
    then e
    else if above (deg e.conf.temp_resume_c) x.up || x.running_last
    then to_thermal x.now e
    else to_idle e

unfoldable pub thermal_end : Sight → Engine → Engine
thermal_end x e =
    if at_most (deg e.conf.temp_resume_c) x.up || leb e.phase_until x.now
    then (if x.running_last
        then record e { phase_until = x.now + seconds e.conf.cooldown_max_s }
        else to_idle e)
    else e

unfoldable pub cooldown : Sight → Engine → Engine
cooldown x e = elim e.phase [
  | cool_smoke ↦ smoke_end x e
  | cool_thermal ↦ thermal_end x e
  | cool_idle ↦ e
  | cool_run ↦ e
  | cool_warmup ↦ e
]

-- TEC_DWELL_S
abbrev tec_dwell : ℕ
tec_dwell = 30000

-- What the TEC is wanted to be, its dwell aside.
unfoldable pub tec_wanted : Sight → Engine → Bool
tec_wanted x e =
    let airflow = is_airflow e.phase || e.coolant.forced_cool in
    let warm_enough =
      above (deg (if e.tec.on_state then e.conf.tec_off_c else e.conf.tec_on_c)) x.up in
    let at_floor = not e.coolant.floor_off && at_most (e.coolant.eff_min + floor_hyst) x.up in
    e.conf.tec_present && (airflow && (warm_enough && not at_floor))

abbrev dwells : ℕ → Tec → Bool
dwells now t = not t.on_state && (ltb 0 t.switched_at && ltb now (t.switched_at + tec_dwell))

abbrev differs : Bool → Bool → Bool
differs true b = not b
differs false b = b

abbrev unwritten : Bool → Option Bool → Bool
unwritten b none = true
unwritten b (some c) = differs b c

unfoldable pub tec_switch : ℕ → Bool → Tec → Tec
tec_switch now want t =
    let on = if want && dwells now t then false else want in
    record t { on_state = on; switched_at = if differs on t.on_state then now else t.switched_at }

unfoldable pub tec_write : Engine → Engine
tec_write e =
    if unwritten e.tec.on_state e.tec.tec_written && not e.quiet_pump
    then wrote (wr_tec e.tec.on_state)
        (record e { tec = record e.tec { tec_written = some e.tec.on_state } })
    else e

unfoldable pub tec_part : Sight → Engine → Engine
tec_part x e = tec_write (record e { tec = tec_switch x.now (tec_wanted x e) e.tec })

abbrev pub is_fault : FlowVerdict → Bool
is_fault flow_fault = true
is_fault flow_normal = false
is_fault flow_suspect = false

-- What withholds the fire and asks for a hold, each.
abbrev pub blocks : Bool → Engine → Bool
blocks ext e =
    e.fire.alarm
    || (e.head.watch.alarm
        || (e.fire.alert
            || (e.head.watch.alert
                || (e.air.air_alarm
                    || (e.coolant.critical
                        || (e.coolant.sensor_alarm
                            || (e.coolant.over_temp
                                || (e.coolant.cold || (is_warmup e.phase || ext)))))))))

abbrev pub named_of : Bool → Engine → Named
named_of ext e =
    if e.fire.alarm
    then v_fire
    else if e.head.watch.alarm
    then v_crash
    else if e.fire.alert
    then v_flame
    else if e.head.watch.alert
    then v_bump
    else if e.air.air_alarm
    then v_airflow
    else if e.coolant.critical
    then v_critical
    else if e.coolant.sensor_alarm
    then v_sensor
    else if e.coolant.over_temp
    then v_overtemp
    else if e.coolant.cold
    then v_cold
    else if is_warmup e.phase
    then v_warmup
    else if is_fault e.flow.verdict
    then v_fault
    else if is_suspect e.flow.verdict
    then v_suspect
    else if ext
    then v_ext
    else v_ok

unfoldable pub verdict_of : Bool → Bool → Engine → Verdict
verdict_of is_fresh ext e = record {
  fire_ok = is_fresh && (not (blocks ext e) && not (is_fault e.flow.verdict));
  named = named_of ext e;
  hold = blocks ext e || (e.eff_armed && (is_fault e.flow.verdict || is_suspect e.flow.verdict));
  armed_ack = e.eff_armed && e.air.fans_up;
}

-- `verdict_publish`
unfoldable pub verdict_publish : Bool → Bool → Engine → Engine
verdict_publish is_fresh ext e = record e {
  published = verdict_of is_fresh ext e;
  shown_idle = is_idle_phase e.phase;
}

abbrev pub diag_verdict : Engine → Verdict
diag_verdict e = record {
  fire_ok = false;
  named = v_ok;
  hold = true;
  armed_ack = e.eff_armed && e.air.fans_up;
}

-- The tick's parts, in its order.
unfoldable pub watches : Sight → Engine → Engine
watches x e =
    let told = take_report x (dead_man x (limits_apply (fresh x e) e)) in
    crash_poll x (arm_chip x (hv_watch x (fire_watch x (emission_watch x told))))

unfoldable pub gates : Sight → Engine → Engine
gates x e = critical_line x (warm_hold x (cold_floor x (ceiling x (sensors x (airflow_gates x e)))))

unfoldable pub closing : Sight → Engine → Engine
closing x e = tec_part x (cooldown x (start_stood_down x (flow_part x e)))

-- `engine_tick`
unfoldable pub engine_tick : Sight → Engine → Engine
engine_tick x e =
    if e.diag_owned
    then record e { published = diag_verdict e; shown_idle = false }
    else verdict_publish (fresh x e) x.ext_standing (closing x (gates x (watches x e)))
