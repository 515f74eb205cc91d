-- ===== src/Cool/Standdown.antt =====
-- How a tick of src/cool.c comes to the idle phase.
use forgectrl.Prelude.{
  ℕ, Bool, true, false, List, [], ◌∷◌, Option, none, some, ◌≡◌, sym, ap, ◌∙◌, if_holds,
  if◌then◌else◌, arith,
}
use forgectrl.Cool.State.{CoolState, Engine, Sight, Write, wr_air_assist, wr_exhaust, wr_intake}
use forgectrl.Cool.Fans.{fans_run, fans_idle, fans_cool, heater_set_pct}
use forgectrl.Cool.Limits.{limits_apply}
use forgectrl.Cool.Session.{
  ask_check, open_phase, open_warm, open_watches, flood_open, close_gates, drop_check, flood_close,
  flow_check_start,
}
use forgectrl.Cool.Watches.{
  fresh, flood_at, heeded, flood_edge, take_report, emission_watch, fire_watch, hv_watch, arm_chip,
  crash_poll,
}
use forgectrl.Cool.Airflow.{airflow_gates}
use forgectrl.Cool.Coolant.{
  sensors, sensors_back, sensors_lost, blinded, ceiling, cold_floor, warm_hold, warm_at,
  warm_release,
}
use forgectrl.Cool.Flow.{
  flow_part, flow_check, check_tick, check_end_at, check_verdict, fault_noted, check_due, suspicion,
  check_gate, check_start_at,
}
use forgectrl.Cool.Tick.{
  is_idle_phase, start_stood_down, cooldown, smoke_end, thermal_end, tec_part, tec_write,
  tec_switch, verdict_publish, watches, gates, closing, engine_tick,
}
use forgectrl.Cool.Alarms.{alive}
use forgectrl.Cool.Heat.{
  core, core-limits_apply, core-dead_man, core-emission_watch, core-fire_watch, core-hv_watch,
  core-arm_chip, core-crash_poll, core-airflow_gates, core-ceiling, core-cold_floor,
  core-critical_line, core-start_stood_down, core-tec_part,
}
use forgectrl.Cool.Heaters.{core-heeded}

abbrev idles : Engine → Bool
idles e = is_idle_phase e.phase

abbrev Core : Type 0
Core = CoolState × (Bool × (ℕ × (Bool × (Bool × Bool))))

abbrev core_idles : Core → Bool
core_idles c = is_idle_phase (c.0)

phase-ask_check : (now : ℕ) (e : Engine) → (ask_check now e).phase ≡ e.phase
unfolding ask_check
phase-ask_check now e = ground arith

idles-open_phase : (up : Option ℕ) (now : ℕ) (e : Engine) → idles (open_phase up now e) ≡ false
unfolding open_phase open_warm heater_set_pct fans_run fans_idle
idles-open_phase none now e = ground arith
idles-open_phase (some up) now e = ground arith

idles-flood_edge :
    (x : Sight) (flood : Bool) (e : Engine) → idles e ≡ false → idles (flood_edge x flood e) ≡ false
unfolding flood_edge limits_apply flood_open open_watches flood_close close_gates drop_check
    heater_set_pct
idles-flood_edge x true e h = grind (arith, phase-ask_check, idles-open_phase)
idles-flood_edge x false e h = ground arith

idles-warm_hold : (x : Sight) (e : Engine) → idles e ≡ false → idles (warm_hold x e) ≡ false
unfolding warm_hold warm_at warm_release heater_set_pct fans_run
idles-warm_hold x e h = grind (arith, phase-ask_check)

phase-sensors : (x : Sight) (e : Engine) → (sensors x e).phase ≡ e.phase
unfolding sensors sensors_back sensors_lost blinded heater_set_pct
phase-sensors x e = grind (arith, phase-ask_check)

phase-flow_check : (x : Sight) (e : Engine) → (flow_check x e).phase ≡ e.phase
unfolding flow_check check_tick check_end_at check_verdict fault_noted check_due heater_set_pct
phase-flow_check x e = ground arith

phase-suspicion : (now : ℕ) (e : Engine) → (suspicion now e).phase ≡ e.phase
unfolding suspicion fault_noted
phase-suspicion now e = ground arith

phase-check_gate : (x : Sight) (e : Engine) → (check_gate x e).phase ≡ e.phase
unfolding check_gate check_start_at flow_check_start heater_set_pct
phase-check_gate x e = ground arith

phase-flow_part : (x : Sight) (e : Engine) → (flow_part x e).phase ≡ e.phase
unfolding flow_part
phase-flow_part x e = grind (arith, phase-check_gate, phase-suspicion, phase-flow_check)

-- The duty last written to each fan.
abbrev pub last_assist : List Write → Option ℕ
last_assist [] = none
last_assist (wr_air_assist d ∷ l) = some d
last_assist (_ ∷ l) = last_assist l

abbrev pub last_exhaust : List Write → Option ℕ
last_exhaust [] = none
last_exhaust (wr_exhaust d ∷ l) = some d
last_exhaust (_ ∷ l) = last_exhaust l

abbrev pub last_intake : List Write → Option ℕ
last_intake [] = none
last_intake (wr_intake d ∷ l) = some d
last_intake (_ ∷ l) = last_intake l

-- The fans stand at their idle duties: the exhaust and the intake off, the air assist at a fifth of
-- its 1023, or off under a quiet hold.
pub record FansIdle (e : Engine) : Type 0 where
  pub assist : last_assist e.log ≡ some (if e.quiet_held then 0 else 204)
  pub exhaust : last_exhaust e.log ≡ some 0
  pub intake : last_intake e.log ≡ some 0

-- The kernel is done, and the time is up or the reading back at the resume gate.
idles-cooldown :
    (x : Sight) (e : Engine)
    → idles e ≡ false
    → idles (cooldown x e) ≡ true
    → (x.running_last ≡ false) × FansIdle (cooldown x e)
unfolding cooldown smoke_end thermal_end fans_cool fans_idle
idles-cooldown x e h i =
    (ground arith, record { assist = ground arith; exhaust = ground arith; intake = ground arith })

FansIdle-tec_part : (x : Sight) (e : Engine) → FansIdle e → FansIdle (tec_part x e)
unfolding tec_part tec_write tec_switch
FansIdle-tec_part x e v = ground arith

idles-watches : (x : Sight) (e : Engine) → idles e ≡ false → idles (watches x e) ≡ false
unfolding watches take_report
idles-watches x e h =
    let a = alive x e in
    let told = flood_edge x (flood_at x a) (heeded x a) in
    let lit = fire_watch x (emission_watch x told) in
    let armed = arm_chip x (hv_watch x lit) in
    let later : core (crash_poll x armed) ≡ core told =
      core-crash_poll x armed
      ∙ core-arm_chip x (hv_watch x lit)
      ∙ core-hv_watch x lit
      ∙ core-fire_watch x (emission_watch x told)
      ∙ core-emission_watch x told in
    let before : core (heeded x a) ≡ core e =
      core-heeded x a
      ∙ core-dead_man x (limits_apply (fresh x e) e)
      ∙ core-limits_apply (fresh x e) e in
    ap core_idles later ∙ idles-flood_edge x (flood_at x a) (heeded x a) (ap core_idles before ∙ h)

idles-gates : (x : Sight) (e : Engine) → idles e ≡ false → idles (gates x e) ≡ false
unfolding gates
idles-gates x e h =
    let blown = airflow_gates x e in
    let felt = sensors x blown in
    let bounded = cold_floor x (ceiling x felt) in
    let p =
      ap core_idles (core-cold_floor x (ceiling x felt) ∙ core-ceiling x felt)
      ∙ ap is_idle_phase (phase-sensors x blown)
      ∙ ap core_idles (core-airflow_gates x e) in
    ap core_idles (core-critical_line x (warm_hold x bounded)) ∙ idles-warm_hold x bounded (p ∙ h)

-- A tick takes the engine from another phase into the idle phase only where the kernel is not
-- running as the phases are judged, and then the duties that it has written last are the fans' idle
-- duties.
pub idle_when_done :
    (x : Sight) (e : Engine)
    → is_idle_phase e.phase ≡ false
    → is_idle_phase (engine_tick x e).phase ≡ true
    → (x.running_last ≡ false) × FansIdle (engine_tick x e)
unfolding engine_tick verdict_publish closing
idle_when_done x e h =
    let g = gates x (watches x e) in
    let started = start_stood_down x (flow_part x g) in
    let p =
      ap core_idles (core-start_stood_down x (flow_part x g))
      ∙ ap is_idle_phase (phase-flow_part x g) in
    if_holds (λ (g : Engine). idles g ≡ true → (x.running_last ≡ false) × FansIdle g) e.diag_owned _
      _ (λ d i. absurd (ground (arith, h, i)))
      (λ d i.
        let (stopped, fans) =
          idles-cooldown x started (p ∙ idles-gates x (watches x e) (idles-watches x e h))
            (sym (ap core_idles (core-tec_part x (cooldown x started))) ∙ i) in
        let v = FansIdle-tec_part x (cooldown x started) fans in
        (stopped, record { assist = v.assist; exhaust = v.exhaust; intake = v.intake }))
