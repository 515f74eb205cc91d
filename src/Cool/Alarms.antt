-- ===== src/Cool/Alarms.antt =====
-- The faults of src/cool.c that stand to the session's end, through the parts of a tick.
use forgectrl.Prelude.{ℕ, Bool, true, not, ◌&&◌, ◌||◌, ◌≡◌, sym, subst, ap, ◌∙◌, arith}
use forgectrl.Cool.State.{Report, Engine, Sight}
use forgectrl.Cool.Fans.{fans_verify, fans_run}
use forgectrl.Cool.Limits.{limits_apply}
use forgectrl.Cool.Watches.{
  fresh_at, fresh, flood_at, armed_at, armed_rose, new_duty, heard, heeded, note_armed, dead_man,
  fire_signal, fire_judge, fire_watch, crash_signal, crash_unread, crash_poll,
}
use forgectrl.Crash.Watch.{crash_tick}
use forgectrl.Cool.Airflow.{judge_airflow, airflow_gates}
use forgectrl.Cool.Coolant.{
  sensors, ceiling_at, ceiling, over_set, cool_released, cold_floor, warm_hold, critical_line,
}
use forgectrl.Cool.Flow.{flow_part}
use forgectrl.Cool.Tick.{start_stood_down, cooldown, gates, closing}
use forgectrl.Cool.Sky.{
  sky, Sky, alarms, sky-dead_man, sky-quiet_release, sky-reapply_duty, sky-fans_cool,
  sky-fans_apply_phase, sky-fans_verify, sky-sensors, sky-warm_hold, sky-flow_part,
  sky-start_stood_down, sky-cooldown, sky-tec_part,
}

-- The lid's fire, the head's crash, the fans' fault or the critical line.
unfoldable pub any_alarm : Bool × (Bool × (Bool × Bool)) → Bool
any_alarm (fire, (crash, (air, critical))) = fire || (crash || (air || critical))

abbrev pub IsFaulted : Engine → Type 0
IsFaulted e = any_alarm (alarms e) ≡ true

pub same_sky : (e f : Engine) → sky f ≡ sky e → IsFaulted e → IsFaulted f
same_sky e f p h = subst (λ (s : Sky). any_alarm (s.1.0) ≡ true) (sym p) h

pub sky-closing : (x : Sight) (e : Engine) → sky (closing x e) ≡ sky e
unfolding closing
sky-closing x e =
    let flowed = flow_part x e in
    let started = start_stood_down x flowed in
    sky-tec_part x (cooldown x started)
    ∙ sky-cooldown x started
    ∙ sky-start_stood_down x flowed
    ∙ sky-flow_part x e

pub fire_watch-IsFaulted : (x : Sight) (e : Engine) → IsFaulted e → IsFaulted (fire_watch x e)
unfolding fire_watch fire_signal any_alarm fire_judge fans_run
fire_watch-IsFaulted x e h = ground arith

pub crash_poll-IsFaulted : (x : Sight) (e : Engine) → IsFaulted e → IsFaulted (crash_poll x e)
unfolding crash_poll crash_signal crash_unread any_alarm crash_tick
crash_poll-IsFaulted x e h = ground arith

judge-IsFaulted : (x : Sight) (e : Engine) → IsFaulted e → IsFaulted (judge_airflow x e)
unfolding judge_airflow any_alarm
judge-IsFaulted x e h = ground arith

pub alarms-ceiling : (x : Sight) (e : Engine) → alarms (ceiling x e) ≡ alarms e
unfolding ceiling ceiling_at over_set cool_released
alarms-ceiling x e = grind (arith, sky-fans_cool, sky-fans_apply_phase)

pub alarms-cold_floor : (x : Sight) (e : Engine) → alarms (cold_floor x e) ≡ alarms e
unfolding cold_floor
alarms-cold_floor x e = ground arith

critical-IsFaulted : (x : Sight) (e : Engine) → IsFaulted e → IsFaulted (critical_line x e)
unfolding critical_line any_alarm
critical-IsFaulted x e h = ground arith

pub gates-IsFaulted : (x : Sight) (e : Engine) → IsFaulted e → IsFaulted (gates x e)
unfolding gates airflow_gates
gates-IsFaulted x e h =
    let blown = judge_airflow x (fans_verify x e) in
    let felt = sensors x blown in
    let bounded = cold_floor x (ceiling x felt) in
    let g = same_sky blown felt (sky-sensors x blown) (
      judge-IsFaulted x (fans_verify x e) (same_sky e (fans_verify x e) (sky-fans_verify x e) h)) in
    let c = alarms-cold_floor x (ceiling x felt) ∙ alarms-ceiling x felt in
    critical-IsFaulted x (warm_hold x bounded) (
      same_sky bounded (warm_hold x bounded) (sky-warm_hold x bounded)
        (subst (λ a. any_alarm a ≡ true) (sym c) g))

pub sky-heeded :
    (x : Sight) (e : Engine) → sky (heeded x e) ≡ sky (record e { eff_armed = armed_at x e })
unfolding heeded heard note_armed
sky-heeded x e =
    sky-reapply_duty x.now (new_duty x e) (note_armed (flood_at x e) (armed_at x e) (heard x e))
    ∙ sky-quiet_release x.now ((flood_at x e && not e.flood_on) || armed_rose x e)
        (record e { run_duty = e.report.duty; eff_armed = armed_at x e })

-- What the tick makes of its report, before the report is taken over.
abbrev pub alive : Sight → Engine → Engine
alive x e = dead_man x (limits_apply (fresh x e) e)

abbrev pub flood_of : ℕ → Report → Bool
flood_of now r = fresh_at now r.at && (r.mode_run || r.armed)

pub sky-alive : (x : Sight) (e : Engine) → sky (alive x e) ≡ sky (limits_apply (fresh x e) e)
sky-alive x e = sky-dead_man x (limits_apply (fresh x e) e)

pub alive_report : (x : Sight) (e : Engine) → (alive x e).report ≡ e.report
unfolding limits_apply
alive_report x e = ap (λ (s : Sky). s.0.1.0) (sky-alive x e)

pub alive_flood : (x : Sight) (e : Engine) → (alive x e).flood_on ≡ e.flood_on
unfolding limits_apply
alive_flood x e = ap (λ (s : Sky). s.1.1.1.1.0) (sky-alive x e)
