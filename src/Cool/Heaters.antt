-- ===== src/Cool/Heaters.antt =====
-- The invariant of the heater through the ticks and the calls of src/cool.c.
use forgectrl.Prelude.{
  Bool, true, false, not, ◌&&◌, ◌||◌, List, [], ◌∷◌, none, some, ◌≡◌, ◌⊎◌, inl, inr, refl, sym,
  subst, ap, ◌∙◌, if◌then◌else◌, if_holds, Bool-cases, arith,
}
use forgectrl.Cool.State.{Config, Engine, Sight}
use forgectrl.Cool.Fans.{
  heater_set_pct, fans_idle, fans_cool, cool_quiet_hold_ex, is_run, is_warmup,
}
use forgectrl.Cool.Limits.{conf_reload, limits_apply}
use forgectrl.Cool.Session.{
  ask_check, open_phase, open_gates, open_watches, flood_open, flood_close,
}
use forgectrl.Cool.Watches.{
  flood_edge, armed_rose, heard, heeded, new_duty, note_armed, take_report, dead_man, fire_watch,
  emission_watch, hv_watch, arm_chip, crash_poll, fresh, flood_at, armed_at,
}
use forgectrl.Cool.Airflow.{airflow_gates}
use forgectrl.Cool.Coolant.{sensors, ceiling, cold_floor, warm_hold, critical_line}
use forgectrl.Cool.Flow.{flow_part}
use forgectrl.Cool.Tick.{
  is_idle_phase, cooldown, start_stood_down, tec_part, verdict_publish, watches, gates, closing,
  engine_tick,
}
use forgectrl.Cool.Calls.{
  Act, a_tick, a_report, a_stopped, a_take, a_release, a_fans_run, a_fans_idle, a_pump, a_purge,
  a_heater, a_aa, a_hold, a_quiet, act, acts, statics, cool_state_report, cool_controller_stopped,
  cool_diag_take, cool_diag_release, cool_diag_fans_run, cool_diag_fans_idle, cool_diag_pump,
  cool_diag_purge, cool_diag_heater_pct, cool_diag_aa, cool_flow_check_hold, cool_init,
}
use forgectrl.Cool.Heat.{
  core, core-dead_man, core-limits_apply, core-note_armed, core-cool_quiet_hold_ex,
  core-quiet_release, core-reapply_duty, core-emission_watch, core-fire_watch, core-hv_watch,
  core-arm_chip, core-crash_poll, core-airflow_gates, core-ceiling, core-cold_floor,
  core-critical_line, core-start_stood_down, core-tec_part,
}
use forgectrl.Cool.Heating.{
  IsHeated, heat_ok, ask-IsHeated, cooldown-IsHeated, warm-IsHeated, sensors-IsHeated,
  flow-IsHeated, close-IsHeated, open_phase-IsHeated,
}

-- What keeps the part keeps the invariant.
pub kept : (e f : Engine) → core f ≡ core e → IsHeated e → IsHeated f
kept e f p h = subst (λ c. heat_ok c ≡ true) (sym p) h

flood_open-IsHeated :
    (x : Sight) (e : Engine)
    → e.flood_on ≡ true
    → e.flow.active ≡ false
    → e.flow.pending ≡ false
    → e.diag_owned ≡ false
    → e.heater_pct ≡ 0
    → IsHeated (flood_open x e)
unfolding flood_open open_watches open_gates conf_reload
flood_open-IsHeated x e on idle none_waits own cold =
    let ready = open_gates x.now (conf_reload x e) in
    let opened = open_phase x.up_at_open x.now ready in
    let h = open_phase-IsHeated x.up_at_open x.now ready on idle none_waits own cold in
    if_holds IsHeated (is_run opened.phase) (ask_check x.now opened) opened
      (λ r. ask-IsHeated x.now opened r h) (λ r. h)

-- Where no session stands and no diagnostic has the engine, no check and no heat is on.
rests :
    (e : Engine)
    → IsHeated e
    → e.flood_on ≡ false
    → e.diag_owned ≡ false
    → (e.flow.active ≡ false) × ((e.flow.pending ≡ false) × (e.heater_pct ≡ 0))
unfolding heat_ok
rests e h off own = ground arith

edge-IsHeated :
    (x : Sight) (flood : Bool) (e : Engine)
    → e.diag_owned ≡ false
    → IsHeated e
    → IsHeated (flood_edge x flood e)
unfolding flood_edge
edge-IsHeated x true e own h = elim (Bool-cases e.flood_on) [
  | inl on ↦
      subst
        (λ b.
          IsHeated (
            if b
            then e
            else limits_apply (fresh x e) (flood_open x (record e { flood_on = true }))))
        (sym on) h
  | inr off ↦
      let idle = rests e h off own in
      let opened = flood_open x (record e { flood_on = true }) in
      subst (λ b. IsHeated (if b then e else limits_apply (fresh x e) opened)) (sym off)
        (kept opened (limits_apply (fresh x e) opened) (core-limits_apply (fresh x e) opened) (
          flood_open-IsHeated x (record e { flood_on = true }) refl (idle.0) (idle.1.0) own
            (idle.1.1)))
]
edge-IsHeated x false e own h =
    if_holds IsHeated e.flood_on (flood_close x (record e { flood_on = false })) e
      (λ on. close-IsHeated x e h on) (λ off. h)

core-heard : (x : Sight) (e : Engine) → core (heard x e) ≡ core e
unfolding heard
core-heard x e =
    core-quiet_release x.now ((flood_at x e && not e.flood_on) || armed_rose x e)
      (record e { run_duty = e.report.duty; eff_armed = armed_at x e })

pub core-heeded : (x : Sight) (e : Engine) → core (heeded x e) ≡ core e
unfolding heeded
core-heeded x e =
    core-reapply_duty x.now (new_duty x e) (note_armed (flood_at x e) (armed_at x e) (heard x e))
    ∙ core-note_armed (flood_at x e) (armed_at x e) (heard x e)
    ∙ core-heard x e

report-IsHeated :
    (x : Sight) (e : Engine) → e.diag_owned ≡ false → IsHeated e → IsHeated (take_report x e)
unfolding take_report
report-IsHeated x e own h =
    edge-IsHeated x (flood_at x e) (heeded x e) (ap (λ c. c.1.1.1.1.1) (core-heeded x e) ∙ own)
      (kept e (heeded x e) (core-heeded x e) h)

pub watches-IsHeated :
    (x : Sight) (e : Engine) → e.diag_owned ≡ false → IsHeated e → IsHeated (watches x e)
unfolding watches
watches-IsHeated x e own h =
    let limited = limits_apply (fresh x e) e in
    let alive = dead_man x limited in
    let p = core-dead_man x limited ∙ core-limits_apply (fresh x e) e in
    let told = take_report x alive in
    let lit = fire_watch x (emission_watch x told) in
    let armed = arm_chip x (hv_watch x lit) in
    kept told (crash_poll x armed)
      (core-crash_poll x armed
        ∙ core-arm_chip x (hv_watch x lit)
        ∙ core-hv_watch x lit
        ∙ core-fire_watch x (emission_watch x told)
        ∙ core-emission_watch x told)
      (report-IsHeated x alive (ap (λ c. c.1.1.1.1.1) p ∙ own) (kept e alive p h))

gates-IsHeated : (x : Sight) (e : Engine) → IsHeated e → IsHeated (gates x e)
unfolding gates
gates-IsHeated x e h =
    let blown = airflow_gates x e in
    let felt = sensors x blown in
    let bounded = cold_floor x (ceiling x felt) in
    let held = warm_hold x bounded in
    kept held (critical_line x held) (core-critical_line x held) (
      warm-IsHeated x bounded (
        kept felt bounded (core-cold_floor x (ceiling x felt) ∙ core-ceiling x felt)
          (sensors-IsHeated x blown (kept e blown (core-airflow_gates x e) h))))

closing-IsHeated : (x : Sight) (e : Engine) → IsHeated e → IsHeated (closing x e)
unfolding closing
closing-IsHeated x e h =
    let flowed = flow_part x e in
    let started = start_stood_down x flowed in
    let cooled = cooldown x started in
    kept cooled (tec_part x cooled) (core-tec_part x cooled) (
      cooldown-IsHeated x started
        (kept flowed started (core-start_stood_down x flowed) (flow-IsHeated x e h)))

engine_tick-IsHeated : (x : Sight) (e : Engine) → IsHeated e → IsHeated (engine_tick x e)
unfolding engine_tick verdict_publish
engine_tick-IsHeated x e h =
    if_holds IsHeated e.diag_owned _ _ (λ own. h)
      (λ own.
        closing-IsHeated x (gates x (watches x e))
          (gates-IsHeated x (watches x e) (watches-IsHeated x e own h)))

act-IsHeated : (a : Act) (e : Engine) → IsHeated e → IsHeated (act a e)
unfolding act heat_ok
act-IsHeated (a_tick x) e h = engine_tick-IsHeated x e h
act-IsHeated (a_report now mode armed duty lim) e h = unfold cool_state_report in ground arith
act-IsHeated a_stopped e h = unfold cool_controller_stopped in h
act-IsHeated a_take e h = unfold cool_diag_take in ground arith
act-IsHeated a_release e h = unfold cool_diag_release fans_idle heater_set_pct in ground arith
act-IsHeated a_fans_run e h = unfold cool_diag_fans_run in ground arith
act-IsHeated a_fans_idle e h = unfold cool_diag_fans_idle in ground arith
act-IsHeated (a_pump on) e h = unfold cool_diag_pump in ground arith
act-IsHeated (a_purge on) e h = unfold cool_diag_purge in ground arith
act-IsHeated (a_heater none) e h = unfold cool_diag_heater_pct heater_set_pct in ground arith
act-IsHeated (a_heater (some pct)) e h = unfold cool_diag_heater_pct heater_set_pct in ground arith
act-IsHeated (a_aa duty) e h = unfold cool_diag_aa in ground arith
act-IsHeated (a_hold now on) e h = unfold cool_flow_check_hold in ground arith
act-IsHeated (a_quiet now on with_pump) e h =
    kept e (cool_quiet_hold_ex now on with_pump e) (core-cool_quiet_hold_ex now on with_pump e) h

pub acts-IsHeated : (happens : List Act) (e : Engine) → IsHeated e → IsHeated (acts happens e)
unfolding acts
acts-IsHeated [] e h = h
acts-IsHeated (a ∷ rest) e h = acts-IsHeated rest (act a e) (act-IsHeated a e h)

pub started-IsHeated : (x : Sight) (c : Config) → IsHeated (cool_init x (statics c))
unfolding cool_init conf_reload fans_idle fans_cool heater_set_pct heat_ok
started-IsHeated x c = ground arith

-- The heater is off, or heats for one of the three.
abbrev pub HasReason : Engine → Type 0
HasReason e =
    (e.heater_pct ≡ 0)
    ⊎ ((is_warmup e.phase ≡ true) × (e.flood_on ≡ true)
        ⊎ ((e.flow.active ≡ true) × ((is_run e.phase ≡ true) × (e.flood_on ≡ true))
            ⊎ (e.diag_owned ≡ true) × ((is_idle_phase e.phase ≡ true) × (e.flood_on ≡ false))))

heat_sources : (e : Engine) → IsHeated e → HasReason e
unfolding heat_ok
heat_sources e h = ground arith

-- Whatever ticks and calls there are from the start on, the loop heater is commanded off, but for a
-- warm-up of an open run session, a flow check in the run of an open session, and a diagnostic that
-- has the engine while it is idle with no session open.
pub heater_has_a_reason :
    (x : Sight) (c : Config) (happens : List Act)
    → HasReason (acts happens (cool_init x (statics c)))
heater_has_a_reason x c happens =
    heat_sources (acts happens (cool_init x (statics c)))
      (acts-IsHeated happens (cool_init x (statics c)) (started-IsHeated x c))
