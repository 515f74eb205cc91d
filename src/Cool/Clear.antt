-- ===== src/Cool/Clear.antt =====
-- The effective limits through a tick of src/cool.c.
use forgectrl.Prelude.{
  ℕ, ◌≤◌, Bool, true, false, Option, none, some, ◌≡◌, ◌⊎◌, sym, subst, ap, ◌∙◌, if_holds, arith,
}
use forgectrl.Gates.Table.{gate_effective}
use forgectrl.Cool.State.{Config, Report, Engine, Sight, deg}
use forgectrl.Cool.Fans.{fans_verify, fans_run, fans_idle, heater_set_pct}
use forgectrl.Cool.Limits.{conf_reload, limits_apply, limits_of}
use forgectrl.Cool.Session.{
  ask_check, open_phase, open_warm, open_gates, open_watches, flood_open, close_gates, drop_check,
  flood_close,
}
use forgectrl.Cool.Watches.{
  fresh_at, fresh, flood_at, heeded, flood_edge, take_report, emission_watch, fire_signal,
  fire_watch, hv_watch, arm_chip, crash_signal, crash_unread, crash_poll,
}
use forgectrl.Cool.Airflow.{judge_airflow, airflow_gates}
use forgectrl.Cool.Coolant.{
  sensors, ceiling_at, ceiling, over_set, cool_released, cold_floor, warm_hold, critical_line,
}
use forgectrl.Cool.Tick.{watches, gates}
use forgectrl.Cool.Sky.{
  Sky, lims, sky-fans_cool, sky-fans_apply_phase, sky-emission_watch, sky-hv_watch, sky-arm_chip,
  sky-fans_verify, sky-sensors, sky-warm_hold,
}
use forgectrl.Cool.Alarms.{sky-heeded, alive, sky-alive, alive_report}

-- The limits in force are the settings', and the job's where that is the stricter.
unfoldable pub IsBounded : Config × (Report × (Bool × (Bool × (ℕ × (ℕ × ℕ))))) → Type 0
IsBounded (c, (r, (max_off, (floor_off, (top, (resume, least)))))) =
    ((max_off ≡ true)
      ⊎ ((resume ≤ top)
          × ((top ≤ deg c.temp_max_c) × ((r.lim.coolant_max ≡ 0) ⊎ (top ≤ deg r.lim.coolant_max)))))
    × ((floor_off ≡ true) ⊎ ((deg c.temp_min_c ≤ least) × (deg r.lim.coolant_min ≤ least)))

limits-IsBounded :
    (e : Engine) → e.conf.temp_resume_c ≤ e.conf.temp_max_c → IsBounded (lims (limits_apply true e))
unfolding IsBounded limits_apply limits_of gate_effective
limits-IsBounded e h = ground arith

lims-open_phase : (up : Option ℕ) (now : ℕ) (e : Engine) → lims (open_phase up now e) ≡ lims e
unfolding open_phase open_warm heater_set_pct fans_run fans_idle
lims-open_phase none now e = ground arith
lims-open_phase (some up) now e = ground arith

flood_open_conf : (x : Sight) (e : Engine) → (flood_open x e).conf ≡ x.settings
unfolding flood_open open_watches ask_check open_gates conf_reload
flood_open_conf x e =
    let ready = open_gates x.now (conf_reload x e) in
    let p = ap (λ l. l.0) (lims-open_phase x.up_at_open x.now ready) in ground (arith, p)

flood_open_report : (x : Sight) (e : Engine) → (flood_open x e).report ≡ e.report
unfolding flood_open open_watches ask_check open_gates conf_reload
flood_open_report x e =
    let ready = open_gates x.now (conf_reload x e) in
    let p = ap (λ l. l.1.0) (lims-open_phase x.up_at_open x.now ready) in ground (arith, p)

lims-flood_close : (x : Sight) (e : Engine) → lims (flood_close x e) ≡ lims e
unfolding flood_close close_gates drop_check heater_set_pct
lims-flood_close x e = ground arith

lims-fire_watch : (x : Sight) (e : Engine) → lims (fire_watch x e) ≡ lims e
unfolding fire_watch fire_signal fans_run
lims-fire_watch x e = ground arith

lims-crash_poll : (x : Sight) (e : Engine) → lims (crash_poll x e) ≡ lims e
unfolding crash_poll crash_signal crash_unread
lims-crash_poll x e = ground arith

pub lims-ceiling : (x : Sight) (e : Engine) → lims (ceiling x e) ≡ lims e
unfolding ceiling ceiling_at over_set cool_released
lims-ceiling x e = grind (arith, sky-fans_cool, sky-fans_apply_phase)

pub lims-cold_floor : (x : Sight) (e : Engine) → lims (cold_floor x e) ≡ lims e
unfolding cold_floor
lims-cold_floor x e = ground arith

lims-critical_line : (x : Sight) (e : Engine) → lims (critical_line x e) ≡ lims e
unfolding critical_line
lims-critical_line x e = ground arith

-- The settings that a tick can take over have their resume gate under their ceiling.
abbrev pub IsOrdered : Config → Type 0
IsOrdered c = c.temp_resume_c ≤ c.temp_max_c

edge-IsBounded :
    (x : Sight) (flood : Bool) (e : Engine)
    → IsOrdered x.settings
    → fresh x e ≡ true
    → IsBounded (lims e)
    → IsBounded (lims (flood_edge x flood e))
unfolding flood_edge
edge-IsBounded x true e o f h =
    let opened = flood_open x (record e { flood_on = true }) in
    if_holds (λ g. IsBounded (lims g)) e.flood_on e (limits_apply (fresh x e) opened) (λ on. h)
      (λ off.
        subst (λ b. IsBounded (lims (limits_apply b opened))) (sym f)
          (limits-IsBounded opened
            (subst IsOrdered (sym (flood_open_conf x (record e { flood_on = true }))) o)))
edge-IsBounded x false e o f h =
    let ended = record e { flood_on = false } in
    if_holds (λ g. IsBounded (lims g)) e.flood_on (flood_close x ended) e
      (λ on. subst IsBounded (sym (lims-flood_close x ended)) h) (λ off. h)

pub edge_report : (x : Sight) (flood : Bool) (e : Engine) → (flood_edge x flood e).report ≡ e.report
unfolding flood_edge limits_apply
edge_report x true e =
    let p = flood_open_report x (record e { flood_on = true }) in ground (arith, p)
edge_report x false e =
    let p = ap (λ l. l.1.0) (lims-flood_close x (record e { flood_on = false })) in
    ground (arith, p)

-- The watches of a tick, behind the report.
watched : Sight → Engine → Engine
watched x e = crash_poll x (arm_chip x (hv_watch x (fire_watch x (emission_watch x e))))

lims-watched : (x : Sight) (e : Engine) → lims (watched x e) ≡ lims e
unfolding watched
lims-watched x e =
    let seen = emission_watch x e in
    let lit = fire_watch x seen in
    lims-crash_poll x (arm_chip x (hv_watch x lit))
    ∙ ap (λ (s : Sky). s.0) (sky-arm_chip x (hv_watch x lit) ∙ sky-hv_watch x lit)
    ∙ lims-fire_watch x seen
    ∙ ap (λ (s : Sky). s.0) (sky-emission_watch x e)

pub watches_report : (x : Sight) (e : Engine) → (watches x e).report ≡ e.report
unfolding watches watched take_report
watches_report x e =
    ap (λ l. l.1.0) (lims-watched x (take_report x (alive x e)))
    ∙ edge_report x (flood_at x (alive x e)) (heeded x (alive x e))
    ∙ ap (λ (s : Sky). s.0.1.0) (sky-heeded x (alive x e))
    ∙ alive_report x e

pub watches-IsBounded :
    (x : Sight) (e : Engine)
    → IsOrdered x.settings
    → IsOrdered e.conf
    → fresh x e ≡ true
    → IsBounded (lims (watches x e))
unfolding watches watched take_report
watches-IsBounded x e o o' f =
    let a = alive x e in
    let h : IsBounded (lims (heeded x a)) =
      subst IsBounded
        (sym (ap (λ (s : Sky). s.0) (sky-heeded x a) ∙ ap (λ (s : Sky). s.0) (sky-alive x e)))
        (subst (λ b. IsBounded (lims (limits_apply b e))) (sym f) (limits-IsBounded e o')) in
    let r : fresh x (heeded x a) ≡ true =
      ap (λ r. fresh_at x.now r.at) (ap (λ (s : Sky). s.0.1.0) (sky-heeded x a) ∙ alive_report x e)
      ∙ f in
    subst IsBounded (sym (lims-watched x (take_report x a)))
      (edge-IsBounded x (flood_at x a) (heeded x a) o r h)

pub lims-felt : (x : Sight) (e : Engine) → lims (sensors x (airflow_gates x e)) ≡ lims e
unfolding airflow_gates judge_airflow
lims-felt x e =
    ap (λ (s : Sky). s.0) (sky-sensors x (judge_airflow x (fans_verify x e)))
    ∙ ap (λ (s : Sky). s.0) (sky-fans_verify x e)

-- The gates that follow keep the limits.
pub lims-gates : (x : Sight) (e : Engine) → lims (gates x e) ≡ lims e
unfolding gates
lims-gates x e =
    let felt = sensors x (airflow_gates x e) in
    let bounded = cold_floor x (ceiling x felt) in
    lims-critical_line x (warm_hold x bounded)
    ∙ ap (λ (s : Sky). s.0) (sky-warm_hold x bounded)
    ∙ lims-cold_floor x (ceiling x felt)
    ∙ lims-ceiling x felt
    ∙ lims-felt x e
