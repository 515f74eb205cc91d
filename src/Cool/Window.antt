-- ===== src/Cool/Window.antt =====
-- The run session and the armed window through the parts of a tick of src/cool.c.
use forgectrl.Prelude.{ℕ, Bool, true, false, ◌&&◌, ◌||◌, Option, none, some, ◌≡◌, ap, ◌∙◌, arith}
use forgectrl.Cool.State.{Report, Engine, Sight}
use forgectrl.Cool.Fans.{fans_run, fans_idle, heater_set_pct}
use forgectrl.Cool.Limits.{conf_reload, limits_apply}
use forgectrl.Cool.Session.{
  ask_check, open_phase, open_warm, open_gates, open_watches, flood_open, close_gates, drop_check,
  flood_close,
}
use forgectrl.Cool.Watches.{
  fresh_at, flood_at, armed_at, heeded, flood_edge, take_report, emission_watch, fire_signal,
  fire_watch, hv_watch, arm_chip, crash_signal, crash_unread, crash_poll,
}
use forgectrl.Cool.Airflow.{airflow_gates}
use forgectrl.Cool.Coolant.{
  sensors, ceiling_at, ceiling, over_set, cool_released, cold_floor, warm_hold, critical_line,
}
use forgectrl.Cool.Tick.{watches, gates}
use forgectrl.Cool.Sky.{
  Sky, ack, sky-fans_cool, sky-fans_apply_phase, sky-emission_watch, sky-hv_watch, sky-arm_chip,
  sky-sensors, sky-warm_hold,
}
use forgectrl.Cool.Alarms.{sky-heeded, alive, alive_report}

-- The session and the window, as the watches leave them.
abbrev pub window : Engine → Bool × Bool
window e = (e.eff_armed, e.flood_on)

window-open_phase : (up : Option ℕ) (now : ℕ) (e : Engine) → window (open_phase up now e) ≡ window e
unfolding open_phase open_warm heater_set_pct fans_run fans_idle
window-open_phase none now e = ground arith
window-open_phase (some up) now e = ground arith

window-flood_open : (x : Sight) (e : Engine) → window (flood_open x e) ≡ window e
unfolding flood_open open_watches ask_check open_gates conf_reload
window-flood_open x e =
    let p = window-open_phase x.up_at_open x.now (open_gates x.now (conf_reload x e)) in
    ground (arith, p)

window-flood_close : (x : Sight) (e : Engine) → window (flood_close x e) ≡ window e
unfolding flood_close close_gates drop_check heater_set_pct
window-flood_close x e = ground arith

window-flood_edge :
    (x : Sight) (flood : Bool) (e : Engine) → window (flood_edge x flood e) ≡ (e.eff_armed, flood)
unfolding flood_edge limits_apply
window-flood_edge x true e =
    let p = window-flood_open x (record e { flood_on = true }) in ground (arith, p)
window-flood_edge x false e =
    let p = window-flood_close x (record e { flood_on = false }) in ground (arith, p)

window-fire_watch : (x : Sight) (e : Engine) → window (fire_watch x e) ≡ window e
unfolding fire_watch fire_signal fans_run
window-fire_watch x e = ground arith

window-crash_poll : (x : Sight) (e : Engine) → window (crash_poll x e) ≡ window e
unfolding crash_poll crash_signal crash_unread
window-crash_poll x e = ground arith

-- The window of a part of the sky.
abbrev pub of_sky : Sky → Bool × Bool
of_sky s = (s.1.1.1.0, s.1.1.1.1.0)

pub window-watches : (x : Sight) (e : Engine) → window (watches x e) ≡ (armed_at x e, flood_at x e)
unfolding watches take_report
window-watches x e =
    let a = alive x e in
    let told = flood_edge x (flood_at x a) (heeded x a) in
    let seen = emission_watch x told in
    let lit = fire_watch x seen in
    let r = alive_report x e in
    window-crash_poll x (arm_chip x (hv_watch x lit))
    ∙ ap of_sky (sky-arm_chip x (hv_watch x lit))
    ∙ ap of_sky (sky-hv_watch x lit)
    ∙ window-fire_watch x seen
    ∙ ap of_sky (sky-emission_watch x told)
    ∙ window-flood_edge x (flood_at x a) (heeded x a)
    ∙ ap (λ (s : Sky). (s.1.1.1.0, flood_at x a)) (sky-heeded x a)
    ∙ ap
        (λ (r : Report).
          (fresh_at x.now r.at && r.armed, fresh_at x.now r.at && (r.mode_run || r.armed)))
        r

ack-ceiling : (x : Sight) (e : Engine) → ack (ceiling x e) ≡ ack e
unfolding ceiling ceiling_at over_set cool_released
ack-ceiling x e = grind (arith, sky-fans_cool, sky-fans_apply_phase)

ack-cold_floor : (x : Sight) (e : Engine) → ack (cold_floor x e) ≡ ack e
unfolding cold_floor
ack-cold_floor x e = ground arith

ack-critical_line : (x : Sight) (e : Engine) → ack (critical_line x e) ≡ ack e
unfolding critical_line
ack-critical_line x e = ground arith

pub ack-gates : (x : Sight) (e : Engine) → ack (gates x e) ≡ ack (airflow_gates x e)
unfolding gates
ack-gates x e =
    let felt = sensors x (airflow_gates x e) in
    let bounded = cold_floor x (ceiling x felt) in
    ack-critical_line x (warm_hold x bounded)
    ∙ ap (λ (s : Sky). s.1.1.1) (sky-warm_hold x bounded)
    ∙ ack-cold_floor x (ceiling x felt)
    ∙ ack-ceiling x felt
    ∙ ap (λ (s : Sky). s.1.1.1) (sky-sensors x (airflow_gates x e))
