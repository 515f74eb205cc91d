-- ===== src/Cool/Faults.antt =====
-- The faults of src/cool.c that stand to the end of the run session.
use forgectrl.Prelude.{
  Bool, true, false, List, [], ◌∷◌, none, some, ◌≡◌, refl, sym, subst, ap, ◌∙◌, if_holds, arith,
}
use forgectrl.Cool.State.{Engine, Sight}
use forgectrl.Cool.Fans.{fans_idle, heater_set_pct, cool_quiet_hold_ex}
use forgectrl.Cool.Limits.{limits_apply, limits_of}
use forgectrl.Cool.Watches.{
  fresh, flood_at, heeded, flood_edge, take_report, emission_watch, fire_watch, hv_watch, arm_chip,
}
use forgectrl.Cool.Tick.{verdict_of, verdict_publish, watches, gates, closing, engine_tick}
use forgectrl.Cool.Calls.{
  Act, a_tick, a_report, a_stopped, a_take, a_release, a_fans_run, a_fans_idle, a_pump, a_purge,
  a_heater, a_aa, a_hold, a_quiet, act, acts, cool_state_report, cool_controller_stopped,
  cool_diag_take, cool_diag_release, cool_diag_fans_run, cool_diag_fans_idle, cool_diag_pump,
  cool_diag_purge, cool_diag_heater_pct, cool_diag_aa, cool_flow_check_hold,
}
use forgectrl.Cool.Sky.{
  Sky, alarms, sky-cool_quiet_hold_ex, sky-emission_watch, sky-hv_watch, sky-arm_chip,
}
use forgectrl.Cool.Alarms.{
  any_alarm, IsFaulted, same_sky, sky-closing, fire_watch-IsFaulted, crash_poll-IsFaulted,
  gates-IsFaulted, sky-heeded, alive, flood_of, sky-alive, alive_report, alive_flood,
}

edge_stays : (x : Sight) (flood : Bool) (e : Engine) → flood ≡ e.flood_on → flood_edge x flood e ≡ e
unfolding flood_edge
edge_stays x true e p = ground arith
edge_stays x false e p = ground arith

-- Without an edge of the run session, the report changes no fault.
report-stays : (x : Sight) (e : Engine) → flood_at x e ≡ e.flood_on → take_report x e ≡ heeded x e
unfolding take_report
report-stays x e p =
    edge_stays x (flood_at x e) (heeded x e)
      (p ∙ sym (ap (λ (s : Sky). s.1.1.1.1.0) (sky-heeded x e)))

told-IsFaulted :
    (x : Sight) (e : Engine)
    → flood_at x e ≡ e.flood_on
    → IsFaulted e
    → IsFaulted (take_report x (alive x e))
unfolding limits_apply limits_of
told-IsFaulted x e p h =
    let same = ap (λ r. flood_of x.now r) (alive_report x e) ∙ p ∙ sym (alive_flood x e) in
    let a : alarms (heeded x (alive x e)) ≡ alarms e =
      ap (λ (s : Sky). s.1.0) (sky-heeded x (alive x e))
      ∙ ap (λ (s : Sky). s.1.0) (sky-alive x e) in
    subst IsFaulted (sym (report-stays x (alive x e) same))
      (subst (λ b. any_alarm b ≡ true) (sym a) h)

watches-IsFaulted :
    (x : Sight) (e : Engine) → flood_at x e ≡ e.flood_on → IsFaulted e → IsFaulted (watches x e)
unfolding watches
watches-IsFaulted x e p h =
    let told = take_report x (alive x e) in
    let seen = emission_watch x told in
    let lit = fire_watch x seen in
    let armed = arm_chip x (hv_watch x lit) in
    crash_poll-IsFaulted x armed (
      same_sky lit armed (sky-arm_chip x (hv_watch x lit) ∙ sky-hv_watch x lit) (
        fire_watch-IsFaulted x seen
          (same_sky told seen (sky-emission_watch x told) (told-IsFaulted x e p h))))

-- No tick among what happens opens or ends a run session.
abbrev pub IsEdgeless : Act → Engine → Type 0
IsEdgeless (a_tick x) e = flood_at x e ≡ e.flood_on
IsEdgeless (a_report now mode armed duty lim) e = Unit
IsEdgeless a_stopped e = Unit
IsEdgeless a_take e = Unit
IsEdgeless a_release e = Unit
IsEdgeless a_fans_run e = Unit
IsEdgeless a_fans_idle e = Unit
IsEdgeless (a_pump on) e = Unit
IsEdgeless (a_purge on) e = Unit
IsEdgeless (a_heater pct) e = Unit
IsEdgeless (a_aa duty) e = Unit
IsEdgeless (a_hold now on) e = Unit
IsEdgeless (a_quiet now on with_pump) e = Unit

unfoldable pub InSession : List Act → Engine → Type 0
InSession [] e = Unit
InSession (a ∷ rest) e = IsEdgeless a e × InSession rest (act a e)

tick-IsFaulted :
    (x : Sight) (e : Engine) → flood_at x e ≡ e.flood_on → IsFaulted e → IsFaulted (engine_tick x e)
unfolding engine_tick verdict_publish
tick-IsFaulted x e p h =
    let seen = watches x e in
    if_holds IsFaulted e.diag_owned _ _ (λ d. h)
      (λ d.
        same_sky (gates x seen) (closing x (gates x seen)) (sky-closing x (gates x seen))
          (gates-IsFaulted x seen (watches-IsFaulted x e p h)))

act-IsFaulted : (a : Act) (e : Engine) → IsEdgeless a e → IsFaulted e → IsFaulted (act a e)
unfolding act
act-IsFaulted (a_tick x) e p h = tick-IsFaulted x e p h
act-IsFaulted (a_report now mode armed duty lim) e p h =
    unfold cool_state_report any_alarm in ground arith
act-IsFaulted a_stopped e p h = unfold cool_controller_stopped in h
act-IsFaulted a_take e p h = unfold cool_diag_take any_alarm in ground arith
act-IsFaulted a_release e p h =
    unfold cool_diag_release fans_idle heater_set_pct any_alarm in ground arith
act-IsFaulted a_fans_run e p h = unfold cool_diag_fans_run any_alarm in ground arith
act-IsFaulted a_fans_idle e p h = unfold cool_diag_fans_idle any_alarm in ground arith
act-IsFaulted (a_pump on) e p h = unfold cool_diag_pump any_alarm in ground arith
act-IsFaulted (a_purge on) e p h = unfold cool_diag_purge any_alarm in ground arith
act-IsFaulted (a_heater none) e p h =
    unfold cool_diag_heater_pct heater_set_pct any_alarm in ground arith
act-IsFaulted (a_heater (some pct)) e p h =
    unfold cool_diag_heater_pct heater_set_pct any_alarm in ground arith
act-IsFaulted (a_aa duty) e p h = unfold cool_diag_aa any_alarm in ground arith
act-IsFaulted (a_hold now on) e p h = unfold cool_flow_check_hold in h
act-IsFaulted (a_quiet now on with_pump) e p h =
    same_sky e (cool_quiet_hold_ex now on with_pump e) (sky-cool_quiet_hold_ex now on with_pump e) h

acts-IsFaulted :
    (happens : List Act) (e : Engine)
    → InSession happens e
    → IsFaulted e
    → IsFaulted (acts happens e)
unfolding acts InSession
acts-IsFaulted [] e p h = h
acts-IsFaulted (a ∷ rest) e (p, ps) h = acts-IsFaulted rest (act a e) ps (act-IsFaulted a e p h)

-- What a verdict says of a faulted engine.
verdict-IsFaulted :
    (is_fresh ext : Bool) (e : Engine)
    → IsFaulted e
    → ((verdict_of is_fresh ext e).fire_ok ≡ false) × ((verdict_of is_fresh ext e).hold ≡ true)
unfolding verdict_of any_alarm
verdict-IsFaulted is_fresh ext e h = ground arith

-- A fault of the lid's fire watch, the head's crash watch, the fans or the critical line stands
-- through whatever ticks and calls follow, while no tick opens or ends a run session: every further
-- such tick publishes that the laser may not fire and that the job is held.
pub fault_stands :
    (happens : List Act) (x : Sight) (e : Engine)
    → IsFaulted e
    → InSession happens e
    → flood_at x (acts happens e) ≡ (acts happens e).flood_on
    → ((engine_tick x (acts happens e)).published.fire_ok ≡ false)
      × ((engine_tick x (acts happens e)).published.hold ≡ true)
unfolding engine_tick verdict_publish
fault_stands happens x e h ps p =
    let now = acts happens e in
    let seen = watches x now in
    let f = acts-IsFaulted happens e ps h in
    if_holds (λ (g : Engine). (g.published.fire_ok ≡ false) × (g.published.hold ≡ true))
      now.diag_owned _ _ (λ d. (refl, refl))
      (λ d. verdict-IsFaulted (fresh x now) x.ext_standing (closing x (gates x seen)) (
        same_sky (gates x seen) (closing x (gates x seen)) (sky-closing x (gates x seen))
          (gates-IsFaulted x seen (watches-IsFaulted x now p f))))
