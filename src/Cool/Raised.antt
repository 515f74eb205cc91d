-- ===== src/Cool/Raised.antt =====
-- What a new alarm of the fire watch or the crash watch does in a tick of src/cool.c.
use forgectrl.Prelude.{
  ℕ, Bool, true, false, ◌||◌, ◌≡◌, ◌⊎◌, inl, inr, refl, ap, ◌∙◌, if_holds, arith,
}
use forgectrl.Crash.Watch.{crash_tick}
use forgectrl.Cool.State.{Engine, Sight}
use forgectrl.Cool.Fans.{fans_run, heater_set_pct}
use forgectrl.Cool.Limits.{limits_apply}
use forgectrl.Cool.Session.{open_watches, flood_open, close_gates, drop_check, flood_close}
use forgectrl.Cool.Watches.{
  flood_at, heeded, flood_edge, take_report, emission_watch, fire_judge, fire_signal, fire_watch,
  hv_watch, arm_chip, crash_signal, crash_unread, crash_poll,
}
use forgectrl.Cool.Airflow.{judge_airflow, airflow_gates}
use forgectrl.Cool.Coolant.{sensors, ceiling, cold_floor, warm_hold, critical_line}
use forgectrl.Cool.Tick.{verdict_publish, watches, gates, engine_tick}
use forgectrl.Cool.Sky.{
  Sky, sky-emission_watch, sky-hv_watch, sky-arm_chip, sky-fans_verify, sky-sensors, sky-warm_hold,
}
use forgectrl.Cool.Alarms.{
  sky-heeded, alive, sky-alive, sky-closing, alarms-ceiling, alarms-cold_floor,
}
use forgectrl.Cool.Safing.{
  IsSafed, counts, emission_watch-Grows, fire_watch-Grows, crash_poll-Grows, counts-arm_chip,
}
use forgectrl.Cool.Silence.{tick_counts, told_counts, alive-Grows}

hv_counts : (x : Sight) (e : Engine) → counts (hv_watch x e) ≡ counts e
unfolding hv_watch
hv_counts x e = refl

-- The two alarms of the fail tier.
abbrev pub raised : Engine → Bool
raised e = e.fire.alarm || e.head.watch.alarm

abbrev flags : Sky → Bool
flags s = s.1.0.0 || s.1.0.1.0

edge_calm :
    (x : Sight) (flood : Bool) (e : Engine)
    → raised e ≡ false
    → raised (flood_edge x flood e) ≡ false
unfolding flood_edge limits_apply flood_open open_watches flood_close close_gates drop_check
    heater_set_pct
edge_calm x true e h = ground arith
edge_calm x false e h = ground arith

told_calm : (x : Sight) (e : Engine) → raised e ≡ false → raised (take_report x (alive x e)) ≡ false
unfolding take_report limits_apply
told_calm x e h =
    let a = alive x e in
    let p = ap flags (sky-heeded x a) ∙ ap flags (sky-alive x e) in
    edge_calm x (flood_at x a) (heeded x a) (p ∙ h)

fire_raises :
    (x : Sight) (e : Engine)
    → raised e ≡ false
    → (raised (fire_watch x e) ≡ false) ⊎ IsSafed e (fire_watch x e)
unfolding fire_watch fire_signal fans_run fire_judge
fire_raises x e h = ground arith

crash_raises :
    (x : Sight) (e : Engine)
    → raised e ≡ false
    → (raised (crash_poll x e) ≡ false) ⊎ IsSafed e (crash_poll x e)
unfolding crash_poll crash_signal crash_unread crash_tick
crash_raises x e h = ground arith

watches_raise :
    (x : Sight) (e : Engine)
    → raised e ≡ false
    → (raised (watches x e) ≡ false) ⊎ IsSafed e (watches x e)
unfolding watches
watches_raise x e h =
    let told = take_report x (alive x e) in
    let seen = emission_watch x told in
    let lit = fire_watch x seen in
    let armed = arm_chip x (hv_watch x lit) in
    let c = told_counts x (alive x e) in
    let k : counts armed ≡ counts lit = counts-arm_chip x (hv_watch x lit) ∙ hv_counts x lit in
    let calm = ap flags (sky-emission_watch x told) ∙ told_calm x e h in
    let same = ap flags (sky-arm_chip x (hv_watch x lit)) ∙ ap flags (sky-hv_watch x lit) in
    let c1 = ap (λ (c : ℕ × ℕ). c.0) c in
    let c2 = ap (λ (c : ℕ × ℕ). c.1) c in
    let k1 = ap (λ (c : ℕ × ℕ). c.0) k in
    let k2 = ap (λ (c : ℕ × ℕ). c.1) k in
    let a = alive-Grows x e in
    let g = emission_watch-Grows x told in
    elim (fire_raises x seen calm) [
      | inr s ↦ inr (ground (arith, a, g, c1, c2, k1, k2, s, crash_poll-Grows x armed))
      | inl quiet ↦ elim (crash_raises x armed (same ∙ quiet)) [
        | inl still ↦ inl still
        | inr s ↦ inr (ground (arith, a, g, c1, c2, k1, k2, s, fire_watch-Grows x seen))
      ]
    ]

critical_flags : (x : Sight) (e : Engine) → raised (critical_line x e) ≡ raised e
unfolding critical_line
critical_flags x e = ground arith

gates_flags : (x : Sight) (e : Engine) → raised (gates x e) ≡ raised e
unfolding gates airflow_gates judge_airflow
gates_flags x e =
    let felt = sensors x (airflow_gates x e) in
    let bounded = cold_floor x (ceiling x felt) in
    critical_flags x (warm_hold x bounded)
    ∙ ap flags (sky-warm_hold x bounded)
    ∙ ap (λ a. a.0 || a.1.0) (alarms-cold_floor x (ceiling x felt) ∙ alarms-ceiling x felt)
    ∙ ap flags (sky-sensors x (airflow_gates x e))
    ∙ ap flags (sky-fans_verify x e)

-- A tick after which the alarm of the lid's fire watch or of the head's crash watch stands, and
-- before which neither stood, has stopped the motion and locked the laser, each at least once more.
pub raised-IsSafed :
    (x : Sight) (e : Engine)
    → raised e ≡ false
    → raised (engine_tick x e) ≡ true
    → IsSafed e (engine_tick x e)
unfolding engine_tick verdict_publish
raised-IsSafed x e h =
    let seen = watches x e in
    if_holds
      (λ (g : Engine).
        (e.diag_owned ≡ false → counts g ≡ counts seen) → raised g ≡ true → IsSafed e g)
      e.diag_owned _ _ (λ d c r. ground (arith, h, r))
      (λ d c r.
        let q = ap flags (sky-closing x (gates x seen)) ∙ gates_flags x seen in
        let n = c d in
        elim (watches_raise x e h) [
          | inl calm ↦ ground (arith, calm, q, r)
          | inr s ↦ ground (arith, s, ap (λ (c : ℕ × ℕ). c.0) n, ap (λ (c : ℕ × ℕ). c.1) n)
        ])
      (tick_counts x e)
