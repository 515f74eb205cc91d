-- ===== src/Cool/Silence.antt =====
-- When a tick of src/cool.c stops the motion and locks the laser.
use forgectrl.Prelude.{
  ℕ, Bool, true, false, not, ◌&&◌, ◌||◌, Option, none, some, ◌≡◌, ◌⊎◌, inl, inr, refl, ap, ◌∙◌,
  if_holds, arith,
}
use forgectrl.Cool.State.{Report, Engine, Sight}
use forgectrl.Cool.Fans.{
  fans_run, fans_idle, fans_apply_phase, fans_cool, cool_quiet_hold_ex, heater_set_pct,
}
use forgectrl.Cool.Limits.{conf_reload, limits_apply}
use forgectrl.Cool.Session.{
  ask_check, open_phase, open_warm, open_gates, open_watches, flood_open, close_gates, drop_check,
  flood_close,
}
use forgectrl.Cool.Watches.{
  fresh, fresh_at, flood_at, armed_at, armed_rose, new_duty, heard, note_armed, quiet_release,
  reapply_duty, heeded, flood_edge, take_report, dead_man, recently, emits, emission_watch,
  fire_watch, hv_watch, arm_chip, crash_poll,
}
use forgectrl.Cool.Airflow.{judge_airflow, airflow_gates}
use forgectrl.Cool.Coolant.{sensors, ceiling, cold_floor, warm_hold}
use forgectrl.Cool.Flow.{flow_part}
use forgectrl.Cool.Tick.{
  start_stood_down, cooldown, verdict_publish, watches, gates, closing, engine_tick,
}
use forgectrl.Cool.Sky.{Sky}
use forgectrl.Cool.Alarms.{sky-heeded, alive, alive_report}
use forgectrl.Cool.Clear.{edge_report}
use forgectrl.Cool.Safing.{
  Grows, IsSafed, counts, counts-fans_verify, dead_man-Grows, counts-heeded, counts-flood_edge,
  emission_watch-Grows, fire_watch-Grows, crash_poll-Grows, counts-arm_chip, counts-sensors,
  counts-ceiling, counts-cold_floor, counts-warm_hold, counts-critical_line, counts-flow_part,
  counts-start_stood_down, counts-cooldown, counts-tec_part,
}

-- Behind the watches nothing stops or latches.
pub counts-gates : (x : Sight) (e : Engine) → counts (gates x e) ≡ counts e
unfolding gates airflow_gates judge_airflow
counts-gates x e =
    let felt = sensors x (airflow_gates x e) in
    let bounded = cold_floor x (ceiling x felt) in
    counts-critical_line x (warm_hold x bounded)
    ∙ counts-warm_hold x bounded
    ∙ counts-cold_floor x (ceiling x felt)
    ∙ counts-ceiling x felt
    ∙ counts-sensors x (airflow_gates x e)
    ∙ counts-fans_verify x e

pub counts-closing : (x : Sight) (e : Engine) → counts (closing x e) ≡ counts e
unfolding closing
counts-closing x e =
    let flowed = flow_part x e in
    let started = start_stood_down x flowed in
    counts-tec_part x (cooldown x started)
    ∙ counts-cooldown x started
    ∙ counts-start_stood_down x flowed
    ∙ counts-flow_part x e

pub tick_counts :
    (x : Sight) (e : Engine)
    → e.diag_owned ≡ false
    → counts (engine_tick x e) ≡ counts (watches x e)
unfolding engine_tick verdict_publish
tick_counts x e own =
    if_holds (λ (g : Engine). e.diag_owned ≡ false → counts g ≡ counts (watches x e)) e.diag_owned _
      _ (λ d own. ground (arith, d, own))
      (λ d own. counts-closing x (gates x (watches x e)) ∙ counts-gates x (watches x e)) own

-- The watches behind the report.
watched : Sight → Engine → Engine
watched x e = crash_poll x (arm_chip x (hv_watch x (fire_watch x e)))

watched-Grows : (x : Sight) (e : Engine) → Grows e (watched x e)
unfolding watched hv_watch
watched-Grows x e =
    let lit = fire_watch x e in
    let armed = arm_chip x (hv_watch x lit) in
    let p = counts-arm_chip x (hv_watch x lit) in
    ground (arith, fire_watch-Grows x e, ap (λ c. c.0) p, ap (λ c. c.1) p, crash_poll-Grows x armed)

-- A report that came is more than five seconds old, with the window open and not safed yet, or with
-- the kernel running.
abbrev pub IsSilent : Sight → Engine → Type 0
IsSilent x e =
    ((at : ℕ) × (e.report.at ≡ some at))
    × ((fresh x e ≡ false) × ((e.report.armed && not e.silent_safed) || x.running_first ≡ true))

dead_man-IsSafed : (x : Sight) (e : Engine) → IsSilent x e → IsSafed e (dead_man x e)
unfolding dead_man
dead_man-IsSafed x e ((at, a), (f, h)) = ground arith

alive-IsSafed : (x : Sight) (e : Engine) → IsSilent x e → IsSafed e (alive x e)
unfolding limits_apply
alive-IsSafed x e h = dead_man-IsSafed x (limits_apply (fresh x e) e) h

pub alive-Grows : (x : Sight) (e : Engine) → Grows e (alive x e)
unfolding limits_apply
alive-Grows x e = dead_man-Grows x (limits_apply (fresh x e) e)

pub told_counts : (x : Sight) (e : Engine) → counts (take_report x e) ≡ counts e
unfolding take_report
told_counts x e = counts-flood_edge x (flood_at x e) (heeded x e) ∙ counts-heeded x e

watches_of :
    (x : Sight) (e : Engine)
    → watches x e ≡ watched x (emission_watch x (take_report x (alive x e)))
unfolding watches watched
watches_of x e = refl

silent-IsSafed : (x : Sight) (e : Engine) → IsSilent x e → IsSafed e (watches x e)
unfolding watches watched
silent-IsSafed x e h =
    let told = take_report x (alive x e) in
    let p = told_counts x (alive x e) in
    ground (
      arith,
      alive-IsSafed x e h,
      ap (λ c. c.0) p,
      ap (λ c. c.1) p,
      emission_watch-Grows x told,
      watched-Grows x (emission_watch x told),
    )

-- Emission is sensed, and no window was open in the last three seconds.
abbrev pub IsStray : Sight → Engine → Type 0
IsStray x e =
    (emits x.emission ≡ true) × ((armed_at x e ≡ false) × (recently x.now e.last_armed_at ≡ false))

emission-IsSafed : (x : Sight) (e : Engine) → IsStray x e → IsSafed e (emission_watch x e)
unfolding emission_watch
emission-IsSafed x e (s, (a, r)) = ground arith

abbrev last : Engine → Option ℕ
last e = e.last_armed_at

last-fans_apply_phase : (e : Engine) → last (fans_apply_phase e) ≡ last e
unfolding fans_apply_phase fans_run fans_cool fans_idle
last-fans_apply_phase e = ground arith

last-quiet_release :
    (now : ℕ) (opens : Bool) (e : Engine) → last (quiet_release now opens e) ≡ last e
unfolding quiet_release cool_quiet_hold_ex
last-quiet_release now opens e = grind (arith, last-fans_apply_phase)

last-reapply_duty :
    (now : ℕ) (changed : Bool) (e : Engine) → last (reapply_duty now changed e) ≡ last e
unfolding reapply_duty fans_run
last-reapply_duty now changed e = ground arith

last-heeded : (x : Sight) (e : Engine) → last (heeded x e) ≡ last e
unfolding heeded heard note_armed
last-heeded x e =
    last-reapply_duty x.now (new_duty x e) (note_armed (flood_at x e) (armed_at x e) (heard x e))
    ∙ last-quiet_release x.now ((flood_at x e && not e.flood_on) || armed_rose x e)
        (record e { run_duty = e.report.duty; eff_armed = armed_at x e })

last-open_phase : (up : Option ℕ) (now : ℕ) (e : Engine) → last (open_phase up now e) ≡ last e
unfolding open_phase open_warm heater_set_pct fans_run fans_idle
last-open_phase none now e = ground arith
last-open_phase (some up) now e = ground arith

last-flood_open : (x : Sight) (e : Engine) → last (flood_open x e) ≡ last e
unfolding flood_open open_watches ask_check open_gates conf_reload
last-flood_open x e =
    let p = last-open_phase x.up_at_open x.now (open_gates x.now (conf_reload x e)) in
    ground (arith, p)

last-flood_close : (x : Sight) (e : Engine) → last (flood_close x e) ≡ last e
unfolding flood_close close_gates drop_check heater_set_pct
last-flood_close x e = ground arith

last-flood_edge : (x : Sight) (flood : Bool) (e : Engine) → last (flood_edge x flood e) ≡ last e
unfolding flood_edge limits_apply
last-flood_edge x true e =
    let p = last-flood_open x (record e { flood_on = true }) in ground (arith, p)
last-flood_edge x false e =
    let p = last-flood_close x (record e { flood_on = false }) in ground (arith, p)

last-alive : (x : Sight) (e : Engine) → last (alive x e) ≡ last e
unfolding dead_man limits_apply
last-alive x e = ground arith

last-told : (x : Sight) (e : Engine) → last (take_report x (alive x e)) ≡ last e
unfolding take_report
last-told x e =
    let a = alive x e in
    last-flood_edge x (flood_at x a) (heeded x a) ∙ last-heeded x a ∙ last-alive x e

told_report : (x : Sight) (e : Engine) → (take_report x (alive x e)).report ≡ e.report
unfolding take_report
told_report x e =
    edge_report x (flood_at x (alive x e)) (heeded x (alive x e))
    ∙ ap (λ (s : Sky). s.0.1.0) (sky-heeded x (alive x e))
    ∙ alive_report x e

stray-IsSafed : (x : Sight) (e : Engine) → IsStray x e → IsSafed e (watches x e)
unfolding watches watched
stray-IsSafed x e (s, (a, r)) =
    let told = take_report x (alive x e) in
    let p = told_counts x (alive x e) in
    let armed : armed_at x told ≡ false =
      ap (λ (r : Report). fresh_at x.now r.at && r.armed) (told_report x e) ∙ a in
    let lately = ap (recently x.now) (last-told x e) ∙ r in
    ground (
      arith,
      alive-Grows x e,
      ap (λ c. c.0) p,
      ap (λ c. c.1) p,
      emission-IsSafed x told (s, (armed, lately)),
      watched-Grows x (emission_watch x told),
    )

-- A tick that no diagnostic keeps away writes the stop and locks the latch, each at least once more,
-- where the controller fell silent with its window open and not safed yet or with the kernel running,
-- and where emission is sensed with no window open now or in the last three seconds.
pub silence-IsSafed :
    (x : Sight) (e : Engine)
    → e.diag_owned ≡ false
    → IsSilent x e ⊎ IsStray x e
    → IsSafed e (engine_tick x e)
silence-IsSafed x e own h =
    let c = tick_counts x e own in
    let s : IsSafed e (watches x e) = elim h [
      | inl q ↦ silent-IsSafed x e q
      | inr q ↦ stray-IsSafed x e q
    ] in
    ground (arith, s, ap (λ c. c.0) c, ap (λ c. c.1) c)
