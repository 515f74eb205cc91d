-- ===== src/Cool/Safing.antt =====
-- What a tick of src/cool.c adds to the stops and the latches that were written.
use forgectrl.Prelude.{
  ℕ, suc, ◌≤◌, Bool, true, false, not, ◌&&◌, ◌||◌, List, [], ◌∷◌, Option, none, some, ◌≡◌, ◌∙◌,
  if◌then◌else◌, arith,
}
use forgectrl.Cool.State.{
  Write, wr_stop, wr_latch, fail_tier_stop, flow_flagged, wr_air_assist, wr_exhaust, wr_intake,
  wr_heater, wr_tec, wr_purge, wr_pump, Engine, Sight,
}
use forgectrl.Cool.Fans.{
  fans_verify, fans_run, fans_idle, fans_cool, fans_apply_phase, cool_quiet_hold_ex, heater_set_pct,
}
use forgectrl.Cool.Limits.{conf_reload, limits_apply}
use forgectrl.Cool.Session.{
  ask_check, flow_check_start, open_phase, open_warm, open_gates, open_watches, flood_open,
  close_gates, drop_check, flood_close,
}
use forgectrl.Cool.Watches.{
  flood_at, armed_at, armed_rose, new_duty, heard, note_armed, quiet_release, reapply_duty, heeded,
  flood_edge, dead_man, emission_watch, fire_signal, fire_watch, arm_chip, crash_signal,
  crash_unread, crash_poll,
}
use forgectrl.Cool.Coolant.{
  sensors, sensors_back, sensors_lost, blinded, ceiling_at, ceiling, over_set, cool_released,
  cold_floor, warm_hold, warm_at, warm_release, critical_line,
}
use forgectrl.Cool.Flow.{
  flow_part, flow_check, check_tick, check_end_at, check_verdict, fault_noted, check_due, suspicion,
  check_gate, check_start_at,
}
use forgectrl.Cool.Tick.{start_stood_down, cooldown, smoke_end, thermal_end, tec_write, tec_part}

abbrev is_stop : Write → Bool
is_stop wr_stop = true
is_stop wr_latch = false
is_stop fail_tier_stop = false
is_stop flow_flagged = false
is_stop (wr_air_assist n) = false
is_stop (wr_exhaust n) = false
is_stop (wr_intake n) = false
is_stop (wr_heater n) = false
is_stop (wr_tec b) = false
is_stop (wr_purge b) = false
is_stop (wr_pump b) = false

abbrev is_latch : Write → Bool
is_latch wr_latch = true
is_latch wr_stop = false
is_latch fail_tier_stop = false
is_latch flow_flagged = false
is_latch (wr_air_assist n) = false
is_latch (wr_exhaust n) = false
is_latch (wr_intake n) = false
is_latch (wr_heater n) = false
is_latch (wr_tec b) = false
is_latch (wr_purge b) = false
is_latch (wr_pump b) = false

abbrev count : (Write → Bool) → List Write → ℕ
count test [] = 0
count test (w ∷ ws) = if test w then suc (count test ws) else count test ws

-- How often motion was stopped, and how often the latch was locked.
abbrev pub stops : Engine → ℕ
stops e = count is_stop e.log

abbrev pub latches : Engine → ℕ
latches e = count is_latch e.log

abbrev pub Grows : Engine → Engine → Type 0
Grows e f = (stops e ≤ stops f) × (latches e ≤ latches f)

abbrev pub IsSafed : Engine → Engine → Type 0
IsSafed e f = (suc (stops e) ≤ stops f) × (suc (latches e) ≤ latches f)

abbrev pub counts : Engine → ℕ × ℕ
counts e = (stops e, latches e)

pub counts-fans_idle : (e : Engine) → counts (fans_idle e) ≡ counts e
unfolding fans_idle
counts-fans_idle e = ground arith

pub counts-fans_run : (e : Engine) → counts (fans_run e) ≡ counts e
unfolding fans_run
counts-fans_run e = ground arith

pub counts-fans_cool : (e : Engine) → counts (fans_cool e) ≡ counts e
unfolding fans_cool
counts-fans_cool e = ground arith

pub counts-fans_apply_phase : (e : Engine) → counts (fans_apply_phase e) ≡ counts e
unfolding fans_apply_phase
counts-fans_apply_phase e =
    ground (arith, counts-fans_run e, counts-fans_cool e, counts-fans_idle e)

pub counts-fans_verify : (x : Sight) (e : Engine) → counts (fans_verify x e) ≡ counts e
unfolding fans_verify
counts-fans_verify x e = ground arith

pub dead_man-Grows : (x : Sight) (e : Engine) → Grows e (dead_man x e)
unfolding dead_man
dead_man-Grows x e = ground arith

pub counts-quiet_release :
    (now : ℕ) (opens : Bool) (e : Engine) → counts (quiet_release now opens e) ≡ counts e
unfolding quiet_release cool_quiet_hold_ex
counts-quiet_release now opens e = grind (arith, counts-fans_apply_phase)

pub counts-reapply_duty :
    (now : ℕ) (changed : Bool) (e : Engine) → counts (reapply_duty now changed e) ≡ counts e
unfolding reapply_duty
counts-reapply_duty now changed e = ground (arith, counts-fans_run e)

pub counts-heeded : (x : Sight) (e : Engine) → counts (heeded x e) ≡ counts e
unfolding heeded heard note_armed
counts-heeded x e =
    counts-reapply_duty x.now (new_duty x e) (note_armed (flood_at x e) (armed_at x e) (heard x e))
    ∙ counts-quiet_release x.now ((flood_at x e && not e.flood_on) || armed_rose x e)
        (record e { run_duty = e.report.duty; eff_armed = armed_at x e })

pub counts-open_phase :
    (up : Option ℕ) (now : ℕ) (e : Engine) → counts (open_phase up now e) ≡ counts e
unfolding open_phase open_warm heater_set_pct fans_run fans_idle
counts-open_phase none now e = ground arith
counts-open_phase (some up) now e = ground arith

pub counts-flood_open : (x : Sight) (e : Engine) → counts (flood_open x e) ≡ counts e
unfolding flood_open open_watches ask_check open_gates conf_reload
counts-flood_open x e =
    let p = counts-open_phase x.up_at_open x.now (open_gates x.now (conf_reload x e)) in
    ground (arith, p)

pub counts-flood_close : (x : Sight) (e : Engine) → counts (flood_close x e) ≡ counts e
unfolding flood_close close_gates drop_check heater_set_pct
counts-flood_close x e = ground arith

pub counts-flood_edge :
    (x : Sight) (flood : Bool) (e : Engine) → counts (flood_edge x flood e) ≡ counts e
unfolding flood_edge limits_apply
counts-flood_edge x true e =
    let p = counts-flood_open x (record e { flood_on = true }) in ground (arith, p)
counts-flood_edge x false e =
    let p = counts-flood_close x (record e { flood_on = false }) in ground (arith, p)

pub emission_watch-Grows : (x : Sight) (e : Engine) → Grows e (emission_watch x e)
unfolding emission_watch
emission_watch-Grows x e = ground arith

pub fire_watch-Grows : (x : Sight) (e : Engine) → Grows e (fire_watch x e)
unfolding fire_watch fire_signal fans_run
fire_watch-Grows x e = ground arith

pub crash_poll-Grows : (x : Sight) (e : Engine) → Grows e (crash_poll x e)
unfolding crash_poll crash_signal crash_unread
crash_poll-Grows x e = ground arith

pub counts-arm_chip : (x : Sight) (e : Engine) → counts (arm_chip x e) ≡ counts e
unfolding arm_chip
counts-arm_chip x e = ground arith

pub counts-ask_check : (now : ℕ) (e : Engine) → counts (ask_check now e) ≡ counts e
unfolding ask_check
counts-ask_check now e = ground arith

pub counts-sensors : (x : Sight) (e : Engine) → counts (sensors x e) ≡ counts e
unfolding sensors sensors_back sensors_lost blinded heater_set_pct
counts-sensors x e = grind (arith, counts-ask_check)

pub counts-ceiling : (x : Sight) (e : Engine) → counts (ceiling x e) ≡ counts e
unfolding ceiling ceiling_at over_set cool_released
counts-ceiling x e = grind (arith, counts-fans_cool, counts-fans_apply_phase)

pub counts-cold_floor : (x : Sight) (e : Engine) → counts (cold_floor x e) ≡ counts e
unfolding cold_floor
counts-cold_floor x e = ground arith

pub counts-warm_release : (now : ℕ) (e : Engine) → counts (warm_release now e) ≡ counts e
unfolding warm_release heater_set_pct
counts-warm_release now e = grind (arith, counts-ask_check, counts-fans_run)

pub counts-warm_hold : (x : Sight) (e : Engine) → counts (warm_hold x e) ≡ counts e
unfolding warm_hold warm_at
counts-warm_hold x e = grind (arith, counts-warm_release)

pub counts-critical_line : (x : Sight) (e : Engine) → counts (critical_line x e) ≡ counts e
unfolding critical_line
counts-critical_line x e = ground arith

pub counts-flow_check : (x : Sight) (e : Engine) → counts (flow_check x e) ≡ counts e
unfolding flow_check check_tick check_end_at check_verdict fault_noted check_due heater_set_pct
counts-flow_check x e = ground arith

pub counts-suspicion : (now : ℕ) (e : Engine) → counts (suspicion now e) ≡ counts e
unfolding suspicion fault_noted
counts-suspicion now e = ground arith

pub counts-check_gate : (x : Sight) (e : Engine) → counts (check_gate x e) ≡ counts e
unfolding check_gate check_start_at flow_check_start heater_set_pct
counts-check_gate x e = ground arith

pub counts-flow_part : (x : Sight) (e : Engine) → counts (flow_part x e) ≡ counts e
unfolding flow_part
counts-flow_part x e = grind (arith, counts-check_gate, counts-suspicion, counts-flow_check)

pub counts-start_stood_down : (x : Sight) (e : Engine) → counts (start_stood_down x e) ≡ counts e
unfolding start_stood_down
counts-start_stood_down x e = ground (arith, counts-fans_idle e)

pub counts-cooldown : (x : Sight) (e : Engine) → counts (cooldown x e) ≡ counts e
unfolding cooldown smoke_end thermal_end fans_idle fans_cool
counts-cooldown x e = ground arith

pub counts-tec_part : (x : Sight) (e : Engine) → counts (tec_part x e) ≡ counts e
unfolding tec_part tec_write
counts-tec_part x e = ground arith
