-- ===== src/Cool/Heat.antt =====
-- The heater of src/cool.c over its ticks and calls.
use forgectrl.Prelude.{ℕ, Bool, true, false, ◌≡◌, refl, arith}
use forgectrl.Cool.State.{CoolState, Engine, Sight}
use forgectrl.Cool.Fans.{
  fans_idle, fans_run, fans_cool, fans_apply_phase, cool_quiet_hold_ex, fans_verify,
}
use forgectrl.Cool.Limits.{limits_apply}
use forgectrl.Cool.Watches.{
  dead_man, note_armed, quiet_release, reapply_duty, emission_watch, fire_signal, fire_watch,
  hv_watch, arm_chip, crash_signal, crash_unread, crash_poll,
}
use forgectrl.Cool.Airflow.{judge_airflow, airflow_gates}
use forgectrl.Cool.Coolant.{cool_released, over_set, ceiling_at, ceiling, cold_floor, critical_line}
use forgectrl.Cool.Tick.{start_stood_down, tec_write, tec_part}

-- The part of the engine that the heater's story is about.
abbrev pub core : Engine → CoolState × (Bool × (ℕ × (Bool × (Bool × Bool))))
core e = (e.phase, (e.flood_on, (e.heater_pct, (e.flow.active, (e.flow.pending, e.diag_owned)))))

pub core-fans_idle : (e : Engine) → core (fans_idle e) ≡ core e
unfolding fans_idle
core-fans_idle e = ground arith

pub core-fans_run : (e : Engine) → core (fans_run e) ≡ core e
unfolding fans_run
core-fans_run e = ground arith

pub core-fans_cool : (e : Engine) → core (fans_cool e) ≡ core e
unfolding fans_cool
core-fans_cool e = ground arith

pub core-fans_apply_phase : (e : Engine) → core (fans_apply_phase e) ≡ core e
unfolding fans_apply_phase
core-fans_apply_phase e = ground (arith, core-fans_run e, core-fans_cool e, core-fans_idle e)

pub core-dead_man : (x : Sight) (e : Engine) → core (dead_man x e) ≡ core e
unfolding dead_man
core-dead_man x e = ground arith

pub core-cool_quiet_hold_ex :
    (now : ℕ) (on with_pump : Bool) (e : Engine)
    → core (cool_quiet_hold_ex now on with_pump e) ≡ core e
unfolding cool_quiet_hold_ex
core-cool_quiet_hold_ex now true with_pump e = ground arith
core-cool_quiet_hold_ex now false with_pump e = grind (arith, core-fans_apply_phase)

pub core-quiet_release :
    (now : ℕ) (opens : Bool) (e : Engine) → core (quiet_release now opens e) ≡ core e
unfolding quiet_release
core-quiet_release now opens e = ground (arith, core-cool_quiet_hold_ex now false false e)

pub core-reapply_duty :
    (now : ℕ) (changed : Bool) (e : Engine) → core (reapply_duty now changed e) ≡ core e
unfolding reapply_duty
core-reapply_duty now changed e = ground (arith, core-fans_run e)

pub core-emission_watch : (x : Sight) (e : Engine) → core (emission_watch x e) ≡ core e
unfolding emission_watch
core-emission_watch x e = ground arith

pub core-fire_signal : (q : ℕ × ℕ) (e : Engine) → core (fire_signal q e) ≡ core e
unfolding fire_signal
core-fire_signal q e = grind (arith, core-fans_run)

pub core-fire_watch : (x : Sight) (e : Engine) → core (fire_watch x e) ≡ core e
unfolding fire_watch
core-fire_watch x e = grind (arith, core-fire_signal)

pub core-hv_watch : (x : Sight) (e : Engine) → core (hv_watch x e) ≡ core e
unfolding hv_watch
core-hv_watch x e = ground arith

pub core-arm_chip : (x : Sight) (e : Engine) → core (arm_chip x e) ≡ core e
unfolding arm_chip
core-arm_chip x e = ground arith

pub core-crash_poll : (x : Sight) (e : Engine) → core (crash_poll x e) ≡ core e
unfolding crash_poll crash_signal crash_unread
core-crash_poll x e = ground arith

pub core-fans_verify : (x : Sight) (e : Engine) → core (fans_verify x e) ≡ core e
unfolding fans_verify
core-fans_verify x e = ground arith

pub core-cool_released : (e : Engine) → core (cool_released e) ≡ core e
unfolding cool_released
core-cool_released e = grind (arith, core-fans_apply_phase)

pub core-ceiling : (x : Sight) (e : Engine) → core (ceiling x e) ≡ core e
unfolding ceiling ceiling_at over_set
core-ceiling x e = grind (arith, core-cool_released, core-fans_cool)

pub core-cold_floor : (x : Sight) (e : Engine) → core (cold_floor x e) ≡ core e
unfolding cold_floor
core-cold_floor x e = ground arith

pub core-critical_line : (x : Sight) (e : Engine) → core (critical_line x e) ≡ core e
unfolding critical_line
core-critical_line x e = ground arith

pub core-start_stood_down : (x : Sight) (e : Engine) → core (start_stood_down x e) ≡ core e
unfolding start_stood_down
core-start_stood_down x e = ground (arith, core-fans_idle e)

pub core-tec_part : (x : Sight) (e : Engine) → core (tec_part x e) ≡ core e
unfolding tec_part tec_write
core-tec_part x e = ground arith

pub core-limits_apply : (is_fresh : Bool) (e : Engine) → core (limits_apply is_fresh e) ≡ core e
unfolding limits_apply
core-limits_apply is_fresh e = refl

pub core-note_armed : (flood armed : Bool) (e : Engine) → core (note_armed flood armed e) ≡ core e
unfolding note_armed
core-note_armed flood armed e = refl

pub core-airflow_gates : (x : Sight) (e : Engine) → core (airflow_gates x e) ≡ core e
unfolding airflow_gates judge_airflow
core-airflow_gates x e = core-fans_verify x e
