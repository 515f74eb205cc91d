-- ===== src/Cool/Sky.antt =====
-- What most parts of a tick of src/cool.c leave alone.
use forgectrl.Prelude.{ℕ, Bool, true, false, ◌≡◌, refl, arith}
use forgectrl.Cool.State.{Config, Report, Engine, Sight}
use forgectrl.Cool.Fans.{
  heater_set_pct, fans_idle, fans_run, fans_cool, fans_apply_phase, cool_quiet_hold_ex, fans_verify,
}
use forgectrl.Cool.Session.{ask_check, flow_check_start}
use forgectrl.Cool.Watches.{
  dead_man, quiet_release, reapply_duty, emission_watch, hv_watch, arm_chip,
}
use forgectrl.Cool.Coolant.{
  sensors, sensors_back, sensors_lost, blinded, warm_hold, warm_at, warm_release,
}
use forgectrl.Cool.Flow.{
  flow_part, flow_check, check_tick, check_end_at, check_verdict, fault_noted, check_due, suspicion,
  check_gate, check_start_at,
}
use forgectrl.Cool.Tick.{start_stood_down, cooldown, smoke_end, thermal_end, tec_write, tec_part}

-- The limits in force.
abbrev pub lims : Engine → Config × (Report × (Bool × (Bool × (ℕ × (ℕ × ℕ)))))
lims e = (
  e.conf,
  (
    e.report,
    (
      e.coolant.max_off,
      (e.coolant.floor_off, (e.coolant.eff_max, (e.coolant.eff_resume, e.coolant.eff_min))),
    ),
  ),
)

-- The faults that stand to the session's end.
abbrev pub alarms : Engine → Bool × (Bool × (Bool × Bool))
alarms e = (e.fire.alarm, (e.head.watch.alarm, (e.air.air_alarm, e.coolant.critical)))

abbrev pub temps : Engine → Bool × Bool
temps e = (e.coolant.over_temp, e.coolant.cold)

-- What the armed window is acknowledged by.
abbrev pub ack : Engine → Bool × (Bool × Bool)
ack e = (e.eff_armed, (e.flood_on, e.air.fans_up))

abbrev pub Sky : Type 0
Sky =
    (Config × (Report × (Bool × (Bool × (ℕ × (ℕ × ℕ))))))
    × ((Bool × (Bool × (Bool × Bool))) × ((Bool × Bool) × (Bool × (Bool × Bool))))

abbrev pub sky : Engine → Sky
sky e = (lims e, (alarms e, (temps e, ack e)))

pub sky-fans_idle : (e : Engine) → sky (fans_idle e) ≡ sky e
unfolding fans_idle
sky-fans_idle e = ground arith

pub sky-fans_run : (e : Engine) → sky (fans_run e) ≡ sky e
unfolding fans_run
sky-fans_run e = ground arith

pub sky-fans_cool : (e : Engine) → sky (fans_cool e) ≡ sky e
unfolding fans_cool
sky-fans_cool e = ground arith

pub sky-fans_apply_phase : (e : Engine) → sky (fans_apply_phase e) ≡ sky e
unfolding fans_apply_phase
sky-fans_apply_phase e = ground (arith, sky-fans_run e, sky-fans_cool e, sky-fans_idle e)

pub sky-dead_man : (x : Sight) (e : Engine) → sky (dead_man x e) ≡ sky e
unfolding dead_man
sky-dead_man x e = ground arith

pub sky-cool_quiet_hold_ex :
    (now : ℕ) (on with_pump : Bool) (e : Engine)
    → sky (cool_quiet_hold_ex now on with_pump e) ≡ sky e
unfolding cool_quiet_hold_ex
sky-cool_quiet_hold_ex now true with_pump e = ground arith
sky-cool_quiet_hold_ex now false with_pump e = grind (arith, sky-fans_apply_phase)

pub sky-quiet_release :
    (now : ℕ) (opens : Bool) (e : Engine) → sky (quiet_release now opens e) ≡ sky e
unfolding quiet_release
sky-quiet_release now opens e = ground (arith, sky-cool_quiet_hold_ex now false false e)

pub sky-reapply_duty :
    (now : ℕ) (changed : Bool) (e : Engine) → sky (reapply_duty now changed e) ≡ sky e
unfolding reapply_duty
sky-reapply_duty now changed e = ground (arith, sky-fans_run e)

pub sky-emission_watch : (x : Sight) (e : Engine) → sky (emission_watch x e) ≡ sky e
unfolding emission_watch
sky-emission_watch x e = ground arith

pub sky-hv_watch : (x : Sight) (e : Engine) → sky (hv_watch x e) ≡ sky e
unfolding hv_watch
sky-hv_watch x e = refl

pub sky-arm_chip : (x : Sight) (e : Engine) → sky (arm_chip x e) ≡ sky e
unfolding arm_chip
sky-arm_chip x e = ground arith

pub sky-fans_verify : (x : Sight) (e : Engine) → sky (fans_verify x e) ≡ sky e
unfolding fans_verify
sky-fans_verify x e = ground arith

pub sky-ask_check : (now : ℕ) (e : Engine) → sky (ask_check now e) ≡ sky e
unfolding ask_check
sky-ask_check now e = ground arith

pub sky-sensors : (x : Sight) (e : Engine) → sky (sensors x e) ≡ sky e
unfolding sensors sensors_back sensors_lost blinded heater_set_pct
sky-sensors x e = grind (arith, sky-ask_check)

pub sky-warm_release : (now : ℕ) (e : Engine) → sky (warm_release now e) ≡ sky e
unfolding warm_release heater_set_pct
sky-warm_release now e = grind (arith, sky-ask_check, sky-fans_run)

pub sky-warm_hold : (x : Sight) (e : Engine) → sky (warm_hold x e) ≡ sky e
unfolding warm_hold warm_at
sky-warm_hold x e = grind (arith, sky-warm_release)

pub sky-flow_check : (x : Sight) (e : Engine) → sky (flow_check x e) ≡ sky e
unfolding flow_check check_tick check_end_at check_verdict fault_noted check_due heater_set_pct
sky-flow_check x e = ground arith

pub sky-suspicion : (now : ℕ) (e : Engine) → sky (suspicion now e) ≡ sky e
unfolding suspicion fault_noted
sky-suspicion now e = ground arith

pub sky-check_gate : (x : Sight) (e : Engine) → sky (check_gate x e) ≡ sky e
unfolding check_gate check_start_at flow_check_start heater_set_pct
sky-check_gate x e = ground arith

pub sky-flow_part : (x : Sight) (e : Engine) → sky (flow_part x e) ≡ sky e
unfolding flow_part
sky-flow_part x e = grind (arith, sky-check_gate, sky-suspicion, sky-flow_check)

pub sky-start_stood_down : (x : Sight) (e : Engine) → sky (start_stood_down x e) ≡ sky e
unfolding start_stood_down
sky-start_stood_down x e = ground (arith, sky-fans_idle e)

pub sky-cooldown : (x : Sight) (e : Engine) → sky (cooldown x e) ≡ sky e
unfolding cooldown smoke_end thermal_end fans_idle fans_cool
sky-cooldown x e = ground arith

pub sky-tec_part : (x : Sight) (e : Engine) → sky (tec_part x e) ≡ sky e
unfolding tec_part tec_write
sky-tec_part x e = ground arith
