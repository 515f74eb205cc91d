-- ===== src/Cool/Coolant.antt =====
-- The gates on the coolant of a tick in src/cool.c.
use forgectrl.Prelude.{
  ℕ, suc, ◌+◌, Bool, true, false, not, ◌&&◌, ◌||◌, List, [], ◌∷◌, Option, none, some, length, take,
  min, ltb, leb, if◌then◌else◌,
}
use forgectrl.Gates.Table.{unit, gate_floor_trip}
use forgectrl.Cool.State.{cool_run, Coolant, Warm, Engine, Sight, deg}
use forgectrl.Cool.Fans.{
  heater_set_pct, fans_run, fans_cool, fans_apply_phase, is_run, is_warmup, seconds,
}
use forgectrl.Cool.Session.{ask_check}

abbrev is_read : Option ℕ → Bool
is_read none = false
is_read (some v) = true

abbrev pub both_read : Sight → Bool
both_read x = is_read x.down && is_read x.up

-- SENSOR_FAIL_TICKS
abbrev sensor_fail_ticks : ℕ
sensor_fail_ticks = 2

abbrev uint32_max : ℕ
uint32_max = 4294967295

unfoldable pub sensors_back : Sight → Engine → Engine
sensors_back x e =
    let seeing = record e {
      coolant = record e.coolant { sensor_fails = 0; sensor_alarm = false };
    } in
    if e.coolant.sensor_alarm
    then (if is_warmup e.phase
        then heater_set_pct e.conf.flow_heater_pct seeing
        else if is_run e.phase
        then ask_check x.now seeing
        else seeing)
    else seeing

-- Blind: a check in flight is given up, and the heater is off.
unfoldable pub blinded : Engine → Engine
blinded e =
    let alarmed = record e { coolant = record e.coolant { sensor_alarm = true } } in
    heater_set_pct 0 (
      if e.flow.active
      then record alarmed { flow = record alarmed.flow { active = false; hist = [] } }
      else alarmed)

unfoldable pub sensors_lost : Engine → Engine
sensors_lost e =
    let n = min uint32_max (suc e.coolant.sensor_fails) in
    let counted = record e { coolant = record e.coolant { sensor_fails = n } } in
    if not e.coolant.sensor_alarm && leb sensor_fail_ticks n then blinded counted else counted

unfoldable pub sensors : Sight → Engine → Engine
sensors x e = if both_read x then sensors_back x e else sensors_lost e

unfoldable pub cool_released : Engine → Engine
cool_released e =
    if e.coolant.forced_cool
    then fans_apply_phase (record e { coolant = record e.coolant { forced_cool = false } })
    else e

unfoldable pub over_set : Bool → Engine → Engine
over_set b e = record e { coolant = record e.coolant { over_temp = b } }

-- The ceiling is hot where the reading is over it, or over the resume gate once it has tripped.
abbrev pub is_hot : ℕ → Coolant → Bool
is_hot up k = ltb (if k.over_temp then k.eff_resume else k.eff_max) up

unfoldable pub ceiling_at : ℕ → Engine → Engine
ceiling_at up e =
    if e.coolant.max_off
    then (if e.coolant.over_temp then cool_released (over_set false e) else e)
    else if is_hot up e.coolant
    then (if e.coolant.over_temp
        then e
        else if is_run e.phase
        then over_set true e
        else record (fans_cool (over_set true e)) {
          coolant = record e.coolant { over_temp = true; forced_cool = true };
        })
    else if e.coolant.over_temp
    then cool_released (over_set false e)
    else e

unfoldable pub ceiling : Sight → Engine → Engine
ceiling x e = elim x.up [ none ↦ e | some up ↦ ceiling_at up e ]

-- TEMP_MIN_HYST_C
abbrev pub floor_hyst : ℕ
floor_hyst = unit

unfoldable pub cold_floor : Sight → Engine → Engine
cold_floor x e =
    if e.coolant.floor_off
    then record e { coolant = record e.coolant { cold = false } }
    else elim x.up [
      | none ↦ e
      | some up ↦ record e {
        coolant = record e.coolant {
          cold = gate_floor_trip e.coolant.cold up e.coolant.eff_min floor_hyst;
        };
      }
    ]

-- WARMUP_WIN, WARMUP_STALL_S and WARMUP_STALL_C
abbrev warmup_win : ℕ
warmup_win = 60

abbrev warmup_stall_s : ℕ
warmup_stall_s = 300

abbrev warmup_stall_c : ℕ
warmup_stall_c = 2000000

unfoldable pub least_of : ℕ → List ℕ → ℕ
least_of b [] = b
least_of b (v ∷ vs) = least_of (if ltb v b then v else b) vs

-- The bulk: the least reading of a full window, the latest otherwise.
abbrev pub bulk_of : ℕ → List ℕ → ℕ
bulk_of up win = if leb warmup_win (length win) then least_of up win else up

abbrev pub is_warm : ℕ → List ℕ → ℕ → Bool
is_warm up win gate = leb warmup_win (length win) && leb gate (bulk_of up win)

unfoldable pub warm_release : ℕ → Engine → Engine
warm_release now e =
    let run = fans_run (record (heater_set_pct 0 e) { phase = cool_run }) in
    ask_check now (record run {
      air = record run.air { grace_until = now + run.conf.fan_grace_s };
      flow = record run.flow { hist = [] };
    })

unfoldable pub warm_wait : ℕ → ℕ → Warm → Warm
warm_wait now bulk w =
    if leb (w.last_up + warmup_stall_c) bulk
    then record w { last_up = bulk; progress_at = now }
    else if not w.stalled && ltb (w.progress_at + seconds warmup_stall_s) now
    then record w { stalled = true }
    else w

unfoldable pub warm_at : ℕ → ℕ → Engine → Engine
warm_at now up e =
    let win = take warmup_win (up ∷ e.warm.win) in
    let held = record e { warm = record e.warm { win = win } } in
    if is_warm up win e.warm.gate_c
    then warm_release now held
    else record held { warm = warm_wait now (bulk_of up win) held.warm }

unfoldable pub warm_hold : Sight → Engine → Engine
warm_hold x e =
    if is_warmup e.phase then elim x.up [ none ↦ e | some up ↦ warm_at x.now up e ] else e

-- The critical tier.
unfoldable pub critical_line : Sight → Engine → Engine
critical_line x e =
    if is_run e.phase && not e.coolant.critical_off
    then elim x.up [
      | none ↦ e
      | some up ↦ record e {
        coolant = record e.coolant {
          critical = e.coolant.critical || leb (deg e.conf.temp_critical_c) up;
        };
      }
    ]
    else e
