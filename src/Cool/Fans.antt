-- ===== src/Cool/Fans.antt =====
-- The writes to the fans and the heater in src/cool.c.
use forgectrl.Prelude.{
  ℕ, zero, suc, ◌+◌, ◌*◌, Bool, true, false, not, ◌&&◌, [], ◌∷◌, Option, none, some, get_or, set,
  ltb, leb, ◌==◌, if◌then◌else◌,
}
use forgectrl.Airflow.Gate.{airflow_run_duty}
use forgectrl.Cool.State.{
  CoolState, cool_idle, cool_run, cool_smoke, cool_thermal, cool_warmup, Write, wr_air_assist,
  wr_exhaust, wr_intake, wr_heater, wr_tec, wr_purge, wr_pump, Engine, Sight, wrote,
}

-- AIR_ASSIST_IDLE and the duties of a run, a cooldown and idle
abbrev pub air_assist_idle : ℕ
air_assist_idle = 204

abbrev pub air_assist_run : ℕ
air_assist_run = 1023

abbrev pub exhaust_run : ℕ
exhaust_run = 65535

abbrev pub intake_run : ℕ
intake_run = 43278

abbrev pub exhaust_cool : ℕ
exhaust_cool = 32768

abbrev pub intake_cool : ℕ
intake_cool = 21639

-- `heater_set_pct`
unfoldable pub heater_set_pct : ℕ → Engine → Engine
heater_set_pct pct e = wrote (wr_heater pct) (record e { heater_pct = pct })

-- `fan_write` of the three fans; a write that is not taken changes nothing here.
abbrev pub aa_write : ℕ → Engine → Engine
aa_write duty e = wrote (wr_air_assist duty) (record e { fan_cmd = set e.fan_cmd 0 (some duty) })

abbrev pub exhaust_write : ℕ → Engine → Engine
exhaust_write duty e = wrote (wr_exhaust duty) (record e { fan_cmd = set e.fan_cmd 1 (some duty) })

abbrev pub intake_write : ℕ → Engine → Engine
intake_write duty e = wrote (wr_intake duty) (record e { fan_cmd = set e.fan_cmd 2 (some duty) })

abbrev pub fan_writes : ℕ → ℕ → ℕ → Engine → Engine
fan_writes aa exhaust intake e = intake_write intake (exhaust_write exhaust (aa_write aa e))

-- `fans_quiet`
abbrev pub fans_quiet : Engine → Engine
fans_quiet e = wrote (wr_purge false) (fan_writes 0 0 0 e)

-- `pump_quiet`
abbrev pub pump_quiet : Engine → Engine
pump_quiet e = wrote (wr_tec false) (wrote (wr_pump false) e)

-- `fans_idle`
unfoldable pub fans_idle : Engine → Engine
fans_idle e = record (if e.quiet_held then fans_quiet e else fan_writes air_assist_idle 0 0 e) {
  start_cool = false;
}

abbrev pub duty_of : ℕ → ℕ → Engine → ℕ
duty_of i here e = airflow_run_duty here (get_or e.run_duty i none) e.eff_armed

-- `fans_run`
unfoldable pub fans_run : Engine → Engine
fans_run e =
    let aa = duty_of 0 air_assist_run e in
    let exhaust = duty_of 1 exhaust_run e in
    let intake = duty_of 2 intake_run e in
    let told = record e { cmd_duty = aa ∷ exhaust ∷ intake ∷ [] } in
    if e.quiet_held then fans_quiet told else fan_writes aa exhaust intake told

-- `fans_cool`
unfoldable pub fans_cool : Engine → Engine
fans_cool e =
    if e.quiet_held then fans_quiet e else fan_writes air_assist_idle exhaust_cool intake_cool e

-- `fans_apply_phase`
unfoldable pub fans_apply_phase : Engine → Engine
fans_apply_phase e = elim e.phase [
  | cool_run ↦ fans_run e
  | cool_smoke ↦ fans_run e
  | cool_thermal ↦ fans_cool e
  | cool_idle ↦ fans_idle e
  | cool_warmup ↦ fans_idle e
]

abbrev pub is_run : CoolState → Bool
is_run cool_run = true
is_run cool_idle = false
is_run cool_smoke = false
is_run cool_thermal = false
is_run cool_warmup = false

abbrev pub is_warmup : CoolState → Bool
is_warmup cool_warmup = true
is_warmup cool_idle = false
is_warmup cool_smoke = false
is_warmup cool_thermal = false
is_warmup cool_run = false

abbrev pub is_airflow : CoolState → Bool
is_airflow cool_run = true
is_airflow cool_smoke = true
is_airflow cool_thermal = true
is_airflow cool_idle = false
is_airflow cool_warmup = false

abbrev pub seconds : ℕ → ℕ
seconds s = s * 1000

-- `cool_quiet_hold_ex`
unfoldable pub cool_quiet_hold_ex : ℕ → Bool → Bool → Engine → Engine
cool_quiet_hold_ex now true with_pump e =
    let held = record e { quiet_held = true; quiet_pump = with_pump; quiet_since = now } in
    let fans = if e.quiet_held then held else fans_quiet held in
    if with_pump && not e.quiet_pump then pump_quiet fans else fans
cool_quiet_hold_ex now false with_pump e =
    let freed = record e { quiet_held = false; quiet_pump = false } in
    let pumped =
      if e.quiet_pump
      then wrote (wr_pump true) (record freed { tec = record freed.tec { tec_written = none } })
      else freed in
    if e.quiet_held then fans_apply_phase (wrote (wr_purge true) pumped) else freed

abbrev lost_max : ℕ
lost_max = 3

abbrev wr_fan : ℕ → ℕ → Write
wr_fan zero cmd = wr_air_assist cmd
wr_fan (suc zero) cmd = wr_exhaust cmd
wr_fan (suc (suc i)) cmd = wr_intake cmd

-- One fan of `fans_verify`: what is in force, against what was commanded.
abbrev verify_one : ℕ → Option ℕ → Option ℕ → Bool → ℕ → Engine → Engine
verify_one i none back takes now e = e
verify_one i (some cmd) none takes now e = e
verify_one i (some cmd) (some back) takes now e =
    let n = suc (get_or e.air.lost i 0) in
    let until = now + e.conf.fan_grace_s in
    let grace =
      if takes
        && (ltb back cmd && (is_run e.phase && (leb n lost_max && ltb e.air.grace_until until)))
      then until
      else e.air.grace_until in
    if cmd == back
    then e
    else wrote (wr_fan i cmd)
        (record e { air = record e.air { lost = set e.air.lost i n; grace_until = grace } })

abbrev verify_at : Sight → ℕ → Engine → Engine
verify_at x i e =
    verify_one i (get_or e.fan_cmd i none) (get_or x.fan_back i none) (get_or x.fan_takes i false)
      x.now e

-- `fans_verify`
unfoldable pub fans_verify : Sight → Engine → Engine
fans_verify x e = verify_at x 2 (verify_at x 1 (verify_at x 0 e))
