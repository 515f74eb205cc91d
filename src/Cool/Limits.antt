-- ===== src/Cool/Limits.antt =====
-- The settings in force and the effective limits, in src/cool.c. The resume gate is at most 300
-- degrees under the ceiling.
use forgectrl.Prelude.{ℕ, ◌+◌, ◌-◌, Bool, true, false, ◌==◌, if◌then◌else◌}
use forgectrl.Gates.Table.{
  coolant_max, coolant_critical, coolant_min, warm_up, gate_state, is_off, gate_effective,
}
use forgectrl.Cool.State.{Config, Limits, Coolant, Engine, Sight, deg}

-- `gates_apply`: the flags it sets from the settings
unfoldable pub gates_apply : Config → Coolant → Coolant
gates_apply c k = record k {
  max_off = is_off (gate_state coolant_max c.temp_max_c);
  critical_off = is_off (gate_state coolant_critical c.temp_critical_c);
  floor_off = is_off (gate_state coolant_min c.temp_min_c);
  warmup_off = is_off (gate_state warm_up c.temp_start_c);
}

-- `conf_reload`
unfoldable pub conf_reload : Sight → Engine → Engine
conf_reload x e = record e { conf = x.settings; coolant = gates_apply x.settings e.coolant }

abbrev pub no_limits : Limits
no_limits = record {
  coolant_max = 0;
  coolant_min = 0;
  exhaust_min = 0;
  intake_min = 0;
  air_assist_min = 0;
}

-- A floor that is 0 is off, and no header raises it.
abbrev floor_of : ℕ → ℕ → ℕ
floor_of here header = if here == 0 then 0 else (gate_effective here header true).0

unfoldable pub limits_of : Config → Limits → Coolant → Coolant
limits_of c h k =
    let ceiling =
      if k.max_off
      then (c.temp_max_c, false)
      else gate_effective c.temp_max_c h.coolant_max false in
    let lowest = if k.floor_off then 0 else (gate_effective c.temp_min_c h.coolant_min true).0 in
    record k {
      eff_max = deg (ceiling.0);
      eff_resume =
          if ceiling.1
          then deg (ceiling.0) + c.temp_resume_c - c.temp_max_c
          else deg c.temp_resume_c;
      eff_min = deg lowest;
      eff_lim = record {
        coolant_max = ceiling.0;
        coolant_min = lowest;
        exhaust_min = floor_of c.tach_exhaust_min_rpm h.exhaust_min;
        intake_min = floor_of c.tach_intake_min_rpm h.intake_min;
        air_assist_min = floor_of c.tach_air_assist_min_rpm h.air_assist_min;
      };
    }

-- `limits_apply`
unfoldable pub limits_apply : Bool → Engine → Engine
limits_apply fresh e = record e {
  coolant = limits_of e.conf (if fresh then e.report.lim else no_limits) e.coolant;
}
