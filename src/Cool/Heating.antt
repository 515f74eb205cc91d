-- ===== src/Cool/Heating.antt =====
-- The invariant of the heater of src/cool.c: it heats in a warm-up, in a check and for a diagnostic.
use forgectrl.Prelude.{
  ℕ, Bool, true, false, not, ◌&&◌, ◌||◌, Option, none, some, ◌≡◌, sym, subst, ap, ◌==◌,
  if◌then◌else◌, arith,
}
use forgectrl.Cool.State.{CoolState, cool_run, Engine, Sight}
use forgectrl.Cool.Fans.{heater_set_pct, fans_idle, fans_run, fans_cool, is_run, is_warmup}
use forgectrl.Cool.Session.{
  ask_check, open_warm, open_run, open_phase, close_gates, drop_check, flood_close,
  flow_check_start,
}
use forgectrl.Cool.Coolant.{
  sensors, sensors_back, sensors_lost, blinded, warm_hold, warm_at, warm_release,
}
use forgectrl.Cool.Flow.{
  flow_part, flow_check, check_tick, check_end_at, check_verdict, fault_noted, check_due, suspicion,
  flow_history, flow_release, check_gate, check_start_at, check_sample,
}
use forgectrl.Cool.Tick.{is_idle_phase, cooldown, smoke_end, thermal_end}
use forgectrl.Cool.Heat.{core, core-fans_run}

unfoldable pub heat_ok : CoolState × (Bool × (ℕ × (Bool × (Bool × Bool)))) → Bool
heat_ok (phase, (flood, (heater, (active, (pending, diag))))) =
    (heater == 0 || (active || (is_warmup phase || diag)))
    && ((not active || is_run phase)
        && ((not pending || is_run phase)
            && ((if flood
                  then is_run phase || is_warmup phase
                  else not (is_run phase || is_warmup phase))
                && (not diag || is_idle_phase phase))))

-- The heater heats in a check, in a warm-up or for a diagnostic; a check is under way or waits in a
-- run, and a diagnostic has the engine when it is idle; a session is open in the run and the warm-up.
abbrev pub IsHeated : Engine → Type 0
IsHeated e = heat_ok (core e) ≡ true

pub cooldown-IsHeated : (x : Sight) (e : Engine) → IsHeated e → IsHeated (cooldown x e)
unfolding cooldown smoke_end thermal_end heat_ok fans_idle fans_cool
cooldown-IsHeated x e h = ground arith

pub ask-IsHeated :
    (now : ℕ) (e : Engine) → is_run e.phase ≡ true → IsHeated e → IsHeated (ask_check now e)
unfolding heat_ok ask_check
ask-IsHeated now e r h = ground arith

runs : (e : Engine) → (fans_run e).phase ≡ e.phase
runs e = ap (λ c. c.0) (core-fans_run e)

released : Engine → Engine
released e = record (heater_set_pct 0 e) { phase = cool_run }

released-IsHeated :
    (e : Engine) → is_warmup e.phase ≡ true → IsHeated e → IsHeated (fans_run (released e))
unfolding heat_ok heater_set_pct released
released-IsHeated e w h =
    subst (λ c. heat_ok c ≡ true) (sym (core-fans_run (released e))) (ground arith)

warm_release-IsHeated :
    (now : ℕ) (e : Engine) → is_warmup e.phase ≡ true → IsHeated e → IsHeated (warm_release now e)
unfolding warm_release released
warm_release-IsHeated now e w h =
    ask-IsHeated now _ (ap is_run (runs (released e))) (released-IsHeated e w h)

pub warm-IsHeated : (x : Sight) (e : Engine) → IsHeated e → IsHeated (warm_hold x e)
unfolding warm_hold warm_at
warm-IsHeated x e h = grind (arith, warm_release-IsHeated)

pub sensors-IsHeated : (x : Sight) (e : Engine) → IsHeated e → IsHeated (sensors x e)
unfolding sensors sensors_back sensors_lost blinded heat_ok heater_set_pct ask_check
sensors-IsHeated x e h = ground arith

flow_check-IsHeated : (x : Sight) (e : Engine) → IsHeated e → IsHeated (flow_check x e)
unfolding flow_check check_tick check_end_at check_verdict fault_noted check_due heat_ok
    heater_set_pct check_sample
flow_check-IsHeated x e h = ground arith

suspicion-IsHeated : (now : ℕ) (e : Engine) → IsHeated e → IsHeated (suspicion now e)
unfolding suspicion fault_noted heat_ok
suspicion-IsHeated now e h = ground arith

check_gate-IsHeated : (x : Sight) (e : Engine) → IsHeated e → IsHeated (check_gate x e)
unfolding check_gate check_start_at flow_check_start heat_ok heater_set_pct
check_gate-IsHeated x e h = ground arith

history-IsHeated :
    (now : ℕ) (down : Option ℕ) (e : Engine)
    → IsHeated e
    → IsHeated (record e { flow = flow_release now (flow_history down e.flow) })
unfolding flow_release flow_history heat_ok
history-IsHeated now none e h = h
history-IsHeated now (some d) e h = h

pub flow-IsHeated : (x : Sight) (e : Engine) → IsHeated e → IsHeated (flow_part x e)
unfolding flow_part
flow-IsHeated x e h =
    let told = suspicion x.now (flow_check x e) in
    check_gate-IsHeated x
      (record told { flow = flow_release x.now (flow_history x.down told.flow) })
      (history-IsHeated x.now x.down told
        (suspicion-IsHeated x.now (flow_check x e) (flow_check-IsHeated x e h)))

pub close-IsHeated :
    (x : Sight) (e : Engine)
    → IsHeated e
    → e.flood_on ≡ true
    → IsHeated (flood_close x (record e { flood_on = false }))
unfolding flood_close close_gates drop_check heat_ok heater_set_pct
close-IsHeated x e h on = ground arith

-- An opening, from where no session stands and no diagnostic has the engine.
open_warm-IsHeated :
    (up now : ℕ) (e : Engine)
    → e.flood_on ≡ true
    → e.flow.active ≡ false
    → e.flow.pending ≡ false
    → e.diag_owned ≡ false
    → IsHeated (open_warm up now e)
unfolding open_warm fans_idle heat_ok heater_set_pct
open_warm-IsHeated up now e on idle none_waits own = ground arith

open_run-IsHeated :
    (e : Engine)
    → e.flood_on ≡ true
    → e.flow.active ≡ false
    → e.flow.pending ≡ false
    → e.diag_owned ≡ false
    → e.heater_pct ≡ 0
    → IsHeated (open_run e)
unfolding fans_run heat_ok
open_run-IsHeated e on idle none_waits own cold = ground arith

pub open_phase-IsHeated :
    (up : Option ℕ) (now : ℕ) (e : Engine)
    → e.flood_on ≡ true
    → e.flow.active ≡ false
    → e.flow.pending ≡ false
    → e.diag_owned ≡ false
    → e.heater_pct ≡ 0
    → IsHeated (open_phase up now e)
unfolding open_phase
open_phase-IsHeated none now e on idle none_waits own cold =
    open_run-IsHeated e on idle none_waits own cold
open_phase-IsHeated (some up) now e on idle none_waits own cold =
    grind (arith, open_run-IsHeated, open_warm-IsHeated)
