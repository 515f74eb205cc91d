-- ===== src/Cool/FireOk.antt =====
-- What a verdict of src/cool.c that lets the laser fire rests on.
use forgectrl.Prelude.{
  ℕ, ◌≤◌, Bool, true, false, Option, none, some, ◌≡◌, ◌⊎◌, sym, subst, ap, ◌∙◌, if_holds, arith,
}
use forgectrl.Gates.Table.{gate_floor_trip}
use forgectrl.Cool.State.{Config, Report, Engine, Sight, deg}
use forgectrl.Cool.Fans.{is_warmup}
use forgectrl.Cool.Watches.{fresh}
use forgectrl.Cool.Airflow.{airflow_gates}
use forgectrl.Cool.Coolant.{
  sensors, ceiling_at, ceiling, over_set, cool_released, cold_floor, warm_hold, critical_line,
}
use forgectrl.Cool.Tick.{
  is_fault, verdict_of, verdict_publish, watches, gates, closing, engine_tick,
}
use forgectrl.Cool.Sky.{Sky, lims, alarms, temps, sky-warm_hold}
use forgectrl.Cool.Alarms.{any_alarm, sky-closing}
use forgectrl.Cool.Clear.{
  IsBounded, IsOrdered, watches-IsBounded, watches_report, lims-gates, lims-felt, lims-ceiling,
}

abbrev Lims : Type 0
Lims = Config × (Report × (Bool × (Bool × (ℕ × (ℕ × ℕ)))))

-- The reading is at most the ceiling, or, once it was over it, the resume gate; or the gate is off.
unfoldable IsUnder : Option ℕ → Lims → Type 0
IsUnder none l = Unit
IsUnder (some up) (c, (r, (max_off, (floor_off, (top, (resume, least)))))) =
    (max_off ≡ true) ⊎ ((up ≤ top) ⊎ (up ≤ resume))

unfoldable IsOver : Option ℕ → Lims → Type 0
IsOver none l = Unit
IsOver (some up) (c, (r, (max_off, (floor_off, (top, (resume, least)))))) =
    (floor_off ≡ true) ⊎ (least ≤ up)

ceiling-IsUnder :
    (x : Sight) (e : Engine) → (ceiling x e).coolant.over_temp ≡ false → IsUnder x.up (lims e)
unfolding ceiling ceiling_at over_set cool_released IsUnder
ceiling-IsUnder x e h = ground arith

cold-IsOver :
    (x : Sight) (e : Engine) → (cold_floor x e).coolant.cold ≡ false → IsOver x.up (lims e)
unfolding cold_floor gate_floor_trip IsOver
cold-IsOver x e h = ground arith

cold_over : (x : Sight) (e : Engine) → (cold_floor x e).coolant.over_temp ≡ e.coolant.over_temp
unfolding cold_floor
cold_over x e = ground arith

temps-critical_line : (x : Sight) (e : Engine) → temps (critical_line x e) ≡ temps e
unfolding critical_line
temps-critical_line x e = ground arith

-- The reading is at most the ceiling of the settings, and of the job where that gives one.
unfoldable pub IsCool : Option ℕ → Config → Report → Bool → Type 0
IsCool none c r off = Unit
IsCool (some up) c r off =
    (off ≡ true)
    ⊎ ((up ≤ deg c.temp_max_c) × ((r.lim.coolant_max ≡ 0) ⊎ (up ≤ deg r.lim.coolant_max)))

-- The reading is at least the floor of the settings, and of the job.
unfoldable pub IsMild : Option ℕ → Config → Report → Bool → Type 0
IsMild none c r off = Unit
IsMild (some up) c r off = (off ≡ true) ⊎ ((deg c.temp_min_c ≤ up) × (deg r.lim.coolant_min ≤ up))

bounds-IsCool :
    (up : Option ℕ) (l : Lims) → IsBounded l → IsUnder up l → IsCool up (l.0) (l.1.0) (l.1.1.0)
unfolding IsBounded IsUnder IsCool
bounds-IsCool none l b u = tt
bounds-IsCool (some up) l b u = ground arith

bounds-IsMild :
    (up : Option ℕ) (l : Lims) → IsBounded l → IsOver up l → IsMild up (l.0) (l.1.0) (l.1.1.1.0)
unfolding IsBounded IsOver IsMild
bounds-IsMild none l b u = tt
bounds-IsMild (some up) l b u = ground arith

-- What a verdict that lets the laser fire says of the engine.
IsQuiet : Bool → Bool → Engine → Type 0
IsQuiet is_fresh ext e =
    (is_fresh ≡ true)
    × ((ext ≡ false)
        × ((any_alarm (alarms e) ≡ false)
            × ((temps e ≡ (false, false))
                × ((is_warmup e.phase ≡ false) × (is_fault e.flow.verdict ≡ false)))))

verdict-IsQuiet :
    (is_fresh ext : Bool) (e : Engine)
    → (verdict_of is_fresh ext e).fire_ok ≡ true
    → IsQuiet is_fresh ext e
unfolding verdict_of any_alarm IsQuiet
verdict-IsQuiet is_fresh ext e h = ground arith

temps-gates :
    (x : Sight) (e : Engine)
    → temps (gates x e) ≡ temps (cold_floor x (ceiling x (sensors x (airflow_gates x e))))
unfolding gates
temps-gates x e =
    let bounded = cold_floor x (ceiling x (sensors x (airflow_gates x e))) in
    temps-critical_line x (warm_hold x bounded)
    ∙ ap (λ (s : Sky). s.1.1.0) (sky-warm_hold x bounded)

gates-IsUnder :
    (x : Sight) (e : Engine)
    → temps (gates x e) ≡ (false, false)
    → IsUnder x.up (lims e) × IsOver x.up (lims e)
gates-IsUnder x e h =
    let felt = sensors x (airflow_gates x e) in
    let t = sym (temps-gates x e) ∙ h in
    let hot = ceiling-IsUnder x felt (sym (cold_over x (ceiling x felt)) ∙ ap (λ t. t.0) t) in
    let mild = cold-IsOver x (ceiling x felt) (ap (λ t. t.1) t) in
    (
      subst (IsUnder x.up) (lims-felt x e) hot,
      subst (IsOver x.up) (lims-ceiling x felt ∙ lims-felt x e) mild,
    )

-- The engine behind a tick that published that the laser may fire.
abbrev pub IsClear : Sight → Engine → Engine → Type 0
IsClear x e r =
    (fresh x e ≡ true)
    × ((e.diag_owned ≡ false)
        × ((x.ext_standing ≡ false)
            × ((any_alarm (alarms r) ≡ false)
                × ((is_warmup r.phase ≡ false)
                    × ((is_fault r.flow.verdict ≡ false)
                        × (IsCool x.up r.conf e.report r.coolant.max_off
                            × IsMild x.up r.conf e.report r.coolant.floor_off))))))

closing-IsClear :
    (x : Sight) (e : Engine)
    → IsOrdered x.settings
    → IsOrdered e.conf
    → e.diag_owned ≡ false
    → (verdict_of (fresh x e) x.ext_standing (closing x (gates x (watches x e)))).fire_ok ≡ true
    → IsClear x e (closing x (gates x (watches x e)))
unfolding IsQuiet
closing-IsClear x e o o' own h =
    let seen = watches x e in
    let g = gates x seen in
    let (live, (ext, (calm, (t, (warm, flows))))) =
      verdict-IsQuiet (fresh x e) x.ext_standing (closing x g) h in
    let c = sky-closing x g in
    let l = ap (λ (s : Sky). s.0) c ∙ lims-gates x seen in
    let (under, over) = gates-IsUnder x seen (sym (ap (λ (s : Sky). s.1.1.0) c) ∙ t) in
    let b = watches-IsBounded x e o o' live in
    let cool =
      subst (λ (l : Lims). IsCool x.up (l.0) (l.1.0) (l.1.1.0)) (sym l)
        (bounds-IsCool x.up (lims seen) b under) in
    let mild =
      subst (λ (l : Lims). IsMild x.up (l.0) (l.1.0) (l.1.1.1.0)) (sym l)
        (bounds-IsMild x.up (lims seen) b over) in
    let r = ap (λ (l : Lims). l.1.0) l ∙ watches_report x e in
    (
      live,
      (
        own,
        (
          ext,
          (
            calm,
            (
              warm,
              (
                flows,
                (
                  subst (λ r. IsCool x.up (closing x g).conf r (closing x g).coolant.max_off) r
                      cool,
                  subst (λ r. IsMild x.up (closing x g).conf r (closing x g).coolant.floor_off) r
                      mild,
                ),
              ),
            ),
          ),
        ),
      ),
    )

-- A tick publishes that the laser may fire only with a controller's report of the last five seconds,
-- no diagnostic, no extension's hold, none of the four faults, no warm-up and no flow fault, and with
-- a coolant that reads, if it reads, at most the ceiling of the settings in force and of the job, and
-- at least the floor of both, each unless its gate is off; for settings whose resume gate is not over
-- their ceiling.
pub fire_ok-IsClear :
    (x : Sight) (e : Engine)
    → IsOrdered x.settings
    → IsOrdered e.conf
    → (engine_tick x e).published.fire_ok ≡ true
    → IsClear x e (engine_tick x e)
unfolding engine_tick verdict_publish
fire_ok-IsClear x e o o' =
    if_holds (λ (g : Engine). g.published.fire_ok ≡ true → IsClear x e g) e.diag_owned _ _
      (λ d h. ground (arith, h)) (λ d h. closing-IsClear x e o o' d h)
