-- ===== src/Cool/Acks.antt =====
-- The acknowledgment of the armed window by a tick of src/cool.c.
use forgectrl.Prelude.{
  ℕ, Bool, true, false, not, ◌&&◌, ◌||◌, List, [], ◌∷◌, ◌≡◌, ◌⊎◌, inl, inr, refl, sym, subst, ap,
  ◌∙◌, leb, get_or, if◌then◌else◌, Bool-cases, arith,
}
use forgectrl.Airflow.Gate.{airflow_judged}
use forgectrl.Cool.State.{Config, Engine, Sight}
use forgectrl.Cool.Fans.{fans_verify, intake_run, is_run, is_warmup}
use forgectrl.Cool.Watches.{fresh, flood_at, armed_at}
use forgectrl.Cool.Airflow.{Row, rows, is_under, any_under, judge_airflow, airflow_gates}
use forgectrl.Cool.Tick.{
  diag_verdict, verdict_of, verdict_publish, watches, gates, closing, engine_tick,
}
use forgectrl.Cool.Calls.{Act, acts, statics, cool_init}
use forgectrl.Cool.Sky.{Sky, sky-fans_verify}
use forgectrl.Cool.Alarms.{sky-closing}
use forgectrl.Cool.Heat.{core-fans_verify}
use forgectrl.Cool.Heating.{IsHeated, heat_ok}
use forgectrl.Cool.Heaters.{kept, watches-IsHeated, acts-IsHeated, started-IsHeated}
use forgectrl.Cool.Window.{window, of_sky, window-watches, ack-gates}

-- Every fan reads at least its floor.
unfoldable pub all_at : List Row → Bool
all_at [] = true
all_at (r ∷ rs) = leb r.least r.rpm && all_at rs

row_iff : (r : Row) → (r.judged ≡ true) ⊎ (r.least ≡ 0) → not (is_under r) ≡ leb r.least r.rpm
row_iff r h = ground arith

Counts : List Row → Type 0
Counts [] = Unit
Counts (r ∷ rs) = ((r.judged ≡ true) ⊎ (r.least ≡ 0)) × Counts rs

under_counted : (rs : List Row) → Counts rs → not (any_under rs) ≡ all_at rs
unfolding any_under all_at Counts
under_counted [] h = refl
under_counted (r ∷ rs) (h, hs) = ground (arith, row_iff r h, under_counted rs hs)

armed_judged :
    (run armed : Bool) (duty here : ℕ)
    → run ≡ true
    → armed ≡ true
    → airflow_judged run armed duty here ≡ true
unfolding airflow_judged
armed_judged run armed duty here r a = ground arith

rows-Counts :
    (x : Sight) (e : Engine) → e.eff_armed ≡ true → is_run e.phase ≡ true → Counts (rows x e)
unfolding Counts
rows-Counts x e a r =
    let j : (duty here : ℕ) → airflow_judged (is_run e.phase) e.eff_armed duty here ≡ true =
      λ duty here. armed_judged (is_run e.phase) e.eff_armed duty here r a in
    (
      inl (j _ _),
      (
        inl (j _ _),
        (
          elim (Bool-cases e.conf.one_intake) [
            | inl one ↦ inr (ground (arith, one))
            | inr two ↦ inl (ground (arith, two, j (get_or e.cmd_duty 2 0) intake_run))
          ],
          (inl (j _ _), (inl (j _ _), tt)),
        ),
      ),
    )

IsUnjudged : List Row → Type 0
IsUnjudged [] = Unit
IsUnjudged (r ∷ rs) = (r.judged ≡ false) × IsUnjudged rs

unjudged : (rs : List Row) → IsUnjudged rs → any_under rs ≡ false
unfolding any_under IsUnjudged
unjudged [] h = refl
unjudged (r ∷ rs) (h, hs) = ground (arith, h, unjudged rs hs)

not_run :
    (armed : Bool) (duty here : ℕ) (run : Bool)
    → run ≡ false
    → airflow_judged run armed duty here ≡ false
unfolding airflow_judged
not_run armed duty here run r = ground arith

rows-IsUnjudged : (x : Sight) (e : Engine) → is_run e.phase ≡ false → IsUnjudged (rows x e)
unfolding IsUnjudged
rows-IsUnjudged x e r =
    let j : (duty here : ℕ) → airflow_judged (is_run e.phase) e.eff_armed duty here ≡ false =
      λ duty here. not_run e.eff_armed duty here (is_run e.phase) r in
    (j _ _, (j _ _, (ground (arith, j (get_or e.cmd_duty 2 0) intake_run), (j _ _, (j _ _, tt)))))

-- In an armed window the fans are up where they all read their floors, or in a warm-up.
up_iff :
    (x : Sight) (e : Engine)
    → e.eff_armed ≡ true
    → is_run e.phase || is_warmup e.phase ≡ true
    → not (any_under (rows x e)) ≡ is_warmup e.phase || all_at (rows x e)
up_iff x e armed h = elim (Bool-cases (is_run e.phase)) [
  | inl r ↦
      let c = under_counted (rows x e) (rows-Counts x e armed r) in
      let w : is_warmup e.phase ≡ false = ground (arith, r) in
      c ∙ ap (λ b. b || all_at (rows x e)) (sym w)
  | inr r ↦
      let w : is_warmup e.phase ≡ true = ground (arith, r, h) in
      ap not (unjudged (rows x e) (rows-IsUnjudged x e r))
      ∙ ap (λ b. b || all_at (rows x e)) (sym w)
]

open_phase_of :
    (e : Engine) → IsHeated e → e.flood_on ≡ true → is_run e.phase || is_warmup e.phase ≡ true
unfolding heat_ok
open_phase_of e h on = ground arith

airflow_acks :
    (x : Sight) (m : Engine) (armed flood : Bool)
    → window m ≡ (armed, flood)
    → (armed ≡ true → flood ≡ true)
    → IsHeated m
    → m.eff_armed && (m.flood_on && not (any_under (rows x m)))
      ≡ (armed && (is_warmup m.phase || all_at (rows x m)))
airflow_acks x m false flood w f h =
    ap (λ b. b && (m.flood_on && not (any_under (rows x m)))) (ap (λ w. w.0) w)
airflow_acks x m true flood w f h =
    let on = ap (λ w. w.1) w ∙ f refl in
    let armed = ap (λ w. w.0) w in
    ap (λ b. b && (m.flood_on && not (any_under (rows x m)))) armed
    ∙ ap (λ b. b && not (any_under (rows x m))) on
    ∙ up_iff x m armed (open_phase_of m h on)

-- The engine as its fans are judged in a tick.
abbrev pub judged_at : Sight → Engine → Engine
judged_at x e = fans_verify x (watches x e)

ack_of :
    (x : Sight) (e : Engine)
    → IsHeated e
    → e.diag_owned ≡ false
    → (verdict_of (fresh x e) x.ext_standing (closing x (gates x (watches x e)))).armed_ack
      ≡ (armed_at x e && (is_warmup (judged_at x e).phase || all_at (rows x (judged_at x e))))
unfolding verdict_of airflow_gates judge_airflow
ack_of x e h own =
    let seen = watches x e in
    let m = judged_at x e in
    let a = ap (λ (s : Sky). s.1.1.1) (sky-closing x (gates x seen)) ∙ ack-gates x seen in
    ap (λ (a : Bool × (Bool × Bool)). a.0 && a.1.1) a
    ∙ airflow_acks x m (armed_at x e) (flood_at x e)
        (ap of_sky (sky-fans_verify x seen) ∙ window-watches x e) (λ p. ground (arith, p))
        (kept seen m (core-fans_verify x seen) (watches-IsHeated x e own h))

acks :
    (x : Sight) (e : Engine)
    → IsHeated e
    → e.diag_owned ≡ false
    → (engine_tick x e).published.armed_ack
      ≡ (armed_at x e && (is_warmup (judged_at x e).phase || all_at (rows x (judged_at x e))))
unfolding engine_tick verdict_publish
acks x e h own =
    subst
      (λ b.
        (if b
          then record e { published = diag_verdict e; shown_idle = false }
          else verdict_publish (fresh x e) x.ext_standing
              (closing x (gates x (watches x e)))).published.armed_ack
        ≡ (armed_at x e && (is_warmup (judged_at x e).phase || all_at (rows x (judged_at x e)))))
      (sym own) (ack_of x e h own)

-- Whatever happened since the start, a tick that no diagnostic keeps away acknowledges the armed
-- window exactly where a report of the last five seconds holds it open and every fan reads at least
-- its floor, or, whatever the fans read, where the session is in its warm-up as they are judged.
pub armed_ack_iff :
    (x0 : Sight) (c : Config) (happens : List Act) (x : Sight)
    → (acts happens (cool_init x0 (statics c))).diag_owned ≡ false
    → (engine_tick x (acts happens (cool_init x0 (statics c)))).published.armed_ack ≡ (
        armed_at x (acts happens (cool_init x0 (statics c)))
        && (is_warmup (judged_at x (acts happens (cool_init x0 (statics c)))).phase
            || all_at (rows x (judged_at x (acts happens (cool_init x0 (statics c)))))))
armed_ack_iff x0 c happens x own =
    acks x (acts happens (cool_init x0 (statics c)))
      (acts-IsHeated happens (cool_init x0 (statics c)) (started-IsHeated x0 c)) own
