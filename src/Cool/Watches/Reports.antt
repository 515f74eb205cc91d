-- ===== src/Cool/Watches/Reports.antt =====
-- The head of a tick in src/cool.c: a silent controller, the run session and the emission witness.
use forgectrl.Prelude.{
  ℕ, ◌+◌, Bool, true, false, not, ◌&&◌, ◌||◌, List, [], ◌∷◌, Option, none, some, ltb, leb, ◌==◌,
  if◌then◌else◌,
}
use forgectrl.Cool.State.{wr_stop, wr_latch, Engine, Sight, wrote}
use forgectrl.Cool.Fans.{fans_run, is_run, cool_quiet_hold_ex}
use forgectrl.Cool.Limits.{limits_apply}
use forgectrl.Cool.Session.{flood_open, flood_close}

-- REPORT_TIMEOUT_S
abbrev pub report_timeout : ℕ
report_timeout = 5000

abbrev pub fresh_at : ℕ → Option ℕ → Bool
fresh_at now none = false
fresh_at now (some at) = leb now (at + report_timeout)

abbrev pub fresh : Sight → Engine → Bool
fresh x e = fresh_at x.now e.report.at

-- `safing_write` of the stop and of the latch
abbrev pub safed : Engine → Engine
safed e = wrote wr_latch (wrote wr_stop e)

-- The dead-man: a report that came and is not fresh any more.
unfoldable pub dead_man : Sight → Engine → Engine
dead_man x e = if fresh x e then record e { silent_safed = false } else elim e.report.at [
  | none ↦ e
  | some at ↦
      if (e.report.armed && not e.silent_safed) || x.running_first
      then record (safed e) { silent_safed = true }
      else e
]

abbrev pub armed_at : Sight → Engine → Bool
armed_at x e = fresh x e && e.report.armed

abbrev pub flood_at : Sight → Engine → Bool
flood_at x e = fresh x e && (e.report.mode_run || e.report.armed)

abbrev pub same_duty : List (Option ℕ) → List (Option ℕ) → Bool
same_duty [] [] = true
same_duty [] (q ∷ qs) = false
same_duty (p ∷ ps) [] = false
same_duty (none ∷ ps) (none ∷ qs) = same_duty ps qs
same_duty (none ∷ ps) (some q ∷ qs) = false
same_duty (some p ∷ ps) (none ∷ qs) = false
same_duty (some p ∷ ps) (some q ∷ qs) = p == q && same_duty ps qs

abbrev any_above : List ℕ → List ℕ → Bool
any_above [] qs = false
any_above (p ∷ ps) [] = false
any_above (p ∷ ps) (q ∷ qs) = ltb q p || any_above ps qs

-- COOL_QUIET_HOLD_MAX_S
abbrev quiet_hold_max : ℕ
quiet_hold_max = 600000

-- The quiet hold's release, by an opening and by the clock.
unfoldable pub quiet_release : ℕ → Bool → Engine → Engine
quiet_release now opens e =
    if e.quiet_held && (opens || ltb (e.quiet_since + quiet_hold_max) now)
    then cool_quiet_hold_ex now false false e
    else e

unfoldable pub note_armed : Bool → Bool → Engine → Engine
note_armed flood armed e = record e {
  session_armed =
      if flood && armed then true else if flood && not e.flood_on then false else e.session_armed;
}

-- A change of the duties while a run session stands.
unfoldable pub reapply_duty : ℕ → Bool → Engine → Engine
reapply_duty now changed e =
    let run = fans_run e in
    if changed && (e.flood_on && (is_run e.phase && not e.coolant.forced_cool))
    then (if any_above run.cmd_duty e.cmd_duty
        then record run { air = record run.air { grace_until = now + run.conf.fan_grace_s } }
        else run)
    else e

-- The edge of the run session.
unfoldable pub flood_edge : Sight → Bool → Engine → Engine
flood_edge x true e =
    if e.flood_on then e else limits_apply (fresh x e) (flood_open x (record e { flood_on = true }))
flood_edge x false e = if e.flood_on then flood_close x (record e { flood_on = false }) else e

-- The report's duties and its armed window, and what they do to a quiet hold and to the duties.
abbrev pub armed_rose : Sight → Engine → Bool
armed_rose x e = armed_at x e && not e.eff_armed

unfoldable pub heard : Sight → Engine → Engine
heard x e =
    quiet_release x.now ((flood_at x e && not e.flood_on) || armed_rose x e)
      (record e { run_duty = e.report.duty; eff_armed = armed_at x e })

abbrev pub new_duty : Sight → Engine → Bool
new_duty x e = (not (same_duty e.run_duty e.report.duty) || armed_rose x e) && flood_at x e

unfoldable pub heeded : Sight → Engine → Engine
heeded x e =
    reapply_duty x.now (new_duty x e) (note_armed (flood_at x e) (armed_at x e) (heard x e))

-- The report, taken over by the tick.
unfoldable pub take_report : Sight → Engine → Engine
take_report x e = flood_edge x (flood_at x e) (heeded x e)

-- The emission witness.
abbrev pub recently : ℕ → Option ℕ → Bool
recently now none = false
recently now (some at) = leb now (at + 3000)

abbrev pub emits : Option ℕ → Bool
emits none = false
emits (some n) = ltb 0 n

unfoldable pub emission_watch : Sight → Engine → Engine
emission_watch x e =
    let seen = record e { last_armed_at = if armed_at x e then some x.now else e.last_armed_at } in
    if emits x.emission && not (recently x.now seen.last_armed_at) then safed seen else seen
