-- ===== src/Cool/Watches/Sensing.antt =====
-- The lid's fire watch, the tube's current and the head's crash watch of a tick in src/cool.c.
use forgectrl.Prelude.{
  ℕ, zero, suc, ◌/◌, Bool, true, false, not, ◌&&◌, ◌||◌, List, [], ◌∷◌, Option, none, some, take,
  ltb, leb, if◌then◌else◌,
}
use forgectrl.Crash.Watch.{Source, CrashEvent, ev_none, ev_alert, ev_alarm, ev_released, crash_tick}
use forgectrl.Cool.State.{
  Config, fail_tier_stop, Fire, Chip, unprobed, present, absent, Engine, Sight, wrote,
}
use forgectrl.Cool.Fans.{fans_run, is_run, is_airflow}
use forgectrl.Cool.Watches.Reports.{safed}

-- One round of the sort: a value against those behind it, each exchange as it comes.
unfoldable pub exchange : ℕ → List ℕ → ℕ × List ℕ
exchange q [] = (q, [])
exchange q (r ∷ rs) =
    let here = exchange q rs in
    let there = exchange r rs in if ltb r q then (there.0, q ∷ there.1) else (here.0, r ∷ here.1)

unfoldable pub quartiles : ℕ → List ℕ → List ℕ
quartiles zero qs = qs
quartiles (suc n) [] = []
quartiles (suc n) (q ∷ qs) = let least = exchange q qs in least.0 ∷ quartiles n (least.1)

abbrev all_read : List (Option ℕ) → Option (List ℕ)
all_read [] = some []
all_read (none ∷ vs) = none
all_read (some v ∷ vs) = elim (all_read vs) [ none ↦ none | some us ↦ some (v ∷ us) ]

abbrev pub fire_ir_ticks : ℕ
fire_ir_ticks = 2

abbrev pub fire_clear_ticks : ℕ
fire_clear_ticks = 5

-- A quartile over a limit that is not off; the limit loses its fraction.
abbrev pub over : ℕ → ℕ → Bool
over limit q = ltb 0 limit && ltb (limit / 10000000) q

abbrev pub is_critical : Config → ℕ → ℕ → Bool
is_critical c q1 q2 = over c.fire_q1_critical q1 || over c.fire_q2_critical q2

abbrev pub is_alert : Config → ℕ → ℕ → Bool
is_alert c q1 q2 = is_critical c q1 q2 || (over c.fire_q1_alert q1 || over c.fire_q2_alert q2)

-- The watch's own state; a new alarm is the engine's to act on.
unfoldable pub fire_judge : Config → ℕ → ℕ → Fire → Fire
fire_judge c q1 q2 f =
    let crit = is_critical c q1 q2 in
    let alert = is_alert c q1 q2 in
    let n = if alert then suc f.over_ticks else 0 in
    let long = leb fire_ir_ticks n in
    let alarm = f.alarm || (crit && long) in
    let fresh_alert = not crit && (long && (not f.alert && not f.alarm)) in
    let stands = f.alert || fresh_alert in
    let quiet = suc f.clear_ticks in
    record {
      alarm = alarm;
      over_ticks = n;
      alert = if stands && not alert then not (leb fire_clear_ticks quiet) else stands;
      clear_ticks = if stands then (if alert then 0 else quiet) else f.clear_ticks;
    }

abbrev head_two : List ℕ → ℕ × ℕ
head_two [] = (0, 0)
head_two (p ∷ []) = (p, 0)
head_two (p ∷ (q ∷ qs)) = (p, q)

abbrev pub quartiles_of : List ℕ → ℕ × ℕ
quartiles_of ir = head_two (quartiles 3 ir)

unfoldable pub fire_signal : ℕ × ℕ → Engine → Engine
fire_signal q e =
    let judged = fire_judge e.conf (q.0) (q.1) e.fire in
    let next = record e { fire = judged } in
    if judged.alarm && not e.fire.alarm then wrote fail_tier_stop (fans_run (safed next)) else next

unfoldable pub fire_watch : Sight → Engine → Engine
fire_watch x e = elim (if is_airflow e.phase then all_read x.lid_ir else none) [
  | some ir ↦ fire_signal (quartiles_of ir) e
  | none ↦
      if e.fire.alert
      then record e { fire = record e.fire { alert = false; clear_ticks = 0 } }
      else e
]

-- FLOW_LAG_S
abbrev flow_lag : ℕ
flow_lag = 15

-- The tube's current, and its last readings.
unfoldable pub hv_watch : Sight → Engine → Engine
hv_watch x e =
    let hv = if is_run e.phase then x.hv else none in
    record e {
      flow = record e.flow { hv_last = hv; hv_hist = take flow_lag (hv ∷ e.flow.hv_hist) };
    }

abbrev is_unprobed : Chip → Bool
is_unprobed unprobed = true
is_unprobed present = false
is_unprobed absent = false

abbrev is_absent : Chip → Bool
is_absent absent = true
is_absent present = false
is_absent unprobed = false

abbrev wanted : Config → Bool → Bool
wanted c armed = armed && (ltb 0 c.accel_x_alert || (ltb 0 c.accel_y_alert || ltb 0 c.accel_abort))

-- The chip is opened, armed and disarmed.
unfoldable pub arm_chip : Sight → Engine → Engine
arm_chip x e =
    let want = wanted e.conf e.eff_armed in
    let h = e.head in
    let there = if is_unprobed h.chip then x.chip_opens else true in
    if want && (not h.chip_armed && (not (is_absent h.chip) && ltb h.poll_errs 3))
    then record e {
      head = record h {
        chip = if there && x.chip_arms then present else absent;
        chip_armed = there && x.chip_arms;
      };
    }
    else if not want && h.chip_armed
    then record e { head = record h { chip_armed = false; poll_errs = 0 } }
    else e

abbrev is_alarm : CrashEvent → Bool
is_alarm ev_alarm = true
is_alarm ev_none = false
is_alarm ev_alert = false
is_alarm ev_released = false

unfoldable pub crash_signal : Source × Source → Engine → Engine
crash_signal s e =
    let ticked = crash_tick (s.0) (s.1) e.head.watch in
    let next = record e { head = record e.head { watch = ticked.0; poll_errs = 0 } } in
    if is_alarm (ticked.1) then wrote fail_tier_stop (safed next) else next

unfoldable pub crash_unread : Engine → Engine
crash_unread e =
    let n = suc e.head.poll_errs in
    record e {
      head = record e.head {
        poll_errs = n;
        chip_armed = if leb 3 n then false else e.head.chip_armed;
      };
    }

unfoldable pub crash_poll : Sight → Engine → Engine
crash_poll x e =
    if e.head.chip_armed
    then elim x.polled [ none ↦ crash_unread e | some s ↦ crash_signal s e ]
    else e
