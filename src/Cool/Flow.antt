-- ===== src/Cool/Flow.antt =====
-- The flow check of a tick in src/cool.c.
use forgectrl.Prelude.{
  ℕ, suc, ◌+◌, ◌-◌, ◌*◌, Bool, true, false, not, ◌&&◌, ◌||◌, List, [], ◌∷◌, Option, none, some,
  length, take, drop, min, ltb, leb, ◌==◌, if◌then◌else◌,
}
use forgectrl.Cool.State.{
  Config, FlowVerdict, flow_normal, flow_suspect, flow_fault, Flow, flow_flagged, Engine, Sight,
  wrote,
}
use forgectrl.Cool.Fans.{heater_set_pct, is_run, seconds}
use forgectrl.Cool.Session.{sum, flow_check_start, asked, is_suspect}

-- FLOW_END_WIN, FLOW_LAG_S, LASER_HEAT_MAX_C
abbrev pub flow_end_win : ℕ
flow_end_win = 5

abbrev flow_lag_s : ℕ
flow_lag_s = 15

abbrev pub laser_heat_max : ℕ
laser_heat_max = 30000000

-- A reading of a check under way: the baseline where there is none, the last readings, the dose.
unfoldable pub check_sample : ℕ → ℕ → Flow → Flow
check_sample now down f = record f {
  base_sum = if f.base_n == 0 then down else f.base_sum;
  base_n = if f.base_n == 0 then 1 else f.base_n;
  ends = take flow_end_win (down ∷ f.ends);
  dose = elim f.hv_last [
    | none ↦ f.dose
    | some hv ↦ if ltb (now + seconds flow_lag_s) f.check_end then f.dose + hv else f.dose
  ];
}

-- The share of the tube in the rise.
abbrev pub laser_c : Config → ℕ → ℕ
laser_c c dose = min laser_heat_max (dose * c.laser_heat)

-- The rise is over the limit: the mean of the last readings, less that of the baseline and the share
-- of the tube, with the two means' counts multiplied out.
abbrev pub rise_over : Config → Flow → Bool
rise_over c f =
    ltb (length f.ends * (f.base_sum + f.base_n * (laser_c c f.dose + c.flow_fault_rise)))
      (sum f.ends * f.base_n)

abbrev is_normal : FlowVerdict → Bool
is_normal flow_normal = true
is_normal flow_suspect = false
is_normal flow_fault = false

-- `flow_fault_noted`
unfoldable pub fault_noted : Engine → Engine
fault_noted e =
    let noted = record e {
      flow = record e.flow { verdict = flow_fault; streak = suc e.flow.streak };
    } in
    if suc e.flow.streak == 2 then wrote flow_flagged noted else noted

unfoldable pub check_verdict : ℕ → Bool → Engine → Engine
check_verdict now true e =
    if is_normal e.flow.verdict
    then record e {
      flow = asked now (record e.flow { verdict = flow_suspect; suspect_since = now });
    }
    else fault_noted e
check_verdict now false e = if is_normal e.flow.verdict then e else record e {
  flow = record e.flow { verdict = flow_normal; streak = 0; episodes = suc e.flow.episodes };
}

-- The check's end: the heater off, the next one due.
unfoldable pub check_end_at : ℕ → Engine → Engine
check_end_at now e = check_verdict now (rise_over e.conf e.flow) (
    heater_set_pct 0 (record e {
      flow = record e.flow { active = false; next_check = now + seconds e.conf.flow_recheck_s };
    }))

unfoldable pub check_tick : ℕ → ℕ → Engine → Engine
check_tick now down e =
    let sampled = record e { flow = check_sample now down e.flow } in
    if leb e.flow.check_end now then check_end_at now sampled else sampled

unfoldable pub check_due : ℕ → Engine → Engine
check_due now e =
    if is_run e.phase
      && (ltb 0 e.conf.flow_check_s
          && (ltb 0 e.conf.flow_recheck_s && (not e.flow.pending && leb e.flow.next_check now)))
    then record e { flow = asked now e.flow }
    else e

abbrev both : Option ℕ → Option ℕ → Option (ℕ × ℕ)
both none v = none
both (some d) none = none
both (some d) (some u) = some (d, u)

unfoldable pub flow_check : Sight → Engine → Engine
flow_check x e = elim (if e.flow.active then both x.down x.up else none) [
  | some r ↦ check_tick x.now (r.0) e
  | none ↦ check_due x.now e
]

-- A suspicion that is not resolved in time.
unfoldable pub suspicion : ℕ → Engine → Engine
suspicion now e =
    if is_suspect e.flow.verdict
      && (not e.flow.active
          && (is_run e.phase && ltb (e.flow.suspect_since + seconds e.conf.confirm_max_s) now))
    then fault_noted e
    else e

-- FLOW_SETTLE_WIN, and the half of it that is newer
abbrev pub settle_win : ℕ
settle_win = 15

abbrev newer : ℕ
newer = 8

unfoldable pub flow_history : Option ℕ → Flow → Flow
flow_history none f = f
flow_history (some down) f = record f {
  hist = if f.active then [] else take settle_win (down ∷ f.hist);
}

-- COOL_FLOW_HOLD_MAX_S
abbrev flow_hold_max : ℕ
flow_hold_max = 600000

unfoldable pub flow_release : ℕ → Flow → Flow
flow_release now f = record f { held = f.held && not (ltb (f.hold_since + flow_hold_max) now) }

abbrev pub apart : ℕ → ℕ → ℕ
apart a b = (a - b) + (b - a)

-- COOL_SETTLE_DT_C and COOL_SETTLE_DRIFT_C
abbrev pub settle_dt : ℕ
settle_dt = 15000000

abbrev pub settle_drift : ℕ
settle_drift = 4000000

-- The means of the two halves of a full window are close, with their counts multiplied out.
abbrev pub stationary : List ℕ → Bool
stationary hist =
    leb settle_win (length hist)
    && leb (apart (7 * sum (take newer hist)) (8 * sum (drop newer hist))) (56 * settle_drift)

-- FLOW_SETTLE_WARN_S
abbrev settle_warn : ℕ
settle_warn = 180000

unfoldable pub check_start_at : ℕ → ℕ × ℕ → Engine → Engine
check_start_at now r e =
    if stationary e.flow.hist && leb (apart (r.0) (r.1)) settle_dt
    then flow_check_start now (record e { flow = record e.flow { pending = false } })
    else record e {
      flow = record e.flow {
        settle_warned = e.flow.settle_warned || ltb (e.flow.pending_since + settle_warn) now;
      };
    }

abbrev waits : Flow → Bool
waits f = f.pending && (not f.active && not f.held)

unfoldable pub check_gate : Sight → Engine → Engine
check_gate x e = elim (if waits e.flow then both x.down x.up else none) [
  | some r ↦ check_start_at x.now r e
  | none ↦ e
]

-- The flow check's part of the tick, in its order.
unfoldable pub flow_part : Sight → Engine → Engine
flow_part x e =
    let told = suspicion x.now (flow_check x e) in
    check_gate x (record told { flow = flow_release x.now (flow_history x.down told.flow) })
