-- ===== src/Super/Probe.antt =====
-- `probe_sequence` of src/super.c: the motion probe and the ladder of rail-off times behind it.
use forgectrl.Prelude.{Bool, true, false, List, [], ◌∷◌, Option, none, some, if◌then◌else◌}
use forgectrl.Super.State.{Act, wr_stop, wr_enable, wr_disable, motion_probe, lens_hunt, Super}
use forgectrl.Super.Sections.{Other, others, Verdict, fault, verified, unverified, waits, aborted}

-- What `liveness_probe` returns: 1, 0, -3, -2, and any other negative value.
pub data Motion : Type 0 where
  moves dead busy opened no_accel : Motion

-- What `lenshome_run` returns: 1, 0, -1.
pub data Lens : Type 0 where
  on_edge no_edge skipped : Lens

-- One rung: what other threads do before each look at the abort flag (in the wait with the rail
-- off, before the rail goes on, in the second behind it), and what the probe and the lens hunt
-- give.
pub record Rung : Type 0 where
  pub rail_off : List (List Other)
  pub before : List Other
  pub settle : List (List Other)
  pub motion : Motion
  pub lens : Lens

abbrev pub emit : Act → Super → Super
emit a s = record s { log = a ∷ s.log }

-- `probe_wait`: the looks at the flag until the time is over; `true` when the probe must end.
unfoldable pub probe_wait : List (List Other) → Super → Super × Bool
probe_wait [] s = (s, false)
probe_wait (os ∷ looks) s =
    let t = others os s in
    let rest = probe_wait looks t in if t.probe_abort then (t, true) else rest

-- The label `aborted`.
abbrev pub ended : Super → Super × Verdict
ended s = (emit wr_stop s, aborted)

-- Behind a probe that saw motion: the lens takes its reference.
abbrev pub referenced : Lens → Super → Super × Verdict
referenced no_edge s = (emit lens_hunt s, fault)
referenced _ s = (emit lens_hunt s, verified)

-- One rung's judgment; `none` goes on to the next rung.
abbrev pub measured : Motion → Lens → Super → Super × Option Verdict
measured busy l s = (s, some waits)
measured moves l s = let (t, v) = referenced l s in (t, some v)
measured opened l s = (s, some waits)
measured no_accel l s = (s, some unverified)
measured dead l s = (s, none)

-- The rung from the look before the rail goes on.
unfoldable pub rung_on : Rung → Super → Super × Option Verdict
rung_on r s =
    let t = others r.before s in
    if t.probe_abort
    then (emit wr_stop t, some aborted)
    else let (u, out) = probe_wait r.settle (emit wr_enable t) in
      if out then (emit wr_stop u, some aborted) else measured r.motion r.lens (emit motion_probe u)

-- A whole rung; the first has no time with the rail off.
unfoldable pub rung : Bool → Rung → Super → Super × Option Verdict
rung first r s =
    if first
    then rung_on r s
    else let (t, out) = probe_wait r.rail_off (emit wr_disable s) in
      if out then (emit wr_stop t, some aborted) else rung_on r t

-- The loop over the rungs that are left.
unfoldable pub ladder : Bool → List Rung → Super → Super × Verdict
ladder first [] s = (s, fault)
ladder first (r ∷ rs) s =
    let (t, v) = rung first r s in
    let rest = ladder false rs t in elim v [ some v' ↦ (t, v') | none ↦ rest ]

-- `ladder_s` has four rungs: 0, 5, 15 and 30 seconds.
pub record Ladder : Type 0 where
  pub released : Bool
  pub rung_0 : Rung
  pub rung_5 : Rung
  pub rung_15 : Rung
  pub rung_30 : Rung

-- `probe_sequence`
unfoldable pub probe_sequence : Ladder → Super → Super × Verdict
probe_sequence l s =
    if l.released
    then (s, unverified)
    else ladder true (l.rung_0 ∷ l.rung_5 ∷ l.rung_15 ∷ l.rung_30 ∷ []) s
