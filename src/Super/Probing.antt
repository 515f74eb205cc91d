-- ===== src/Super/Probing.antt =====
-- On the verdicts of `probe_sequence` in src/super.c and what was done before each.
use forgectrl.Prelude.{
  ℕ, suc, ◌+◌, ◌≤◌, ◌≡◌, refl, ◌∙◌, length, ◌⊎◌, inl, inr, Bool, true, false, List, [], ◌∷◌, Option,
  none, some, if◌then◌else◌, arith, Bool-cases,
}
use forgectrl.Super.State.{Act, wr_stop, wr_enable, wr_disable, motion_probe, lens_hunt, Super}
use forgectrl.Super.Sections.{
  Other, other, others, Opening, broker_open, opened_fd, hold_broker, is_held, probe_start, judged,
  stopping, escalating, reaping, stop_request, probe_begin, probe_end, shutdown, Verdict, fault,
  verified, unverified, waits, aborted,
}
use forgectrl.Super.Probe.{
  Ladder, Rung, Motion, Lens, probe_sequence, emit, probe_wait, rung, rung_on, ladder, measured,
  no_edge, on_edge, skipped, moves, dead, busy, opened, no_accel,
}

abbrev pub latest : List Act → Option Act
latest [] = none
latest (a ∷ log) = some a

-- What the log shows of a probe that has ended with a verdict.
abbrev pub Shows : Verdict → Super → Type 0
Shows aborted s = latest s.log ≡ some wr_stop
Shows verified s = latest s.log ≡ some lens_hunt
Shows fault s = (latest s.log ≡ some lens_hunt) ⊎ (latest s.log ≡ some motion_probe)
Shows waits s = latest s.log ≡ some motion_probe
Shows unverified s = latest s.log ≡ some motion_probe

abbrev ShowsRung : Option Verdict → Super → Type 0
ShowsRung none s = latest s.log ≡ some motion_probe
ShowsRung (some v) s = Shows v s

measured-Shows :
    (m : Motion) (l : Lens) (s : Super)
    → latest s.log ≡ some motion_probe
    → ShowsRung (measured m l s).1 (measured m l s).0
measured-Shows moves no_edge s e = inl refl
measured-Shows moves on_edge s e = refl
measured-Shows moves skipped s e = refl
measured-Shows busy l s e = e
measured-Shows opened l s e = e
measured-Shows no_accel l s e = e
measured-Shows dead l s e = e

-- Both branches of a test, for any predicate of their value.
if_both {ℓ κ} :
    {A : Type ℓ} (P : A → Type κ) (b : Bool) {x y : A} → P x → P y → P (if b then x else y)
if_both P true p q = p
if_both P false p q = q

record RungShows (x : Super × Option Verdict) : Type 0 where
  shows : ShowsRung x.1 x.0

rung_on-Shows : (r : Rung) (s : Super) → RungShows (rung_on r s)
unfolding rung_on
rung_on-Shows r s =
    let t = others r.before s in
    let u = probe_wait r.settle (emit wr_enable t) in
    if_both RungShows t.probe_abort (record { shows = refl })
      (if_both RungShows u.1 (record { shows = refl })
        (record { shows = measured-Shows r.motion r.lens (emit motion_probe u.0) refl }))

rung-Shows : (first : Bool) (r : Rung) (s : Super) → RungShows (rung first r s)
unfolding rung
rung-Shows first r s =
    let u = probe_wait r.rail_off (emit wr_disable s) in
    if_both RungShows first (rung_on-Shows r s)
      (if_both RungShows u.1 (record { shows = refl }) (rung_on-Shows r u.0))

pub record Returned (x : Super × Verdict) : Type 0 where
  pub log_shows : Shows x.1 x.0

ladder_step :
    (x : Super × Option Verdict) (rest : Super × Verdict)
    → RungShows x
    → Returned rest
    → Returned (elim (x.1) [ some v ↦ (x.0, v) | none ↦ rest ])
ladder_step (t, none) rest h k = k
ladder_step (t, some v) rest h k = record { log_shows = h.shows }

ladder_last :
    (x : Super × Option Verdict)
    → RungShows x
    → Returned (elim (x.1) [ some v ↦ (x.0, v) | none ↦ (x.0, fault) ])
ladder_last (t, none) h = record { log_shows = inr h.shows }
ladder_last (t, some v) h = record { log_shows = h.shows }

-- The ladder from its first rung on, and what it returns past the last.
ladder-Shows :
    (rs : List Rung) (first : Bool) (r : Rung) (s : Super) → Returned (ladder first (r ∷ rs) s)
unfolding ladder
ladder-Shows [] first r s = ladder_last (rung first r s) (rung-Shows first r s)
ladder-Shows (q ∷ rs) first r s =
    ladder_step (rung first r s) (ladder false (q ∷ rs) (rung first r s).0) (rung-Shows first r s)
      (ladder-Shows rs false q (rung first r s).0)

-- A probe sequence does nothing while the motors are released, and calls motion unverified.
-- Otherwise its last act tells its verdict: an aborted one has just written cnc/stop, a verified
-- one has just hunted for the lens's edge behind a probe that saw motion, one that waits or could
-- not measure has just probed, and a fault is a lens hunt that failed or a last probe that saw
-- nothing.
pub probe_sequence_ends :
    (l : Ladder) (s : Super)
    → (l.released ≡ true) × (probe_sequence l s ≡ (s, unverified))
      ⊎ (l.released ≡ false) × Returned (probe_sequence l s)
unfolding probe_sequence
probe_sequence_ends l s = elim (Bool-cases l.released) [
  | inl e ↦ inl (e, rw e)
  | inr e ↦ inr (e, rw e (ladder-Shows (l.rung_5 ∷ l.rung_15 ∷ l.rung_30 ∷ []) true l.rung_0 s))
]

-- How often the motion probe has run.
abbrev pub probes : List Act → ℕ
probes [] = 0
probes (motion_probe ∷ log) = suc (probes log)
probes (a ∷ log) = probes log

probes-broker_open : (o : Opening) (s : Super) → probes (broker_open o s).log ≡ probes s.log
unfolding broker_open
probes-broker_open o s = go (is_held s.broker) (opened_fd o)
  where
    go : (b : Bool) (fd : Option ℕ) → probes (if b then s else hold_broker fd s).log ≡ probes s.log
    go true fd = refl
    go false none = refl
    go false (some fd) = refl

probes-judged : (v : Verdict) (s : Super) → probes (judged v s).log ≡ probes s.log
unfolding judged
probes-judged fault s = refl
probes-judged _ s = refl

probes-probe_start : (o : Opening) (s : Super) → probes (probe_start o s).log ≡ probes s.log
probes-probe_start o s = ground (arith, probes-broker_open o s)

probes-other : (o : Other) (s : Super) → probes (other o s).log ≡ probes s.log
unfolding other
probes-other stop_request s = ground arith
probes-other stopping s = ground arith
probes-other escalating s = ground arith
probes-other (reaping now) s = ground arith
probes-other (probe_begin o) s = probes-probe_start o s
probes-other (probe_end v) s = probes-judged v (record s { probing = false })
probes-other shutdown s = ground arith
probes-other _ s = refl

probes-others : (os : List Other) (s : Super) → probes (others os s).log ≡ probes s.log
unfolding others
probes-others [] s = refl
probes-others (o ∷ os) s = probes-others os (other o s) ∙ probes-other o s

probes-probe_wait :
    (looks : List (List Other)) (s : Super) → probes (probe_wait looks s).0.log ≡ probes s.log
unfolding probe_wait
probes-probe_wait [] s = refl
probes-probe_wait (os ∷ looks) s =
    ground (arith, probes-others os s, probes-probe_wait looks (others os s))

probes-measured : (m : Motion) (l : Lens) (s : Super) → probes (measured m l s).0.log ≡ probes s.log
probes-measured moves no_edge s = refl
probes-measured moves l s = refl
probes-measured m l s = refl

probes-rung_on : (r : Rung) (s : Super) → probes (rung_on r s).0.log ≤ probes s.log + 1
unfolding rung_on
probes-rung_on r s =
    let t = others r.before s in
    let u = probe_wait r.settle (emit wr_enable t) in
    ground (
      arith,
      probes-others r.before s,
      probes-probe_wait r.settle (emit wr_enable t),
      probes-measured r.motion r.lens (emit motion_probe u.0),
    )

probes-rung :
    (first : Bool) (r : Rung) (s : Super) → probes (rung first r s).0.log ≤ probes s.log + 1
unfolding rung
probes-rung first r s =
    let u = probe_wait r.rail_off (emit wr_disable s) in
    ground (
      arith,
      probes-probe_wait r.rail_off (emit wr_disable s),
      probes-rung_on r s,
      probes-rung_on r u.0,
    )

probes-ladder :
    (first : Bool) (rs : List Rung) (s : Super)
    → probes (ladder first rs s).0.log ≤ probes s.log + length rs
unfolding ladder
probes-ladder first [] s = omega arith
probes-ladder first (r ∷ rs) s =
    ground (arith, probes-rung first r s, probes-ladder false rs (rung first r s).0)

-- One probe sequence moves the gantry at most four times, whatever it measures and whatever other
-- threads do meanwhile.
pub probe_sequence_bounded :
    (l : Ladder) (s : Super) → probes (probe_sequence l s).0.log ≤ probes s.log + 4
unfolding probe_sequence
probe_sequence_bounded l s =
    ground (arith, probes-ladder true (l.rung_0 ∷ l.rung_5 ∷ l.rung_15 ∷ l.rung_30 ∷ []) s)
