-- ===== src/Super/Halting.antt =====
-- On the halts of the kernel that src/super.c writes.
use forgectrl.Prelude.{
  ℕ, suc, ◌+◌, ◌≤◌, ◌<◌, ◌≡◌, ◌⊎◌, inl, inr, Bool, true, false, Bool-cases, List, [], ◌∷◌, Option,
  none, some, Bytes, arith,
}
use forgectrl.Super.State.{Ctl, Act, wr_halt, Super}
use forgectrl.Super.Sections.{
  Other, other, others, Opening, Spawning, broker_open, opened_fd, hold_broker, reap, stop_begin,
  escalate, probe_start, wait_enter, wait_leave, spawn, with_secret, forked, judged, Verdict, fault,
  stop_request, select, stopping, escalating, reaping, probe_begin, probe_end, shutdown,
}
use forgectrl.Super.Pass.{Pass, await_idle, start_controller}
use forgectrl.Super.Ready.{IsReady}
use forgectrl.Super.Lifecycle.{Stable, others_keep, start_controller_keeps}

-- How often the kernel was told to halt.
abbrev pub halts : List Act → ℕ
halts [] = 0
halts (wr_halt ∷ l) = suc (halts l)
halts (_ ∷ l) = halts l

module _ (n : ℕ) where
  abbrev pub Halted : Super → Type 0
  Halted s = n ≤ halts s.log

  reap-Halted : (now : ℕ) (s : Super) → Halted s → Halted (reap now s)
  unfolding reap
  reap-Halted now s v = ground arith

  stop_begin-Halted : (s : Super) → Halted s → Halted (stop_begin s)
  unfolding stop_begin
  stop_begin-Halted s v = ground arith

  escalate-Halted : (pid : ℕ) (s : Super) → Halted s → Halted (escalate pid s)
  unfolding escalate
  escalate-Halted pid s v = ground arith

  wait_enter-Halted : (why : Bytes) (s : Super) → Halted s → Halted (wait_enter why s)
  unfolding wait_enter
  wait_enter-Halted why s v = ground arith

  wait_leave-Halted : (s : Super) → Halted s → Halted (wait_leave s)
  unfolding wait_leave
  wait_leave-Halted s v = ground arith

  hold_broker-Halted : (fd : Option ℕ) (s : Super) → Halted s → Halted (hold_broker fd s)
  hold_broker-Halted none s v = ground arith
  hold_broker-Halted (some fd) s v = ground arith

  broker_open-Halted : (o : Opening) (s : Super) → Halted s → Halted (broker_open o s)
  unfolding broker_open
  broker_open-Halted o s v = ground (arith, hold_broker-Halted (opened_fd o) s v)

  forked-Halted :
      (ctl : Ctl) (env : Bool) (pid : Option ℕ) (now : ℕ) (s : Super)
      → Halted s
      → Halted (forked ctl env pid now s)
  forked-Halted ctl false pid now s v = ground arith
  forked-Halted ctl true none now s v = ground arith
  forked-Halted ctl true (some p) now s v = ground arith

  with_secret-Halted :
      (ctl : Ctl) (b : Option Bytes) (i : Spawning) (s : Super)
      → Halted s
      → Halted (with_secret ctl b i s)
  with_secret-Halted ctl none i s v = ground arith
  with_secret-Halted ctl (some b) i s v =
      forked-Halted ctl i.env i.fork i.at (record s { report_secret = b }) v

  spawn-Halted : (ctl : Ctl) (i : Spawning) (s : Super) → Halted s → Halted (spawn ctl i s)
  unfolding spawn
  spawn-Halted ctl i s v =
      with_secret-Halted ctl i.secret i (broker_open i.opening s) (broker_open-Halted i.opening s v)

  judged-Halted : (v : Verdict) (s : Super) → Halted s → Halted (judged v s)
  unfolding judged
  judged-Halted fault s v = ground arith
  judged-Halted _ s v = ground arith

  probe_start-Halted : (o : Opening) (s : Super) → Halted s → Halted (probe_start o s)
  probe_start-Halted o s v = ground (arith, broker_open-Halted o s v)

  other-Halted : (o : Other) (s : Super) → Halted s → Halted (other o s)
  unfolding other
  other-Halted stop_request s v = ground arith
  other-Halted (select m) s v = ground arith
  other-Halted stopping s v = ground (arith, stop_begin-Halted s)
  other-Halted escalating s v = ground (arith, escalate-Halted s.child s)
  other-Halted (reaping now) s v = ground (arith, reap-Halted now s)
  other-Halted (probe_begin o) s v = probe_start-Halted o s v
  other-Halted (probe_end x) s v = judged-Halted x (record s { probing = false }) v
  other-Halted shutdown s v = wait_leave-Halted (record s { th_run = false; suspended = true }) v
  other-Halted _ s v = ground arith

  Halted-Stable : Stable Halted
  Halted-Stable = record {
    calm = record {
      reap_keeps = reap-Halted;
      stop_begin_keeps = stop_begin-Halted;
      escalate_keeps = escalate-Halted;
      wait_enter_keeps = wait_enter-Halted;
      wait_leave_keeps = wait_leave-Halted;
      broker_open_keeps = broker_open-Halted;
      judged_keeps = judged-Halted;
      other_keeps = other-Halted;
      restarted_keeps = λ s v. v;
      runner_keeps = λ s v. v;
      took_over_keeps = λ s v. v;
      resumed_keeps = λ s v. v;
      gate_keeps = λ g why s v. v;
      idle_keeps = λ s v. v;
      halt_keeps = λ s v. ground arith;
      delay_keeps = λ at s v. v;
      lamp_keeps = λ s v. v;
      probe_begun_keeps = λ s v. v;
      probe_over_keeps = λ s v. v;
      enable_keeps = λ s v. v;
      disable_keeps = λ s v. v;
      stop_keeps = λ s v. v;
      probe_keeps = λ s v. v;
      hunt_keeps = λ s v. v;
    };
    spawn_keeps = λ i s r v. spawn-Halted s.want i s v;
  }

-- No start of a pass takes a halt back.
pub start_controller-halts :
    (i : Pass) (s : Super) → IsReady s → halts s.log ≤ halts (start_controller i s).log
start_controller-halts i s r =
    start_controller_keeps (Halted (halts s.log)) (Halted-Stable (halts s.log)) i s r (omega arith)

others-halts : (os : List Other) (s : Super) → halts s.log ≤ halts (others os s).log
others-halts os s =
    others_keep (Halted (halts s.log)) (Halted-Stable (halts s.log)).calm os s (omega arith)

-- How the wait for the kernel ends in a start: no controller has died, the kernel is idle, or ten
-- seconds after the death it is halted.
pub await_idle_ends :
    (i : Pass) (s : Super)
    → (await_idle i s).1 ≡ true
    → (s.respawn_wait_idle ≡ false)
      ⊎ ((i.kernel_idle ≡ true)
          ⊎ (((others i.idle_window s).died_at + 10000 ≤ i.idle_at)
              × (halts s.log < halts (await_idle i s).0.log)))
unfolding await_idle
await_idle_ends i s h =
    let k = others-halts i.idle_window s in
    elim (Bool-cases s.respawn_wait_idle) [
      | inr a ↦ inl a
      | inl a ↦ elim (Bool-cases i.kernel_idle) [
        | inl b ↦ inr (inl b)
        | inr b ↦ inr (inr (ground (arith, a, b, k), ground (arith, a, b, k)))
      ]
    ]
