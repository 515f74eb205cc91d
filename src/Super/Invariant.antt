-- ===== src/Super/Invariant.antt =====
-- On the order of the signals, the safing pair and the starts in the log of src/super.c.
use forgectrl.Prelude.{ℕ, ◌≡◌, Bool, true, false, List, [], ◌∷◌, Option, none, some, Bytes, arith}
use forgectrl.Super.State.{
  Ctl, idle, same_ctl, Act, wr_stop, wr_latch, sigterm, spawned, unlink_anchor, Super, initial,
}
use forgectrl.Super.Sections.{
  Other, other, Opening, Spawning, broker_open, opened_fd, hold_broker, reap, stop_begin, escalate,
  probe_start, wait_enter, wait_leave, spawn, with_secret, forked, judged, Verdict, fault,
  stop_request, select, stopping, escalating, reaping, probe_begin, probe_end, shutdown,
}
use forgectrl.Super.Main.{Round, init, lifecycle}
use forgectrl.Super.Ready.{child-broker_open}
use forgectrl.Super.Lifecycle.{Calm, Stable, lifecycle_keeps}

-- Since the last controller was started, in a log with the latest act first: was the latch locked,
-- and was the motion stopped?
abbrev pub latched : List Act → Bool
latched [] = true
latched (wr_latch ∷ log) = true
latched (spawned c p l ∷ log) = false
latched (_ ∷ log) = latched log

abbrev pub stopped : List Act → Bool
stopped [] = true
stopped (wr_stop ∷ log) = true
stopped (spawned c p l ∷ log) = false
stopped (_ ∷ log) = stopped log

-- Every SIGTERM is sent behind a stop and a latch that follow the controller's start.
abbrev pub SafeSignals : List Act → Type 0
SafeSignals [] = Unit
SafeSignals (sigterm p ∷ log) = (latched log ≡ true) × (stopped log ≡ true) × SafeSignals log
SafeSignals (_ ∷ log) = SafeSignals log

-- In a log with the latest act first, whether the controller that was started last has not been
-- buried since; and every start finds none alive, and starts a mode's controller.
abbrev pub alive : List Act → Bool
alive [] = false
alive (unlink_anchor ∷ log) = false
alive (spawned c p l ∷ log) = true
alive (_ ∷ log) = alive log

abbrev pub OneAtATime : List Act → Type 0
OneAtATime [] = Unit
OneAtATime (spawned c p l ∷ log) = (alive log ≡ false) × (same_ctl c idle ≡ false) × OneAtATime log
OneAtATime (_ ∷ log) = OneAtATime log

pub record IsSafe (s : Super) : Type 0 where
  pub latched_gone : s.child ≡ 0 → latched s.log ≡ true
  pub stopped_gone : s.child ≡ 0 → stopped s.log ≡ true
  pub none_gone : s.child ≡ 0 → s.child_ctl ≡ idle
  pub signals : SafeSignals s.log
  pub alive_gone : s.child ≡ 0 → alive s.log ≡ false
  pub one : OneAtATime s.log

pub initial-IsSafe : IsSafe initial
initial-IsSafe = ground arith

pub reap-IsSafe : (now : ℕ) (s : Super) → IsSafe s → IsSafe (reap now s)
unfolding reap
reap-IsSafe now s v = ground arith

pub stop_begin-IsSafe : (s : Super) → IsSafe s → IsSafe (stop_begin s)
unfolding stop_begin
stop_begin-IsSafe s v = ground arith

pub escalate-IsSafe : (pid : ℕ) (s : Super) → IsSafe s → IsSafe (escalate pid s)
unfolding escalate
escalate-IsSafe pid s v = ground arith

pub wait_enter-IsSafe : (why : Bytes) (s : Super) → IsSafe s → IsSafe (wait_enter why s)
unfolding wait_enter
wait_enter-IsSafe why s v = ground arith

pub wait_leave-IsSafe : (s : Super) → IsSafe s → IsSafe (wait_leave s)
unfolding wait_leave
wait_leave-IsSafe s v = ground arith

hold_broker-IsSafe : (fd : Option ℕ) (s : Super) → IsSafe s → IsSafe (hold_broker fd s)
hold_broker-IsSafe none s v = ground arith
hold_broker-IsSafe (some fd) s v = ground arith

pub broker_open-IsSafe : (o : Opening) (s : Super) → IsSafe s → IsSafe (broker_open o s)
unfolding broker_open
broker_open-IsSafe o s v = ground (arith, hold_broker-IsSafe (opened_fd o) s v)

forked-IsSafe :
    (ctl : Ctl) (env : Bool) (pid : Option ℕ) (now : ℕ) (s : Super)
    → s.child ≡ 0
    → same_ctl ctl idle ≡ false
    → IsSafe s
    → IsSafe (forked ctl env pid now s)
forked-IsSafe ctl false pid now s g m v = ground arith
forked-IsSafe ctl true none now s g m v = ground arith
forked-IsSafe ctl true (some p) now s g m v = ground arith

with_secret-IsSafe :
    (ctl : Ctl) (b : Option Bytes) (i : Spawning) (s : Super)
    → s.child ≡ 0
    → same_ctl ctl idle ≡ false
    → IsSafe s
    → IsSafe (with_secret ctl b i s)
with_secret-IsSafe ctl none i s g m v = ground arith
with_secret-IsSafe ctl (some b) i s g m v =
    forked-IsSafe ctl i.env i.fork i.at (record s { report_secret = b }) g m (ground arith)

spawn-IsSafe :
    (ctl : Ctl) (i : Spawning) (s : Super)
    → s.child ≡ 0
    → same_ctl ctl idle ≡ false
    → IsSafe s
    → IsSafe (spawn ctl i s)
unfolding spawn
spawn-IsSafe ctl i s g m v =
    with_secret-IsSafe ctl i.secret i (broker_open i.opening s) (child-broker_open i.opening s g) m
      (broker_open-IsSafe i.opening s v)

pub judged-IsSafe : (v : Verdict) (s : Super) → IsSafe s → IsSafe (judged v s)
unfolding judged
judged-IsSafe fault s v = ground arith
judged-IsSafe _ s v = ground arith

probe_start-IsSafe : (o : Opening) (s : Super) → IsSafe s → IsSafe (probe_start o s)
probe_start-IsSafe o s v = ground (arith, broker_open-IsSafe o s v)

pub other-IsSafe : (o : Other) (s : Super) → IsSafe s → IsSafe (other o s)
unfolding other
other-IsSafe stop_request s v = ground arith
other-IsSafe (select m) s v = ground arith
other-IsSafe stopping s v = ground (arith, stop_begin-IsSafe s)
other-IsSafe escalating s v = ground (arith, escalate-IsSafe s.child s)
other-IsSafe (reaping now) s v = ground (arith, reap-IsSafe now s)
other-IsSafe (probe_begin o) s v = probe_start-IsSafe o s v
other-IsSafe (probe_end x) s v = judged-IsSafe x (record s { probing = false }) (ground arith)
other-IsSafe shutdown s v =
    wait_leave-IsSafe (record s { th_run = false; suspended = true }) (ground arith)
other-IsSafe _ s v = ground arith

IsSafe-Calm : Calm IsSafe
IsSafe-Calm = record {
  reap_keeps = reap-IsSafe;
  stop_begin_keeps = stop_begin-IsSafe;
  escalate_keeps = escalate-IsSafe;
  wait_enter_keeps = wait_enter-IsSafe;
  wait_leave_keeps = wait_leave-IsSafe;
  broker_open_keeps = broker_open-IsSafe;
  judged_keeps = judged-IsSafe;
  other_keeps = other-IsSafe;
  restarted_keeps = λ s v. ground arith;
  runner_keeps = λ s v. ground arith;
  took_over_keeps = λ s v. ground arith;
  resumed_keeps = λ s v. ground arith;
  gate_keeps = λ g why s v. ground arith;
  idle_keeps = λ s v. ground arith;
  halt_keeps = λ s v. ground arith;
  delay_keeps = λ at s v. ground arith;
  lamp_keeps = λ s v. ground arith;
  probe_begun_keeps = λ s v. ground arith;
  probe_over_keeps = λ s v. ground arith;
  enable_keeps = λ s v. ground arith;
  disable_keeps = λ s v. ground arith;
  stop_keeps = λ s v. ground arith;
  probe_keeps = λ s v. ground arith;
  hunt_keeps = λ s v. ground arith;
}

IsSafe-Stable : Stable IsSafe
IsSafe-Stable = record {
  calm = IsSafe-Calm;
  spawn_keeps = λ i s r v. spawn-IsSafe s.want i s r.no_child r.selected v;
}

init-IsSafe :
    (mode : Option Bytes) (enabled unmanaged : Bool) → IsSafe (init mode enabled unmanaged)
unfolding init
init-IsSafe mode enabled unmanaged = ground arith

-- From the daemon's start, through any passes of the lifecycle and any sections of other threads:
-- while no controller runs, the motion has been stopped and the laser latched since the last
-- controller was started, and no SIGTERM was ever sent but behind such a stop and latch.
pub lifecycle-IsSafe :
    (mode : Option Bytes) (enabled unmanaged : Bool) (rs : List Round)
    → IsSafe (lifecycle rs (init mode enabled unmanaged))
lifecycle-IsSafe mode enabled unmanaged rs =
    lifecycle_keeps IsSafe IsSafe-Stable rs _ (init-IsSafe mode enabled unmanaged)
