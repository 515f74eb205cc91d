-- ===== src/Super/Backoff.antt =====
-- The respawn backoff of src/super.c.
use forgectrl.Prelude.{
  ℕ, ◌+◌, ◌≤◌, ◌≡◌, refl, ◌⊎◌, inl, inr, Bool, true, false, List, Option, none, some, Bytes, arith,
  Bool-cases,
}
use forgectrl.Super.State.{Ctl, Super}
use forgectrl.Super.Sections.{
  Other, other, Opening, Spawning, broker_open, opened_fd, hold_broker, is_held, reap, is_expected,
  stop_begin, escalate, probe_start, wait_enter, wait_leave, spawn, with_secret, forked, judged,
  Verdict, fault, stop_request, start, stopping, escalating, reaping, probe_begin, probe_end,
  shutdown,
}
use forgectrl.Super.Main.{Round, init, lifecycle}
use forgectrl.Super.Lifecycle.{Calm, Stable, lifecycle_keeps}

-- The values that the backoff takes, in seconds.
abbrev pub OnLadder : ℕ → Type 0
OnLadder b = (b ≡ 1) ⊎ (b ≡ 2) ⊎ (b ≡ 4) ⊎ (b ≡ 8) ⊎ (b ≡ 16) ⊎ (b ≡ 32)

abbrev pub HasBackoff : Super → Type 0
HasBackoff s = OnLadder s.backoff

reap-HasBackoff : (now : ℕ) (s : Super) → HasBackoff s → HasBackoff (reap now s)
unfolding reap
reap-HasBackoff now s v = ground arith

hold_broker-HasBackoff : (fd : Option ℕ) (s : Super) → HasBackoff s → HasBackoff (hold_broker fd s)
hold_broker-HasBackoff none s v = v
hold_broker-HasBackoff (some fd) s v = v

forked-HasBackoff :
    (ctl : Ctl) (env : Bool) (pid : Option ℕ) (now : ℕ) (s : Super)
    → HasBackoff s
    → HasBackoff (forked ctl env pid now s)
forked-HasBackoff ctl false pid now s v = v
forked-HasBackoff ctl true none now s v = v
forked-HasBackoff ctl true (some p) now s v = v

with_secret-HasBackoff :
    (ctl : Ctl) (b : Option Bytes) (i : Spawning) (s : Super)
    → HasBackoff s
    → HasBackoff (with_secret ctl b i s)
with_secret-HasBackoff ctl none i s v = v
with_secret-HasBackoff ctl (some b) i s v =
    forked-HasBackoff ctl i.env i.fork i.at (record s { report_secret = b }) v

broker_open-HasBackoff : (o : Opening) (s : Super) → HasBackoff s → HasBackoff (broker_open o s)
unfolding broker_open
broker_open-HasBackoff o s v = elim (Bool-cases (is_held s.broker)) [
  | inl e ↦ rw e v
  | inr e ↦ rw e (hold_broker-HasBackoff (opened_fd o) s v)
]

spawn-HasBackoff :
    (ctl : Ctl) (i : Spawning) (s : Super) → HasBackoff s → HasBackoff (spawn ctl i s)
unfolding spawn
spawn-HasBackoff ctl i s v =
    with_secret-HasBackoff ctl i.secret i (broker_open i.opening s)
      (broker_open-HasBackoff i.opening s v)

judged-HasBackoff : (x : Verdict) (s : Super) → HasBackoff s → HasBackoff (judged x s)
unfolding judged
judged-HasBackoff fault s v = v
judged-HasBackoff _ s v = v

backoff-wait_leave : (s : Super) → (wait_leave s).backoff ≡ s.backoff
unfolding wait_leave
backoff-wait_leave s = ground arith

backoff-wait_enter : (why : Bytes) (s : Super) → (wait_enter why s).backoff ≡ s.backoff
unfolding wait_enter
backoff-wait_enter why s = ground arith

backoff-stop_begin : (s : Super) → (stop_begin s).backoff ≡ s.backoff
unfolding stop_begin
backoff-stop_begin s = refl

backoff-escalate : (pid : ℕ) (s : Super) → (escalate pid s).backoff ≡ s.backoff
unfolding escalate
backoff-escalate pid s = refl

probe_start-HasBackoff : (o : Opening) (s : Super) → HasBackoff s → HasBackoff (probe_start o s)
probe_start-HasBackoff o s v = ground (arith, broker_open-HasBackoff o s v)

other-HasBackoff : (o : Other) (s : Super) → HasBackoff s → HasBackoff (other o s)
unfolding other
other-HasBackoff stop_request s v = ground arith
other-HasBackoff start s v = inl refl
other-HasBackoff stopping s v = ground arith
other-HasBackoff escalating s v = ground arith
other-HasBackoff (reaping now) s v = ground (arith, reap-HasBackoff now s v)
other-HasBackoff (probe_begin o) s v = probe_start-HasBackoff o s v
other-HasBackoff (probe_end x) s v = judged-HasBackoff x (record s { probing = false }) v
other-HasBackoff shutdown s v =
    rw (backoff-wait_leave (record s { th_run = false; suspended = true })) v
other-HasBackoff _ s v = v

HasBackoff-Calm : Calm HasBackoff
HasBackoff-Calm = record {
  reap_keeps = reap-HasBackoff;
  stop_begin_keeps = λ s v. rw (backoff-stop_begin s) v;
  escalate_keeps = λ pid s v. rw (backoff-escalate pid s) v;
  wait_enter_keeps = λ why s v. rw (backoff-wait_enter why s) v;
  wait_leave_keeps = λ s v. rw (backoff-wait_leave s) v;
  broker_open_keeps = broker_open-HasBackoff;
  judged_keeps = judged-HasBackoff;
  other_keeps = other-HasBackoff;
  restarted_keeps = λ s v. v;
  runner_keeps = λ s v. v;
  took_over_keeps = λ s v. v;
  resumed_keeps = λ s v. v;
  gate_keeps = λ g why s v. v;
  idle_keeps = λ s v. v;
  halt_keeps = λ s v. v;
  delay_keeps = λ at s v. v;
  lamp_keeps = λ s v. v;
  probe_begun_keeps = λ s v. v;
  probe_over_keeps = λ s v. v;
  enable_keeps = λ s v. v;
  disable_keeps = λ s v. v;
  stop_keeps = λ s v. v;
  probe_keeps = λ s v. v;
  hunt_keeps = λ s v. v;
}

HasBackoff-Stable : Stable HasBackoff
HasBackoff-Stable = record {
  calm = HasBackoff-Calm;
  spawn_keeps = λ i s r v. spawn-HasBackoff s.want i s v;
}

-- From the daemon's start on, whatever happens, the respawn backoff is 1, 2, 4, 8, 16 or 32
-- seconds.
pub lifecycle-HasBackoff :
    (mode : Option Bytes) (enabled unmanaged : Bool) (rs : List Round)
    → OnLadder (lifecycle rs (init mode enabled unmanaged)).backoff
unfolding init
lifecycle-HasBackoff mode enabled unmanaged rs =
    lifecycle_keeps HasBackoff HasBackoff-Stable rs (init mode enabled unmanaged) (inl refl)

-- An exit that nobody asked for delays the next start by 1 to 32 seconds from the exit, and leaves
-- a backoff of the ladder.
pub reap_delay :
    (now : ℕ) (s : Super)
    → HasBackoff s
    → is_expected s ≡ false
    → (now + 1000 ≤ (reap now s).respawn_at)
      × ((reap now s).respawn_at ≤ now + 32000)
      × HasBackoff (reap now s)
unfolding reap
reap_delay now s v e = ground arith
