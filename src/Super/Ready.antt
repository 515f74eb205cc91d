-- ===== src/Super/Ready.antt =====
-- On the test in front of a start in src/super.c and what other threads change behind it.
use forgectrl.Prelude.{ℕ, ◌≡◌, true, false, List, [], ◌∷◌, Option, none, some, Bytes, arith}
use forgectrl.Super.State.{idle, same_ctl, Super}
use forgectrl.Super.Sections.{
  Other, other, others, Opening, broker_open, opened_fd, hold_broker, probe_start, judged, Verdict,
  fault, wait_enter, wait_leave, stop_begin, escalate, reap, select, probe_begin, probe_end,
  shutdown, stop_request,
}
use forgectrl.Super.Pass.{Pass, await_idle, may_start}

-- No controller runs, and a mode is selected.
pub record IsReady (s : Super) : Type 0 where
  pub no_child : s.child ≡ 0
  pub selected : same_ctl s.want idle ≡ false

hold_broker-IsReady : (fd : Option ℕ) (s : Super) → IsReady s → IsReady (hold_broker fd s)
hold_broker-IsReady none s v = ground arith
hold_broker-IsReady (some fd) s v = ground arith

pub broker_open-IsReady : (o : Opening) (s : Super) → IsReady s → IsReady (broker_open o s)
unfolding broker_open
broker_open-IsReady o s v = ground (arith, hold_broker-IsReady (opened_fd o) s v)

pub judged-IsReady : (x : Verdict) (s : Super) → IsReady s → IsReady (judged x s)
unfolding judged
judged-IsReady fault s v = ground arith
judged-IsReady _ s v = ground arith

pub reap-IsReady : (now : ℕ) (s : Super) → IsReady s → IsReady (reap now s)
unfolding reap
reap-IsReady now s v = ground arith

pub stop_begin-IsReady : (s : Super) → IsReady s → IsReady (stop_begin s)
unfolding stop_begin
stop_begin-IsReady s v = ground arith

pub escalate-IsReady : (pid : ℕ) (s : Super) → IsReady s → IsReady (escalate pid s)
unfolding escalate
escalate-IsReady pid s v = ground arith

pub wait_enter-IsReady : (why : Bytes) (s : Super) → IsReady s → IsReady (wait_enter why s)
unfolding wait_enter
wait_enter-IsReady why s v = ground arith

pub wait_leave-IsReady : (s : Super) → IsReady s → IsReady (wait_leave s)
unfolding wait_leave
wait_leave-IsReady s v = ground arith

probe_start-IsReady : (o : Opening) (s : Super) → IsReady s → IsReady (probe_start o s)
probe_start-IsReady o s v = ground (arith, broker_open-IsReady o s v)

pub other-IsReady : (o : Other) (s : Super) → IsReady s → IsReady (other o s)
unfolding other
other-IsReady stop_request s v = ground arith
other-IsReady (select true) s v = ground arith
other-IsReady (select false) s v = ground arith
other-IsReady (probe_begin o) s v = probe_start-IsReady o s v
other-IsReady (probe_end x) s v = judged-IsReady x (record s { probing = false }) (ground arith)
other-IsReady shutdown s v =
    wait_leave-IsReady (record s { th_run = false; suspended = true }) (ground arith)
other-IsReady _ s v = ground arith

pub others-IsReady : (os : List Other) (s : Super) → IsReady s → IsReady (others os s)
unfolding others
others-IsReady [] s v = v
others-IsReady (o ∷ os) s v = others-IsReady os (other o s) (other-IsReady o s v)

pub await_idle-IsReady : (i : Pass) (s : Super) → IsReady s → IsReady (await_idle i s).0
unfolding await_idle
await_idle-IsReady i s v = ground (arith, others-IsReady i.idle_window s v)

pub may_start-IsReady : (i : Pass) (s : Super) → may_start i s ≡ true → IsReady s
may_start-IsReady i s h = ground arith

child-hold_broker : (fd : Option ℕ) (s : Super) → s.child ≡ 0 → (hold_broker fd s).child ≡ 0
child-hold_broker none s g = g
child-hold_broker (some fd) s g = g

pub child-broker_open : (o : Opening) (s : Super) → s.child ≡ 0 → (broker_open o s).child ≡ 0
unfolding broker_open
child-broker_open o s g = ground (arith, child-hold_broker (opened_fd o) s g)
