-- ===== src/Super/Stop.antt =====
-- `stop_locked` of src/super.c: the safing pair, SIGTERM, and SIGKILL when the grace is over.
use forgectrl.Prelude.{
  ℕ, ◌+◌, Bool, true, false, not, ◌||◌, List, [], ◌∷◌, ltb, ◌==◌, if◌then◌else◌,
}
use forgectrl.Super.State.{Super, stop_term_wait}
use forgectrl.Super.Sections.{Other, others, reap, stop_begin, escalate}

-- What `waitpid(pid, &status, WNOHANG)` gives.
pub data Wait : Type 0 where
  running exited no_child : Wait

-- One round of the loop: what other threads do before the lock is taken again, what `waitpid` gave,
-- the clock, and what other threads do while the loop sleeps.
pub record Poll : Type 0 where
  pub before : List Other
  pub result : Wait
  pub now : ℕ
  pub asleep : List Other

pub record Stopping : Type 0 where
  pub since : ℕ
  pub polls : List Poll

abbrev pub is_exited : Wait → Bool
is_exited exited = true
is_exited _ = false

abbrev pub is_no_child : Wait → Bool
is_no_child no_child = true
is_no_child _ = false

-- The state behind the lock of a round, and behind its escalation.
abbrev pub relocked : Poll → Super → Super
relocked p s = others p.before s

abbrev pub pressed : ℕ → ℕ → Poll → Super → Super
pressed pid deadline p s = if ltb deadline p.now then escalate pid s else s

abbrev pub pressed_deadline : ℕ → Poll → ℕ
pressed_deadline deadline p = if ltb deadline p.now then p.now + stop_term_wait else deadline

-- `while (child_pid == pid)`, over the rounds that it makes; the list ends where the caller stops
-- watching, and a loop that has not ended by then has not reaped.
unfoldable pub stop_loop : ℕ → ℕ → List Poll → Super → Super
stop_loop pid deadline [] s = s
stop_loop pid deadline (p ∷ ps) s =
    let t = relocked p s in
    let u = others p.asleep (pressed pid deadline p t) in
    let rest = stop_loop pid (pressed_deadline deadline p) ps u in
    if not (s.child == pid)
    then s
    else if is_exited p.result
    then reap p.now t
    else if not (t.child == pid) || is_no_child p.result
    then t
    else rest

-- `stop_locked`
unfoldable pub stop : Stopping → Super → Super
stop i s =
    if s.child == 0 then s else stop_loop s.child (i.since + stop_term_wait) i.polls (stop_begin s)
