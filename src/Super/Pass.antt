-- ===== src/Super/Pass.antt =====
-- `pass_locked` of src/super.c: one pass of the lifecycle. Wherever the source drops `mu`, the
-- sections that other threads run in between are an input.
use forgectrl.Prelude.{
  ℕ, ◌+◌, Bool, true, false, not, ◌&&◌, ◌||◌, List, Bytes, ltb, leb, ◌==◌, if◌then◌else◌,
}
use forgectrl.Super.State.{
  idle, same_ctl, wr_halt, runner_reaped, took_over, Super, respawn_idle_wait, broker_retry,
}
use forgectrl.Super.Sections.{
  Other, others, Opening, Spawning, broker_open, is_held, reap, wait_enter, wait_leave, spawn,
  Verdict, waits, judged,
}
use forgectrl.Super.Stop.{Stopping, stop, Wait, is_exited}
use forgectrl.Super.Probe.{Ladder, probe_sequence, emit}

-- What a pass reads outside the state.
pub record Pass : Type 0 where
  pub reap_window : List Other
  pub reap_result : Wait
  pub reap_at : ℕ
  pub restart_stop : Stopping
  pub runner_window : List Other
  pub takeover_idle : Bool
  pub takeover_window : List Other
  pub gate_window : List Other
  pub gate_open : Bool
  pub gate_says : Bytes
  pub gated_window : List Other
  pub gated_idle : Bool
  pub gated_stop : Stopping
  pub converge_stop : Stopping
  pub now : ℕ
  pub idle_window : List Other
  pub kernel_idle : Bool
  pub idle_at : ℕ
  pub opening : Opening
  pub opened_at : ℕ
  pub enclosure_window : List Other
  pub enclosure_closed : Bool
  pub enclosure_why : Bytes
  pub ladder : Ladder
  pub probed_at : ℕ
  pub spawning : Spawning

-- The reap at the head of a pass.
unfoldable pub pass_reap : Pass → Super → Super
pass_reap i s =
    if s.child == 0
    then s
    else let t = others i.reap_window s in if is_exited i.reap_result then reap i.reap_at t else t

-- The engine's fail tier.
unfoldable pub pass_restart : Pass → Super → Super
pass_restart i s =
    if s.restart_pending
    then (let t = stop i.restart_stop s in record t { restart_pending = false; respawn_at = 0 })
    else s

-- The homing runner of a GRBL controller that is gone.
unfoldable pub pass_runner : Pass → Super → Super
pass_runner i s =
    if s.runner_check
    then others i.runner_window (emit runner_reaped (record s { runner_check = false }))
    else s

-- An unmanaged controller is taken over once the machine is idle.
unfoldable pub pass_takeover : Pass → Super → Super
pass_takeover i s =
    if s.standby_takeover && s.child == 0 && not (same_ctl s.want idle)
    then (if i.takeover_idle
        then (let t = others i.takeover_window (emit took_over s) in
            record t { standby_takeover = false; suspended = false })
        else others i.takeover_window s)
    else s

-- The setup gate is read, and closes on a running controller once the machine is idle.
unfoldable pub pass_gate : Pass → Super → Super
pass_gate i s =
    let t = others i.gate_window s in
    record t { gated = not i.gate_open && not t.local_posture; gate_why = i.gate_says }

unfoldable pub pass_gated : Pass → Super → Super
pass_gated i s =
    if not (s.child == 0) && s.gated
    then (let t = others i.gated_window s in if i.gated_idle then stop i.gated_stop t else t)
    else s

-- Whether the kernel has finished what a dead controller queued: the state, and `go`.
unfoldable pub await_idle : Pass → Super → Super × Bool
await_idle i s =
    if s.respawn_wait_idle
    then (let t = others i.idle_window s in
        if i.kernel_idle
        then (record t { respawn_wait_idle = false }, true)
        else if ltb i.idle_at (t.died_at + respawn_idle_wait)
        then (t, false)
        else (record (emit wr_halt t) { respawn_wait_idle = false }, true))
    else (s, true)

-- What a pass makes of the verdict.
abbrev pub decided : ℕ → Verdict → Super → Super
decided at waits s = record s { respawn_at = at + 1000 }
decided at v s = judged v s

-- The state in which the probe of a pass runs, and the one in which it has ended.
abbrev pub probe_begun : Super → Super
probe_begun s = record (wait_leave s) { probing = true; probe_abort = false }

abbrev pub probe_over : Super → Super
probe_over s = record s { probing = false }

-- The motion probe of a pass, run without `mu`, and its verdict.
unfoldable pub run_probe : Pass → Super → Super
run_probe i s =
    let (u, v) = probe_sequence i.ladder (probe_begun s) in decided i.probed_at v (probe_over u)

-- Behind the broker: the enclosure, the probe, and the spawn.
unfoldable pub enclosed : Pass → Super → Super
enclosed i s =
    let t = others i.enclosure_window s in
    if not i.enclosure_closed
    then wait_enter i.enclosure_why t
    else if not t.probed
    then run_probe i t
    else let u = wait_leave t in spawn u.want i.spawning u

-- A start that nothing forbids: the broker first.
unfoldable pub start_controller : Pass → Super → Super
start_controller i s =
    let t = broker_open i.opening s in
    if is_held t.broker then enclosed i t else record t { respawn_at = i.opened_at + broker_retry }

-- The test in front of a start.
abbrev pub may_start : Pass → Super → Bool
may_start i s =
    s.child == 0
    && not s.suspended
    && not s.motion_fault
    && not s.gated
    && not (same_ctl s.want idle)
    && leb s.respawn_at i.now

-- The ladder that converges on the wanted state.
unfoldable pub converge : Pass → Super → Super
converge i s =
    if not (s.child == 0) && (s.suspended || not (same_ctl s.child_ctl s.want))
    then stop i.converge_stop s
    else if may_start i s
    then (let (t, go) = await_idle i s in if go then start_controller i t else t)
    else wait_leave s

-- `pass_locked` up to where it converges.
unfoldable pub arrived : Pass → Super → Super
arrived i s =
    pass_gated i (pass_gate i (pass_takeover i (pass_runner i (pass_restart i (pass_reap i s)))))

-- `pass_locked`
unfoldable pub pass : Pass → Super → Super
pass i s = converge i (arrived i s)
