-- ===== src/Super/Lifecycle.antt =====
-- On predicates of the state of src/super.c that its critical sections keep, over whole passes.
use forgectrl.Prelude.{
  ℕ, ◌+◌, ◌≡◌, refl, Bool, true, false, not, ◌&&◌, List, [], ◌∷◌, Bytes, ltb, ◌==◌, if◌then◌else◌,
  arith,
}
use forgectrl.Super.State.{
  Super, same_ctl, idle, broker_retry, wr_stop, wr_enable, wr_disable, wr_halt, motion_probe,
  lens_hunt, runner_reaped, took_over,
}
use forgectrl.Super.Sections.{
  Other, others, other, Opening, Spawning, broker_open, is_held, reap, wait_enter, wait_leave,
  spawn, Verdict, waits, judged, stop_begin, escalate,
}
use forgectrl.Super.Stop.{
  Poll, Stopping, stop, stop_loop, relocked, pressed, pressed_deadline, is_exited,
}
use forgectrl.Super.Probe.{
  Ladder, Rung, Motion, Lens, probe_sequence, emit, probe_wait, rung, rung_on, ladder, measured,
  no_edge, moves,
}
use forgectrl.Super.Ready.{
  IsReady, broker_open-IsReady, wait_leave-IsReady, others-IsReady, await_idle-IsReady,
  may_start-IsReady,
}
use forgectrl.Super.Main.{Round, lifecycle}
use forgectrl.Super.Pass.{
  Pass, pass, arrived, pass_reap, pass_restart, pass_runner, pass_takeover, pass_gate, pass_gated,
  await_idle, run_probe, probe_begun, probe_over, decided, enclosed, start_controller, may_start,
  converge,
}

-- The critical sections but the spawn, and the assignments and acts between them.
pub record Calm (P : Super → Type 0) : Type 0 where
  pub reap_keeps : (now : ℕ) (s : Super) → P s → P (reap now s)
  pub stop_begin_keeps : (s : Super) → P s → P (stop_begin s)
  pub escalate_keeps : (pid : ℕ) (s : Super) → P s → P (escalate pid s)
  pub wait_enter_keeps : (why : Bytes) (s : Super) → P s → P (wait_enter why s)
  pub wait_leave_keeps : (s : Super) → P s → P (wait_leave s)
  pub broker_open_keeps : (o : Opening) (s : Super) → P s → P (broker_open o s)
  pub judged_keeps : (v : Verdict) (s : Super) → P s → P (judged v s)
  pub other_keeps : (o : Other) (s : Super) → P s → P (other o s)
  pub restarted_keeps : (s : Super) → P s → P (record s { restart_pending = false; respawn_at = 0 })
  pub runner_keeps : (s : Super) → P s → P (emit runner_reaped (record s { runner_check = false }))
  pub took_over_keeps : (s : Super) → P s → P (emit took_over s)
  pub resumed_keeps :
      (s : Super) → P s → P (record s { standby_takeover = false; suspended = false })
  pub gate_keeps :
      (g : Bool) (why : Bytes) (s : Super) → P s → P (record s { gated = g; gate_why = why })
  pub idle_keeps : (s : Super) → P s → P (record s { respawn_wait_idle = false })
  pub halt_keeps : (s : Super) → P s → P (emit wr_halt s)
  pub delay_keeps : (at : ℕ) (s : Super) → P s → P (record s { respawn_at = at })
  pub lamp_keeps : (s : Super) → P s → P (record s { lamp_pending = false })
  pub probe_begun_keeps : (s : Super) → P s → P (record s { probing = true; probe_abort = false })
  pub probe_over_keeps : (s : Super) → P s → P (probe_over s)
  pub enable_keeps : (s : Super) → P s → P (emit wr_enable s)
  pub disable_keeps : (s : Super) → P s → P (emit wr_disable s)
  pub stop_keeps : (s : Super) → P s → P (emit wr_stop s)
  pub probe_keeps : (s : Super) → P s → P (emit motion_probe s)
  pub hunt_keeps : (s : Super) → P s → P (emit lens_hunt s)

-- With the spawn, which comes only where no controller runs and a mode is selected.
pub record Stable (P : Super → Type 0) : Type 0 where
  pub calm : Calm P
  pub spawn_keeps : (i : Spawning) (s : Super) → IsReady s → P s → P (spawn s.want i s)

-- Both branches of a test.
if_keeps : (P : Super → Type 0) (b : Bool) {s t : Super} → P s → P t → P (if b then s else t)
if_keeps P true v w = v
if_keeps P false v w = w

module _ (P : Super → Type 0) (c : Calm P) where
  pub others_keep : (os : List Other) (s : Super) → P s → P (others os s)
  unfolding others
  others_keep [] s v = v
  others_keep (o ∷ os) s v = others_keep os (other o s) (c.other_keeps o s v)

  pressed_keeps : (pid deadline : ℕ) (p : Poll) (s : Super) → P s → P (pressed pid deadline p s)
  pressed_keeps pid deadline p s v = if_keeps P (ltb deadline p.now) (c.escalate_keeps pid s v) v

  stop_loop_keeps :
      (pid deadline : ℕ) (ps : List Poll) (s : Super) → P s → P (stop_loop pid deadline ps s)
  unfolding stop_loop
  stop_loop_keeps pid deadline [] s v = v
  stop_loop_keeps pid deadline (p ∷ ps) s v =
      let t = relocked p s in
      let vt : P t = others_keep p.before s v in
      let u = others p.asleep (pressed pid deadline p t) in
      let vu : P u =
        others_keep p.asleep (pressed pid deadline p t) (pressed_keeps pid deadline p t vt) in
      if_keeps P (not (s.child == pid)) v (
        if_keeps P (is_exited p.result) (c.reap_keeps p.now t vt)
          (if_keeps P _ vt (stop_loop_keeps pid (pressed_deadline deadline p) ps u vu)))

  pub stop_locked_keeps : (i : Stopping) (s : Super) → P s → P (stop i s)
  unfolding stop
  stop_locked_keeps i s v =
      if_keeps P (s.child == 0) v
        (stop_loop_keeps s.child _ i.polls (stop_begin s) (c.stop_begin_keeps s v))

  probe_wait_keeps : (looks : List (List Other)) (s : Super) → P s → P (probe_wait looks s).0
  unfolding probe_wait
  probe_wait_keeps [] s v = v
  probe_wait_keeps (os ∷ looks) s v =
      ground (arith, others_keep os s v, probe_wait_keeps looks (others os s))

  measured_keeps : (m : Motion) (l : Lens) (s : Super) → P s → P (measured m l s).0
  measured_keeps moves no_edge s v = c.hunt_keeps s v
  measured_keeps moves l s v = c.hunt_keeps s v
  measured_keeps m l s v = v

  rung_on_keeps : (r : Rung) (s : Super) → P s → P (rung_on r s).0
  unfolding rung_on
  rung_on_keeps r s v =
      let t = others r.before s in
      let vt : P t = others_keep r.before s v in
      let u = probe_wait r.settle (emit wr_enable t) in
      let vu : P u.0 = probe_wait_keeps r.settle (emit wr_enable t) (c.enable_keeps t vt) in
      ground (
        arith,
        c.stop_keeps t vt,
        c.stop_keeps u.0 vu,
        measured_keeps r.motion r.lens (emit motion_probe u.0) (c.probe_keeps u.0 vu),
      )

  rung_keeps : (first : Bool) (r : Rung) (s : Super) → P s → P (rung first r s).0
  unfolding rung
  rung_keeps first r s v =
      let u = probe_wait r.rail_off (emit wr_disable s) in
      let vu : P u.0 = probe_wait_keeps r.rail_off (emit wr_disable s) (c.disable_keeps s v) in
      ground (arith, rung_on_keeps r s v, c.stop_keeps u.0 vu, rung_on_keeps r u.0 vu)

  ladder_keeps : (first : Bool) (rs : List Rung) (s : Super) → P s → P (ladder first rs s).0
  unfolding ladder
  ladder_keeps first [] s v = v
  ladder_keeps first (r ∷ rs) s v =
      ground (arith, rung_keeps first r s v, ladder_keeps false rs (rung first r s).0)

  pub probe_sequence_keeps : (l : Ladder) (s : Super) → P s → P (probe_sequence l s).0
  unfolding probe_sequence
  probe_sequence_keeps l s v =
      ground (arith, ladder_keeps true (l.rung_0 ∷ l.rung_5 ∷ l.rung_15 ∷ l.rung_30 ∷ []) s v)

  decided_keeps : (at : ℕ) (x : Verdict) (s : Super) → P s → P (decided at x s)
  decided_keeps at waits s v = c.delay_keeps (at + 1000) s v
  decided_keeps at x s v = c.judged_keeps x s v

  pass_reap_keeps : (i : Pass) (s : Super) → P s → P (pass_reap i s)
  unfolding pass_reap
  pass_reap_keeps i s v =
      let t = others i.reap_window s in
      let vt : P t = others_keep i.reap_window s v in
      if_keeps P (s.child == 0) v
        (if_keeps P (is_exited i.reap_result) (c.reap_keeps i.reap_at t vt) vt)

  pass_restart_keeps : (i : Pass) (s : Super) → P s → P (pass_restart i s)
  unfolding pass_restart
  pass_restart_keeps i s v =
      if_keeps P s.restart_pending
        (c.restarted_keeps (stop i.restart_stop s) (stop_locked_keeps i.restart_stop s v)) v

  pass_runner_keeps : (i : Pass) (s : Super) → P s → P (pass_runner i s)
  unfolding pass_runner
  pass_runner_keeps i s v =
      if_keeps P s.runner_check (others_keep i.runner_window _ (c.runner_keeps s v)) v

  pass_takeover_keeps : (i : Pass) (s : Super) → P s → P (pass_takeover i s)
  unfolding pass_takeover
  pass_takeover_keeps i s v =
      if_keeps P (s.standby_takeover && s.child == 0 && not (same_ctl s.want idle))
        (if_keeps P i.takeover_idle
          (c.resumed_keeps _ (others_keep i.takeover_window _ (c.took_over_keeps s v)))
          (others_keep i.takeover_window s v))
        v

  pass_gate_keeps : (i : Pass) (s : Super) → P s → P (pass_gate i s)
  unfolding pass_gate
  pass_gate_keeps i s v =
      c.gate_keeps _ i.gate_says (others i.gate_window s) (others_keep i.gate_window s v)

  pass_gated_keeps : (i : Pass) (s : Super) → P s → P (pass_gated i s)
  unfolding pass_gated
  pass_gated_keeps i s v =
      let w = others_keep i.gated_window s v in
      if_keeps P (not (s.child == 0) && s.gated)
        (if_keeps P i.gated_idle (stop_locked_keeps i.gated_stop (others i.gated_window s) w) w) v

  await_idle_keeps : (i : Pass) (s : Super) → P s → P (await_idle i s).0
  unfolding await_idle
  await_idle_keeps i s v =
      let t = others i.idle_window s in
      let w : P t = others_keep i.idle_window s v in
      ground (arith, c.idle_keeps t w, c.idle_keeps (emit wr_halt t) (c.halt_keeps t w))

  pub run_probe_keeps : (i : Pass) (s : Super) → P s → P (run_probe i s)
  unfolding run_probe
  run_probe_keeps i s v =
      let w : P (probe_begun s) = c.probe_begun_keeps (wait_leave s) (c.wait_leave_keeps s v) in
      let u = probe_sequence i.ladder (probe_begun s) in
      let wu : P u.0 = probe_sequence_keeps i.ladder (probe_begun s) w in
      decided_keeps i.probed_at u.1 (probe_over u.0) (c.probe_over_keeps u.0 wu)

module _ (P : Super → Type 0) (c : Stable P) where
  enclosed_keeps : (i : Pass) (s : Super) → IsReady s → P s → P (enclosed i s)
  unfolding enclosed
  enclosed_keeps i s r v =
      let t = others i.enclosure_window s in
      let rt : IsReady t = others-IsReady i.enclosure_window s r in
      let w : P t = others_keep P c.calm i.enclosure_window s v in
      if_keeps P (not i.enclosure_closed) (c.calm.wait_enter_keeps i.enclosure_why t w) (
        if_keeps P (not t.probed) (run_probe_keeps P c.calm i t w) (
          c.spawn_keeps i.spawning (wait_leave t) (wait_leave-IsReady t rt)
            (c.calm.wait_leave_keeps t w)))

  pub start_controller_keeps : (i : Pass) (s : Super) → IsReady s → P s → P (start_controller i s)
  unfolding start_controller
  start_controller_keeps i s r v =
      let t = broker_open i.opening s in
      let w : P t = c.calm.broker_open_keeps i.opening s v in
      if_keeps P (is_held t.broker) (enclosed_keeps i t (broker_open-IsReady i.opening s r) w)
        (c.calm.delay_keeps (i.opened_at + broker_retry) t w)

  started_keeps :
      (i : Pass) (s : Super) (b : Bool)
      → may_start i s ≡ b
      → P s
      → P (
          if b
          then (let (t, go) = await_idle i s in if go then start_controller i t else t)
          else wait_leave s)
  started_keeps i s true e v =
      let t = await_idle i s in
      let r : IsReady t.0 = await_idle-IsReady i s (may_start-IsReady i s e) in
      let w : P t.0 = await_idle_keeps P c.calm i s v in
      if_keeps P t.1 (start_controller_keeps i t.0 r w) w
  started_keeps i s false e v = c.calm.wait_leave_keeps s v

  converge_keeps : (i : Pass) (s : Super) → P s → P (converge i s)
  unfolding converge
  converge_keeps i s v =
      if_keeps P _ (stop_locked_keeps P c.calm i.converge_stop s v)
        (started_keeps i s (may_start i s) refl v)

  pub pass_keeps : (i : Pass) (s : Super) → P s → P (pass i s)
  unfolding pass arrived
  pass_keeps i s v = converge_keeps i _ (
      pass_gated_keeps P c.calm i _ (
        pass_gate_keeps P c.calm i _ (
          pass_takeover_keeps P c.calm i _ (
            pass_runner_keeps P c.calm i _
              (pass_restart_keeps P c.calm i _ (pass_reap_keeps P c.calm i s v))))))

  -- The loop of `super_main` keeps it too.
  pub lifecycle_keeps : (rs : List Round) (s : Super) → P s → P (lifecycle rs s)
  unfolding lifecycle
  lifecycle_keeps [] s v = v
  lifecycle_keeps (r ∷ rs) s v =
      let t = pass r.pass s in
      let u = others r.between (record t { lamp_pending = false }) in
      let w : P u =
        others_keep P c.calm r.between _ (c.calm.lamp_keeps t (pass_keeps r.pass s v)) in
      if_keeps P s.th_run (lifecycle_keeps rs u w) v
