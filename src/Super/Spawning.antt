-- ===== src/Super/Spawning.antt =====
-- On the passes of src/super.c that start a controller.
use forgectrl.Prelude.{
  ℕ, suc, ◌+◌, ◌≤◌, ◌<◌, ◌≡◌, ◌⊎◌, inl, inr, subst, sym, Bool-cases, refl, ap, ◌∙◌, true, false,
  List, [], ◌∷◌, some, Bytes, arith,
}
use forgectrl.Super.State.{Super}
use forgectrl.Super.Sections.{
  Opening, other, others, stop_request, broker_open, is_held, wait_leave, spawn, Spawning,
}
use forgectrl.Super.Pass.{
  Pass, pass, arrived, await_idle, enclosed, start_controller, may_start, converge,
}
use forgectrl.Super.Ready.{
  IsReady, broker_open-IsReady, wait_leave-IsReady, others-IsReady, await_idle-IsReady,
  may_start-IsReady, other-IsReady, judged-IsReady,
}
use forgectrl.Super.Lifecycle.{Calm, run_probe_keeps}
use forgectrl.Super.Halting.{halts, await_idle_ends, start_controller-halts}
use forgectrl.Super.Api.{Look, wait_for, controller_stop}
use forgectrl.Super.Ready.{reap-IsReady, stop_begin-IsReady, escalate-IsReady, wait_enter-IsReady}

IsReady-Calm : Calm IsReady
IsReady-Calm = record {
  reap_keeps = reap-IsReady;
  stop_begin_keeps = stop_begin-IsReady;
  escalate_keeps = escalate-IsReady;
  wait_enter_keeps = wait_enter-IsReady;
  wait_leave_keeps = wait_leave-IsReady;
  broker_open_keeps = broker_open-IsReady;
  judged_keeps = judged-IsReady;
  other_keeps = other-IsReady;
  restarted_keeps = λ s v. ground arith;
  runner_keeps = λ s v. ground arith;
  took_over_keeps = λ s v. ground arith;
  resumed_keeps = λ s v. ground arith;
  gate_keeps = λ g why s v. ground arith;
  idle_keeps = λ s v. ground arith;
  halt_keeps = λ s v. ground arith;
  delay_keeps = λ at s v. ground arith;
  lamp_keeps = λ s v. ground arith;
  probe_begun_keeps = λ s v. ground arith;
  probe_over_keeps = λ s v. ground arith;
  enable_keeps = λ s v. ground arith;
  disable_keeps = λ s v. ground arith;
  stop_keeps = λ s v. ground arith;
  probe_keeps = λ s v. ground arith;
  hunt_keeps = λ s v. ground arith;
}

-- The state in which a pass has read the enclosure.
abbrev pub looked : Pass → Super → Super
looked i s = others i.enclosure_window (broker_open i.opening (await_idle i s).0)

-- The wait for the kernel has lasted its ten seconds since the controller died, and the pass,
-- which ends in `t`, has halted it.
pub record IsHalted (i : Pass) (s t : Super) : Type 0 where
  pub waited : (others i.idle_window s).died_at + 10000 ≤ i.idle_at
  pub told : halts s.log < halts t.log

-- All that a start has passed: the tests in front of it, the kernel's idle state, the broker, the
-- enclosure and the motion probe; `t` is what the pass ends in.
pub record Passed (i : Pass) (s t : Super) : Type 0 where
  pub running : s.suspended ≡ false
  pub no_fault : s.motion_fault ≡ false
  pub open_gate : s.gated ≡ false
  pub due : s.respawn_at ≤ i.now
  pub kernel : (s.respawn_wait_idle ≡ false) ⊎ ((i.kernel_idle ≡ true) ⊎ IsHalted i s t)
  pub broker : is_held (broker_open i.opening (await_idle i s).0).broker ≡ true
  pub enclosure : i.enclosure_closed ≡ true
  pub moved : (looked i s).probed ≡ true

enclosed_spawns :
    (i : Pass) (s : Super)
    → IsReady s
    → 0 < (enclosed i s).child
    → (i.enclosure_closed ≡ true) × ((others i.enclosure_window s).probed ≡ true)
unfolding enclosed
enclosed_spawns i s r h =
    let t = others i.enclosure_window s in
    let rt : IsReady t = others-IsReady i.enclosure_window s r in
    ground
      (arith, wait_enter-IsReady i.enclosure_why t rt, run_probe_keeps IsReady IsReady-Calm i t rt)

start_spawns :
    (i : Pass) (s : Super)
    → IsReady s
    → 0 < (start_controller i s).child
    → (is_held (broker_open i.opening s).broker ≡ true)
      × (i.enclosure_closed ≡ true)
      × ((others i.enclosure_window (broker_open i.opening s)).probed ≡ true)
unfolding start_controller
start_spawns i s r h =
    let t = broker_open i.opening s in
    let rt : IsReady t = broker_open-IsReady i.opening s r in ground (arith, enclosed_spawns i t rt)

settled :
    (i : Pass) (s : Super)
    → IsReady (await_idle i s).0
    → (await_idle i s).1 ≡ true
    → (s.respawn_wait_idle ≡ false)
      ⊎ ((i.kernel_idle ≡ true) ⊎ IsHalted i s (start_controller i (await_idle i s).0))
settled i s r go = elim (await_idle_ends i s go) [
  | inl a ↦ inl a
  | inr (inl b) ↦ inr (inl b)
  | inr (inr (w, k)) ↦ inr (
      inr (record {
        waited = w;
        told = omega (arith, k, start_controller-halts i (await_idle i s).0 r);
      }))
]

converge_spawns :
    (i : Pass) (s : Super)
    → s.child ≡ 0
    → 0 < (converge i s).child
    → may_start i s ≡ true
    → Passed i s (converge i s)
unfolding converge
converge_spawns i s g h m =
    let t = await_idle i s in
    let r : IsReady t.0 = await_idle-IsReady i s (may_start-IsReady i s m) in
    elim (Bool-cases t.1) [
      | inl go ↦
          let e : converge i s ≡ start_controller i t.0 = ground (arith, go, m) in
          let k : 0 < (start_controller i t.0).child = subst (λ (u : Super). 0 < u.child) e h in
          let p = start_spawns i t.0 r k in
          subst (Passed i s) (sym e) (record {
            running = ground arith;
            no_fault = ground arith;
            open_gate = ground arith;
            due = ground arith;
            kernel = settled i s r go;
            broker = p.0;
            enclosure = p.1;
            moved = p.2;
          })
      | inr wait ↦ absurd (let n : t.0.child ≡ 0 = r.no_child in ground (arith, wait, m, n))
    ]

converge_starts :
    (i : Pass) (s : Super) → s.child ≡ 0 → 0 < (converge i s).child → may_start i s ≡ true
unfolding converge wait_leave
converge_starts i s g h = ground arith

-- A pass that finds no controller and leaves one running has passed every gate: supervision is not
-- suspended, no motion fault and no closed setup gate stands, the backoff is over, the broker holds
-- the pulse device, this very pass has read the enclosure as closed, and motion has been probed in
-- this hold of the broker. And if the wait for the kernel that a controller's death begins is not
-- over, this very pass has read the kernel as idle, or it has halted it, at least ten seconds after
-- the death.
pub pass_spawns :
    (i : Pass) (s : Super)
    → (arrived i s).child ≡ 0
    → 0 < (pass i s).child
    → Passed i (arrived i s) (pass i s)
unfolding pass
pass_spawns i s g h = converge_spawns i (arrived i s) g h (converge_starts i (arrived i s) g h)

-- The waits of a start are over: the broker is held, the kernel idle, and motion probed.
pub record IsWarm (s : Super) : Type 0 where
  pub settled : s.respawn_wait_idle ≡ false
  pub holds : is_held s.broker ≡ true
  pub has_probed : s.probed ≡ true
  pub quiet : s.probing ≡ false

-- What a spawn needs from the system.
pub record Works (i : Spawning) (b : Bytes) (p : ℕ) : Type 0 where
  pub entropy : i.secret ≡ some b
  pub environment : i.env ≡ true
  pub forks : i.fork ≡ some p

spawn-Works :
    (i : Spawning) (b : Bytes) (p : ℕ) (s : Super)
    → Works i b p
    → is_held s.broker ≡ true
    → ((spawn s.want i s).child ≡ suc p) × ((spawn s.want i s).suspended ≡ s.suspended)
unfolding spawn broker_open
spawn-Works i b p s w h = rw (h, w.entropy, w.environment, w.forks) (refl, refl)

stop_request_window :
    (s : Super) → s.probing ≡ false → others (stop_request ∷ []) s ≡ record s { suspended = true }
unfolding others other
stop_request_window s q = ground arith

wait_leave_flags :
    (s : Super) → ((wait_leave s).broker ≡ s.broker) × ((wait_leave s).suspended ≡ s.suspended)
unfolding wait_leave
wait_leave_flags s = (ground arith, ground arith)

late_spawn :
    (i : Spawning) (s : Super) (b : Bytes) (p : ℕ)
    → is_held s.broker ≡ true
    → s.suspended ≡ true
    → Works i b p
    → ((spawn (wait_leave s).want i (wait_leave s)).child ≡ suc p)
      × ((spawn (wait_leave s).want i (wait_leave s)).suspended ≡ true)
late_spawn i s b p h e w =
    let (wb, ws) = wait_leave_flags s in
    let (c, t) = spawn-Works i b p (wait_leave s) w (ap is_held wb ∙ h) in (c, t ∙ ws ∙ e)

-- The enclosure's window of a pass, in which a stop is requested.
enclosed_late :
    (i : Pass) (s : Super) (b : Bytes) (p : ℕ)
    → s.probed ≡ true
    → s.probing ≡ false
    → is_held s.broker ≡ true
    → i.enclosure_window ≡ stop_request ∷ []
    → i.enclosure_closed ≡ true
    → Works i.spawning b p
    → ((enclosed i s).child ≡ suc p) × ((enclosed i s).suspended ≡ true)
unfolding enclosed
enclosed_late i s b p pr q h w c k =
    rw (w, stop_request_window s q, c, pr)
      (late_spawn i.spawning (record s { suspended = true; probed = true }) b p h refl k)

await_idle_settled :
    (i : Pass) (s : Super) → s.respawn_wait_idle ≡ false → await_idle i s ≡ (s, true)
unfolding await_idle
await_idle_settled i s e = rw e

broker_open_held : (o : Opening) (s : Super) → is_held s.broker ≡ true → broker_open o s ≡ s
unfolding broker_open
broker_open_held o s h = rw h

start_controller_held :
    (i : Pass) (s : Super) → is_held s.broker ≡ true → start_controller i s ≡ enclosed i s
unfolding start_controller
start_controller_held i s h = rw (broker_open_held i.opening s h, h)

-- From the test in front of a start, with the enclosure's window of a pass as above.
converge_late :
    (i : Pass) (s : Super) (b : Bytes) (p : ℕ)
    → may_start i s ≡ true
    → IsWarm s
    → i.enclosure_window ≡ stop_request ∷ []
    → i.enclosure_closed ≡ true
    → Works i.spawning b p
    → ((converge i s).child ≡ suc p) × ((converge i s).suspended ≡ true)
unfolding converge
converge_late i s b p m v w c k =
    let g : s.child ≡ 0 = (may_start-IsReady i s m).no_child in
    let e = enclosed_late i s b p v.has_probed v.quiet v.holds w c k in
    ground (arith, await_idle_settled i s v.settled, start_controller_held i s v.holds, e)

controller_stop_idle :
    (at : ℕ) (ls : List Look) (s : Super)
    → s.child ≡ 0
    → s.probing ≡ false
    → (controller_stop at ls s).1 ≡ true
unfolding controller_stop wait_for other
controller_stop_idle at [] s g q = ground arith
controller_stop_idle at (l ∷ ls) s g q = ground arith

-- A stop that is asked for while a pass reads the enclosure comes too late, and is told that it is
-- done: `super_controller_stop` sees no controller and no probe and answers at once, and the pass,
-- which does not look at `suspended` again, starts a controller behind it. The kernel is idle, the
-- broker held and motion probed, so that the pass has nothing else to wait for.
pub stop_too_late :
    (i : Pass) (s : Super) (b : Bytes) (p at : ℕ) (ls : List Look)
    → may_start i (arrived i s) ≡ true
    → IsWarm (arrived i s)
    → i.enclosure_window ≡ stop_request ∷ []
    → i.enclosure_closed ≡ true
    → Works i.spawning b p
    → ((controller_stop at ls (arrived i s)).1 ≡ true)
      × ((pass i s).child ≡ suc p)
      × ((pass i s).suspended ≡ true)
unfolding pass
stop_too_late i s b p at ls m v w c k =
    let t = arrived i s in
    let (child, suspended) = converge_late i t b p m v w c k in
    let g : t.child ≡ 0 = (may_start-IsReady i t m).no_child in
    (controller_stop_idle at ls t g v.quiet, child, suspended)
