-- ===== src/Super/Tests.antt =====
-- The supervisor on concrete passes, and its theorems at them.
use forgectrl.Prelude.{◌≡◌, refl, true, false, [], ◌∷◌, none, some, Bytes, codes, arith}
use forgectrl.Super.State.{Super, grbl, initial}
use forgectrl.Super.Sections.{
  Opening, Spawning, stop_request, others, broker_open, spawn, wait_leave, judged, first_open,
}
use forgectrl.Super.Stop.{Stopping, running}
use forgectrl.Super.Probe.{
  Rung, Ladder, moves, on_edge, dead, probe_sequence, probe_wait, rung, rung_on, ladder,
}
use forgectrl.Super.Pass.{
  Pass, pass, arrived, pass_reap, pass_restart, pass_runner, pass_takeover, pass_gate, pass_gated,
  await_idle, run_probe, enclosed, start_controller, converge,
}
use forgectrl.Super.Main.{Round, init, lifecycle, configured_mode}
use forgectrl.Super.Api.{controller_stop}
use forgectrl.Super.Invariant.{IsSafe, lifecycle-IsSafe}
use forgectrl.Super.Spawning.{Passed, pass_spawns, stop_too_late}

abbrev unwatched : Stopping
unwatched = record { since = 0; polls = [] }

abbrev opening_7 : Opening
opening_7 = record { device = true; tries = none ∷ some 7 ∷ []; locks = true }

abbrev good_rung : Rung
good_rung = record { rail_off = []; before = []; settle = []; motion = moves; lens = on_edge }

abbrev dead_rung : Rung
dead_rung = record { rail_off = []; before = []; settle = []; motion = dead; lens = on_edge }

abbrev second_try : Ladder
second_try = record {
  released = false;
  rung_0 = dead_rung;
  rung_5 = good_rung;
  rung_15 = dead_rung;
  rung_30 = dead_rung;
}

abbrev secret_1 : Bytes
secret_1 = codes "0123456789abcdef0123456789abcdef"

abbrev fork_42 : Spawning
fork_42 = record {
  opening = opening_7;
  secret = some secret_1;
  env = true;
  fork = some 41;
  at = 1000;
}

abbrev calm_pass : Pass
calm_pass = record {
  reap_window = [];
  reap_result = running;
  reap_at = 1000;
  restart_stop = unwatched;
  runner_window = [];
  takeover_idle = false;
  takeover_window = [];
  gate_window = [];
  gate_open = true;
  gate_says = [];
  gated_window = [];
  gated_idle = false;
  gated_stop = unwatched;
  converge_stop = unwatched;
  now = 1000;
  idle_window = [];
  kernel_idle = true;
  idle_at = 1000;
  opening = opening_7;
  opened_at = 1000;
  enclosure_window = [];
  enclosure_closed = true;
  enclosure_why = [];
  ladder = second_try;
  probed_at = 1000;
  spawning = fork_42;
}

abbrev calm_round : Round
calm_round = record { pass = calm_pass; between = [] }

abbrev grbl_start : Super
grbl_start = init (some (codes "grbl")) false false

-- The state of a machine that has probed its motion and runs no controller.
abbrev warm : Super
warm = record initial { want = grbl; broker = some 7; probed = true; th_run = true }

abbrev late_pass : Pass
late_pass = record calm_pass { enclosure_window = stop_request ∷ [] }

-- The first pass probes, the second starts the controller.
two_rounds : (lifecycle (calm_round ∷ calm_round ∷ []) grbl_start).child ≡ 42
unfolding lifecycle init configured_mode pass arrived pass_reap pass_restart pass_runner
    pass_takeover pass_gate pass_gated await_idle run_probe enclosed start_controller converge
    others broker_open first_open wait_leave probe_sequence ladder rung rung_on probe_wait judged
    spawn
two_rounds = refl

lifecycle-IsSafe_example : IsSafe (lifecycle (calm_round ∷ calm_round ∷ []) grbl_start)
lifecycle-IsSafe_example =
    lifecycle-IsSafe (some (codes "grbl")) false false (calm_round ∷ calm_round ∷ [])

abbrev running_42 : Super
running_42 = record warm { child = 42; child_ctl = grbl; spawned_at = 1000; backoff = 16 }

abbrev running_43 : Super
running_43 = record running_42 { child = 43; spawned_at = 30000; backoff = 32 }

-- A controller has died, and the kernel has not gone idle since.
abbrev died : Super
died = record warm { respawn_wait_idle = true; died_at = 1000 }

abbrev dead_pass : Pass
dead_pass = record calm_pass { kernel_idle = false; idle_at = 11000 }

pass_spawns_example : Passed dead_pass (arrived dead_pass died) (pass dead_pass died)
unfolding pass arrived pass_reap pass_restart pass_runner pass_takeover pass_gate pass_gated
    await_idle enclosed start_controller converge others broker_open wait_leave spawn
pass_spawns_example = pass_spawns dead_pass died refl (omega arith)

stop_too_late_example :
    ((controller_stop 1000 [] (arrived late_pass warm)).1 ≡ true)
    × ((pass late_pass warm).child ≡ 42)
    × ((pass late_pass warm).suspended ≡ true)
unfolding arrived pass_reap pass_restart pass_runner pass_takeover pass_gate pass_gated others
stop_too_late_example =
    stop_too_late late_pass warm secret_1 41 1000 [] refl
      (record { settled = refl; holds = refl; has_probed = refl; quiet = refl }) refl refl
      (record { entropy = refl; environment = refl; forks = refl })
