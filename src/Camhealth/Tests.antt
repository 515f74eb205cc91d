-- ===== src/Camhealth/Tests.antt =====
-- The ladder from its start.
use forgectrl.Prelude.{◌-◌, ◌≡◌, ◌≢◌, ◌≤◌, ◌<◌, false, arith}
use forgectrl.Camhealth.Ladder.{frame_abort, started, cam_health_frame, follow, errored}
use forgectrl.Camhealth.Escalation.{IsLadder, left, cam_health_gives_up}

started-IsLadder : IsLadder started
started-IsLadder = record { warm = omega arith; few_bad = omega arith; few_restarts = omega arith }

cam_health_gives_up_example :
    ((errored (left started - 1) started).1 ≡ frame_abort)
    × (left started ≤ 16)
    × (14 < left started - 1 → (errored 14 started).1 ≢ frame_abort)
    × ((cam_health_frame false started).1 ≢ frame_abort
        → IsLadder (follow (cam_health_frame false started)))
cam_health_gives_up_example = cam_health_gives_up started 14 false started-IsLadder
