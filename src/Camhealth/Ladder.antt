-- ===== src/Camhealth/Ladder.antt =====
-- `struct cam_health` of src/camhealth.c and its three functions.
use forgectrl.Prelude.{ℕ, zero, suc, ◌+◌, ◌-◌, Bool, true, false, ltb, leb, if◌then◌else◌}

-- CAM_WARMUP_FRAMES, CAM_MAX_BAD_FRAMES and CAM_MAX_RECOVERIES
abbrev pub warmup_frames : ℕ
warmup_frames = 2

abbrev pub max_bad_frames : ℕ
max_bad_frames = 4

abbrev pub max_recoveries : ℕ
max_recoveries = 3

pub record Health : Type 0 where
  pub warmup : ℕ
  pub bad : ℕ
  pub restarts : ℕ

-- `cam_frame_action_t`
pub data Action : Type 0 where
  frame_use frame_warmup frame_drop frame_restart frame_abort : Action

-- `cam_health_started`
abbrev pub started : Health
started = record { warmup = warmup_frames; bad = 0; restarts = 0 }

-- `cam_health_restarted`
abbrev pub restarted : Health → Health
restarted h = record { warmup = warmup_frames; bad = 0; restarts = h.restarts + 1 }

-- `cam_health_frame`, for an errored frame and for a good one
unfoldable pub cam_health_frame : Bool → Health → Health × Action
cam_health_frame true h =
    let bad' = h.bad + 1 in
    if ltb bad' max_bad_frames then (record h { bad = bad' }, frame_drop) else (
      record h { bad = 0 },
      if leb max_recoveries h.restarts then frame_abort else frame_restart,
    )
cam_health_frame false h =
    if ltb 0 h.warmup
    then (record h { bad = 0; warmup = h.warmup - 1 }, frame_warmup)
    else (record h { bad = 0; restarts = 0 }, frame_use)

-- What the capture engine does with the answer: a restart cycles the queue.
abbrev pub follow : Health × Action → Health
follow (h, frame_restart) = restarted h
follow (h, _) = h

-- The answer to the last of so many errored frames in a row, and the ladder behind it.
unfoldable pub errored : ℕ → Health → Health × Action
errored zero h = cam_health_frame true h
errored (suc n) h = errored n (follow (cam_health_frame true h))
