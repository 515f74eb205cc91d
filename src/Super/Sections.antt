-- ===== src/Super/Sections.antt =====
-- The critical sections of super.c: what each does between taking `mu` and dropping it. The clock
-- is read once in a section.
use forgectrl.Prelude.{
  ℕ, suc, zero, ◌+◌, ◌*◌, Bool, true, false, not, ◌&&◌, ◌||◌, List, [], ◌∷◌, Option, none, some,
  Bytes, same, ltb, leb, ◌==◌, if◌then◌else◌,
}
use forgectrl.Super.State.{
  Ctl, idle, grbl, cloud, same_ctl, wr_stop, wr_latch, sigterm, sigkill, spawned, forget_report,
  unlink_anchor, clear_lens_home, led_blink, led_release, Super, respawn_min_s, respawn_max_s,
  healthy_uptime, bump,
}

-- `wait_enter_locked`
unfoldable pub wait_enter : Bytes → Super → Super
wait_enter why s = if s.enclosure_wait && same why s.wait_why then s else record s {
  wait_why = why;
  enclosure_wait = true;
  generation = bump s.generation;
  log = led_blink ∷ s.log;
}

-- `wait_leave_locked`
unfoldable pub wait_leave : Super → Super
wait_leave s =
    if s.enclosure_wait
    then record s {
      enclosure_wait = false;
      wait_why = [];
      generation = bump s.generation;
      log = led_release ∷ s.log;
    }
    else s

-- What an unexpected death does to the backoff, and when the respawn may come.
unfoldable pub arm_respawn : ℕ → Super → Super
arm_respawn now s =
    let base = if leb (s.spawned_at + healthy_uptime) now then respawn_min_s else s.backoff in
    record s {
      respawn_at = now + 1000 * base;
      backoff = if ltb base respawn_max_s then base * 2 else base;
    }

-- `expected` of `reap_locked`
abbrev pub is_expected : Super → Bool
is_expected s = s.suspended || not (same_ctl s.want s.child_ctl) || s.restart_pending

-- What `reap_locked` does whether the exit was expected or not.
abbrev pub buried : ℕ → Super → Super
buried now s = record s {
  report_secret = [];
  child = 0;
  child_ctl = idle;
  generation = bump s.generation;
  runner_check = same_ctl s.child_ctl grbl;
  respawn_wait_idle = true;
  died_at = now;
  log = forget_report ∷ unlink_anchor ∷ wr_latch ∷ wr_stop ∷ s.log;
}

-- `reap_locked`
unfoldable pub reap : ℕ → Super → Super
unfolding arm_respawn
reap now s = if is_expected s then buried now s else arm_respawn now (buried now s)

-- `stop_locked` up to its loop, for a child that is there: the safing pair, the signals, the pair
-- once more, and the engine forgets the reporter.
unfoldable pub stop_begin : Super → Super
stop_begin s = record s {
  log =
      forget_report
      ∷ wr_latch
      ∷ wr_stop
      ∷ sigterm s.child
      ∷ sigterm s.child
      ∷ wr_latch
      ∷ wr_stop
      ∷ s.log;
}

-- The escalation in the loop of `stop_locked`.
unfoldable pub escalate : ℕ → Super → Super
escalate pid s = record s { log = wr_latch ∷ wr_stop ∷ sigkill pid ∷ sigkill pid ∷ s.log }

-- What one try of `open` and the `flock` give.
pub record Opening : Type 0 where
  pub device : Bool
  pub tries : List (Option ℕ)
  pub locks : Bool

-- The loop of 30 tries: the first descriptor.
unfoldable pub first_open : ℕ → List (Option ℕ) → Option ℕ
first_open zero ts = none
first_open (suc n) [] = none
first_open (suc n) (some fd ∷ ts) = some fd
first_open (suc n) (none ∷ ts) = first_open n ts

abbrev pub opened_fd : Opening → Option ℕ
opened_fd o = if o.device && o.locks then first_open 30 o.tries else none

-- The end of `broker_open_locked` for what the opening gave; `none` stands for each of its
-- refusals, which differ in the message only.
abbrev pub hold_broker : Option ℕ → Super → Super
hold_broker none s = record s { broker_warned = true; broker = none }
hold_broker (some fd) s = record s {
  broker = some fd;
  broker_warned = false;
  probed = false;
  probe_skipped = false;
  log = clear_lens_home ∷ s.log;
}

abbrev pub is_held : Option ℕ → Bool
is_held none = false
is_held (some fd) = true

-- `broker_open_locked`
unfoldable pub broker_open : Opening → Super → Super
unfolding first_open
broker_open o s = if is_held s.broker then s else hold_broker (opened_fd o) s

-- What the steps of a spawn that may fail give: the secret's bytes from /dev/urandom, the
-- environment, and one less than the pid of `fork`, which is above 0 in the parent.
pub record Spawning : Type 0 where
  pub opening : Opening
  pub secret : Option Bytes
  pub env : Bool
  pub fork : Option ℕ
  pub at : ℕ

abbrev pub delayed : ℕ → Super → Super
delayed now s = record s { respawn_at = now + 1000 * s.backoff }

-- `spawn_locked` in the parent, behind the broker and the secret. The environment and the fork that
-- fail leave the secret as it is.
abbrev pub forked : Ctl → Bool → Option ℕ → ℕ → Super → Super
forked ctl false pid now s = delayed now s
forked ctl true none now s = delayed now s
forked ctl true (some p) now s = record s {
  child = suc p;
  child_ctl = ctl;
  spawned_at = now;
  generation = bump s.generation;
  lamp_pending = true;
  log = spawned ctl (suc p) s.local_posture ∷ s.log;
}

-- `report_secret_new`, and what `spawn_locked` does behind it.
abbrev pub with_secret : Ctl → Option Bytes → Spawning → Super → Super
with_secret ctl none i s = delayed i.at (record s { report_secret = [] })
with_secret ctl (some bytes) i s = forked ctl i.env i.fork i.at (record s { report_secret = bytes })

-- `spawn_locked`
unfoldable pub spawn : Ctl → Spawning → Super → Super
unfolding broker_open
spawn ctl i s = with_secret ctl i.secret i (broker_open i.opening s)

-- What a motion probe decides; `waits` is 3 and `aborted` 4.
pub data Verdict : Type 0 where
  fault verified unverified waits aborted : Verdict

-- The flags that a verdict sets.
unfoldable pub judged : Verdict → Super → Super
judged fault s = record s { probed = false; probe_skipped = false; motion_fault = true }
judged verified s = record s { probed = true; probe_skipped = false; motion_fault = false }
judged unverified s = record s { probed = true; probe_skipped = true; motion_fault = false }
judged _ s = s

-- The sections that other threads run while the lifecycle thread waits without `mu`.
pub data Other : Type 0 where
  stop_request stop_gave_up start restart : Other
  select : Bool → Other
  posture : Bool → Other
  posture_done : Other
  stopping : Other
  escalating : Other
  reaping : ℕ → Other
  probe_begin : Opening → Other
  probe_end : Verdict → Other
  shutdown broker_close : Other

-- The target of a mode switch: `true` is cloud.
abbrev pub target : Bool → Ctl
target true = cloud
target false = grbl

-- `super_probe_motion` up to the probe.
abbrev pub probe_start : Opening → Super → Super
probe_start o s =
    if not (s.child == 0) || s.probing
    then s
    else let t = broker_open o s in
      if is_held t.broker then record t { probing = true; probe_abort = false } else t

-- `super_controller_stop` up to its wait, and `super_controller_stop` when the wait ran out;
-- `super_controller_start`, `super_controller_restart`, the commit of `super_mode_switch`,
-- `super_set_local` before and behind its stop, the sections of another thread's `stop_locked`,
-- those of `super_probe_motion`, and those of `super_shutdown`.
unfoldable pub other : Other → Super → Super
unfolding stop_begin escalate reap broker_open judged wait_leave
other stop_request s =
    let t = record s { suspended = true } in
    if s.probing then record t { probe_abort = true; log = wr_stop ∷ s.log } else t
other stop_gave_up s = record s { suspended = false }
other start s = record s {
  suspended = false;
  motion_fault = false;
  respawn_at = 0;
  backoff = respawn_min_s;
}
other restart s = record s { restart_pending = true }
other (select m) s = record s {
  want = target m;
  suspended = false;
  standby_takeover = false;
  motion_fault = false;
}
other (posture on) s = record s { local_posture = on }
other posture_done s = record s { respawn_at = 0 }
other stopping s = if s.child == 0 then s else stop_begin s
other escalating s = if s.child == 0 then s else escalate s.child s
other (reaping now) s = if s.child == 0 then s else reap now s
other (probe_begin o) s = probe_start o s
other (probe_end v) s = judged v (record s { probing = false })
other shutdown s = wait_leave (record s { th_run = false; suspended = true })
other broker_close s = record s { broker = none }

unfoldable pub others : List Other → Super → Super
others [] s = s
others (o ∷ os) s = others os (other o s)
