-- ===== src/Super/State.antt =====
-- The state of the supervisor, and what it does to the machine.
use forgectrl.Prelude.{ℕ, ◌+◌, ◌%◌, ◌^◌, Bool, true, false, List, [], Option, none, Bytes}

-- `ctl_t`; `idle` is Ctl_None.
pub data Ctl : Type 0 where
  idle grbl cloud : Ctl

abbrev pub same_ctl : Ctl → Ctl → Bool
same_ctl idle idle = true
same_ctl grbl grbl = true
same_ctl cloud cloud = true
same_ctl _ _ = false

-- What the supervisor does outside its own memory: the writes to the kernel's attributes, the
-- signals, and the calls of other modules.
pub data Act : Type 0 where
  wr_stop wr_latch wr_halt wr_enable wr_disable : Act
  sigterm sigkill : ℕ → Act
  spawned : Ctl → ℕ → Bool → Act
  forget_report unlink_anchor clear_lens_home runner_reaped took_over : Act
  motion_probe lens_hunt : Act
  led_blink led_release : Act

-- The static variables of super.c. Times are CLOCK_MONOTONIC in milliseconds, `backoff` is in
-- seconds; `child` 0 is no child and `broker` is the descriptor, if it is held. `log` is what has
-- been done, the latest first.
pub record Super : Type 0 where
  pub want : Ctl
  pub suspended : Bool
  pub child : ℕ
  pub child_ctl : Ctl
  pub spawned_at : ℕ
  pub backoff : ℕ
  pub respawn_at : ℕ
  pub generation : ℕ
  pub local_posture : Bool
  pub gated : Bool
  pub gate_why : Bytes
  pub broker : Option ℕ
  pub broker_warned : Bool
  pub probed : Bool
  pub probe_skipped : Bool
  pub motion_fault : Bool
  pub probing : Bool
  pub probe_abort : Bool
  pub standby_takeover : Bool
  pub enclosure_wait : Bool
  pub wait_why : Bytes
  pub runner_check : Bool
  pub respawn_wait_idle : Bool
  pub died_at : ℕ
  pub restart_pending : Bool
  pub report_secret : Bytes
  pub lamp_pending : Bool
  pub th_run : Bool
  pub log : List Act

-- The values that the static variables start with.
abbrev pub initial : Super
initial = record {
  want = idle;
  suspended = false;
  child = 0;
  child_ctl = idle;
  spawned_at = 0;
  backoff = 1;
  respawn_at = 0;
  generation = 0;
  local_posture = false;
  gated = false;
  gate_why = [];
  broker = none;
  broker_warned = false;
  probed = false;
  probe_skipped = false;
  motion_fault = false;
  probing = false;
  probe_abort = false;
  standby_takeover = false;
  enclosure_wait = false;
  wait_why = [];
  runner_check = false;
  respawn_wait_idle = false;
  died_at = 0;
  restart_pending = false;
  report_secret = [];
  lamp_pending = false;
  th_run = false;
  log = [];
}

-- RESPAWN_MIN_S, RESPAWN_MAX_S in seconds; HEALTHY_UPTIME_S, STOP_TERM_WAIT_S,
-- RESPAWN_IDLE_WAIT_S and BROKER_RETRY_S in milliseconds.
abbrev pub respawn_min_s : ℕ
respawn_min_s = 1

abbrev pub respawn_max_s : ℕ
respawn_max_s = 30

abbrev pub healthy_uptime : ℕ
healthy_uptime = 60000

abbrev pub stop_term_wait : ℕ
stop_term_wait = 5000

abbrev pub respawn_idle_wait : ℕ
respawn_idle_wait = 10000

abbrev pub broker_retry : ℕ
broker_retry = 2000

-- `unsigned generation`
abbrev pub bump : ℕ → ℕ
bump g = (g + 1) % 2 ^ 32
