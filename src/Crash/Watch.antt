-- ===== src/Crash/Watch.antt =====
-- `crash_tick` and `crash_reset` of src/accel.c. A source register is its three bits.
use forgectrl.Prelude.{ℕ, suc, Bool, true, false, not, leb, if◌then◌else◌}

-- CRASH_SRC_IA, CRASH_SRC_XH and CRASH_SRC_YH of a register
pub record Source : Type 0 where
  pub ia : Bool
  pub xh : Bool
  pub yh : Bool

-- `crash_watch_t`, with the axes as their two bits
pub record Watch : Type 0 where
  pub alert : Bool
  pub alarm : Bool
  pub clear_ticks : ℕ
  pub axis_x : Bool
  pub axis_y : Bool

-- `crash_event_t`
pub data CrashEvent : Type 0 where
  ev_none ev_alert ev_alarm ev_released : CrashEvent

-- CRASH_CLEAR_TICKS
abbrev pub clear_limit : ℕ
clear_limit = 5

-- `crash_reset`
abbrev pub crash_reset : Watch
crash_reset = record {
  alert = false;
  alarm = false;
  clear_ticks = 0;
  axis_x = false;
  axis_y = false;
}

-- `crash_tick`
unfoldable pub crash_tick : Source → Source → Watch → Watch × CrashEvent
crash_tick s1 s2 w =
    if w.alarm
    then (w, ev_none)
    else if s2.ia
    then (record w { alarm = true; axis_x = s2.xh; axis_y = s2.yh }, ev_alarm)
    else if s1.ia
    then (
      record w { alert = true; clear_ticks = 0; axis_x = s1.xh; axis_y = s1.yh },
      if w.alert then ev_none else ev_alert,
    )
    else if not w.alert
    then (w, ev_none)
    else if leb clear_limit (suc w.clear_ticks)
    then (record w { alert = false; clear_ticks = 0 }, ev_released)
    else (record w { clear_ticks = suc w.clear_ticks }, ev_none)
