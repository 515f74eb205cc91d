-- ===== src/Jobstream/State.antt =====
-- What a run of src/jobstream.c keeps: `jobstream_run_t`, and the local variables of
-- `jobstream_run`. Times are milliseconds since the run began; the readings of the attributes and
-- the line counts are natural numbers.
use forgectrl.Prelude.{
  ℕ, ◌+◌, Bool, true, false, not, ◌&&◌, List, Option, none, some, Bytes, ltb, replicate,
  if◌then◌else◌,
}

-- JOBSTREAM_INFLIGHT_BYTES, JOBSTREAM_INFLIGHT_LINES and JOBSTREAM_HV_ON
abbrev pub inflight_bytes : ℕ
inflight_bytes = 512

abbrev pub inflight_lines : ℕ
inflight_lines = 32

abbrev pub hv_on : ℕ
hv_on = 30

-- `jobstream_run_t` behind the two counters; `tp_base` is -1 until it is set.
pub record Witnessed : Type 0 where
  pub samples : ℕ
  pub lit : Bool
  pub t_first_lit : ℕ
  pub t_last_lit : ℕ
  pub hv_max : ℕ
  pub lon_max : ℕ
  pub tp_base : Option ℕ
  pub tp_max : ℕ
  pub dark_run : ℕ

-- `rx` is what has been read and not yet taken apart, `held` the line behind `have_held`, and
-- `written` all that was written to the controller.
pub record Stream : Type 0 where
  pub sent : ℕ
  pub acked : ℕ
  pub seen : Witnessed
  pub rx : Bytes
  pub done_sending : Bool
  pub sent_len : List ℕ
  pub inflight : ℕ
  pub barrier : Bool
  pub held : Option Bytes
  pub t_last_ack : ℕ
  pub written : List Bytes

abbrev pub dark_start : Witnessed
dark_start = record {
  samples = 0;
  lit = false;
  t_first_lit = 0;
  t_last_lit = 0;
  hv_max = 0;
  lon_max = 0;
  tp_base = none;
  tp_max = 0;
  dark_run = 0;
}

abbrev pub start : Stream
start = record {
  sent = 0;
  acked = 0;
  seen = dark_start;
  rx = List.[];
  done_sending = false;
  sent_len = replicate inflight_lines 0;
  inflight = 0;
  barrier = false;
  held = none;
  t_last_ack = 0;
  written = List.[];
}

-- The readings of one sample that `witness` keeps.
pub record Sample : Type 0 where
  pub at : ℕ
  pub hv : ℕ
  pub tp : ℕ
  pub lon : ℕ

abbrev pub most : ℕ → ℕ → ℕ
most a b = if ltb b a then a else b

abbrev pub is_set : Option ℕ → Bool
is_set none = false
is_set (some x) = true

-- The two arms of `witness`: the tube is lit, or it is dark.
abbrev pub see_lit : Sample → Witnessed → Witnessed
see_lit x w = record w {
  lit = true;
  t_first_lit = if w.lit then w.t_first_lit else x.at;
  t_last_lit = x.at;
  dark_run = 0;
  tp_max = most x.tp w.tp_max;
}

abbrev pub see_dark : Sample → Witnessed → Witnessed
see_dark x w = record w {
  dark_run = if w.lit then w.dark_run + 1 else w.dark_run;
  tp_base = if not (is_set w.tp_base) && not w.lit then some x.tp else w.tp_base;
}

-- `witness`
unfoldable pub witness : Sample → Witnessed → Witnessed
witness x w =
    let v = record w {
      samples = w.samples + 1;
      hv_max = most x.hv w.hv_max;
      lon_max = most x.lon w.lon_max;
    } in
    if ltb hv_on x.hv then see_lit x v else see_dark x v
