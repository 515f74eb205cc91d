-- ===== src/Jobstream/Sending.antt =====
-- The next lines in `jobstream_run`: as many as the controller's ring takes.
use forgectrl.Prelude.{
  ◌+◌, ◌%◌, ◌^◌, Bool, true, false, not, ◌&&◌, ◌||◌, List, [], ◌∷◌, Option, none, some, Bytes,
  codes, length, set, ltb, leb, ◌==◌, if◌then◌else◌,
}
use forgectrl.Jobstream.State.{Stream, inflight_bytes, inflight_lines}
use forgectrl.Jobstream.Answers.{Failure, generator, cannot_write, starts}

-- What `cfg->gen` gives: a line, nothing more, nothing yet, or a refusal.
pub data Gen : Type 0 where
  line : Bytes → Gen
  finished pausing refusing : Gen

-- `l[0] == 'M' && l[1] == '2' && (l[2] == '\0' || l[2] == ' ')`
abbrev pub is_program_end : Bytes → Bool
is_program_end (a ∷ b ∷ []) = a == b'M' && b == b'2'
is_program_end (a ∷ b ∷ c ∷ l) = a == b'M' && b == b'2' && c == 32
is_program_end _ = false

-- `line_is_barrier`
unfoldable pub is_barrier : Bytes → Bool
is_barrier l = starts (codes "$") l || starts (codes "M102") l || is_program_end l

-- Whether the line waits: a barrier for every earlier line, any other for room.
abbrev pub must_wait : Bytes → Stream → Bool
must_wait l s =
    if is_barrier l
    then ltb s.acked s.sent
    else ltb inflight_bytes ((s.inflight + length l + 1) % 2 ^ 32)
      || leb (s.acked + inflight_lines) s.sent

-- A line that goes out. `inflight` is a `size_t` of 32 bits, as in the test above.
abbrev pub put : Bytes → Stream → Stream
put l s = record s {
  sent = s.sent + 1;
  sent_len = set s.sent_len (s.sent % inflight_lines) (length l + 1);
  inflight = (s.inflight + (length l + 1)) % 2 ^ 32;
  barrier = is_barrier l || s.barrier;
  held = none;
  written = l ∷ s.written;
}

-- One round with a line at hand: the state, whether the loop goes on, and a failure. Where the
-- write fails the stored length is left out: nothing reads it behind the failure.
unfoldable pub try_line : Bool → Bytes → Stream → Stream × Bool × Option Failure
try_line writes l s =
    if must_wait l s
    then (record s { held = some l }, false, none)
    else if writes
    then (put l s, not (is_barrier l), none)
    else (record s { held = some l }, false, some cannot_write)

abbrev pub then_send :
    Stream × Bool × Option Failure → Stream × Option Failure → Stream × Option Failure
then_send (s, true, none) rest = rest
then_send (s, false, none) rest = (s, none)
then_send (s, more, some f) rest = (s, some f)

-- The rounds that ask the generator.
unfoldable pub ask : Bool → List Gen → Stream → Stream × Option Failure
ask writes [] s = (s, none)
ask writes (refusing ∷ gs) s = (s, some generator)
ask writes (pausing ∷ gs) s = (s, none)
ask writes (finished ∷ gs) s = (record s { done_sending = true }, none)
ask writes (line l ∷ gs) s =
    let x = try_line writes l s in let rest = ask writes gs x.0 in then_send x rest

-- The line behind `have_held` first, then the generator.
abbrev pub send_held : Bool → List Gen → Option Bytes → Stream → Stream × Option Failure
send_held writes gs none s = ask writes gs s
send_held writes gs (some l) s =
    let x = try_line writes l s in let rest = ask writes gs x.0 in then_send x rest

-- `while (!done_sending && !barrier)`, over what the generator gives.
unfoldable pub send : Bool → List Gen → Stream → Stream × Option Failure
send writes gs s = if s.done_sending || s.barrier then (s, none) else send_held writes gs s.held s
