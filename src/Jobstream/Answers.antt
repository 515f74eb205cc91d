-- ===== src/Jobstream/Answers.antt =====
-- The controller's answers in `jobstream_run`: what has been read, taken apart at its newlines.
use forgectrl.Prelude.{
  ℕ, zero, suc, ◌+◌, ◌-◌, ◌%◌, ◌^◌, Bool, true, false, not, ◌||◌, List, [], ◌∷◌, ◌++◌, Option, none,
  some, Bytes, codes, strip_prefix, length, get_or, ltb, leb, ◌==◌, if◌then◌else◌,
}
use forgectrl.Jobstream.State.{Stream, inflight_lines}

-- Why a run fails.
pub data Failure : Type 0 where
  answered : Bytes → ℕ → Failure
  closed generator cannot_write was_aborted no_discharge no_press too_long : Failure

-- `while (*l == '\r' || *l == ' ') l++`
unfoldable pub skip_blanks : Bytes → Bytes
skip_blanks [] = []
skip_blanks (c ∷ l) = let rest = skip_blanks l in if c == 13 || c == 32 then rest else c ∷ l

abbrev pub is_some : Option Bytes → Bool
is_some none = false
is_some (some r) = true

-- `!strncmp(l, p, strlen(p))`
abbrev pub starts : Bytes → Bytes → Bool
starts p l = is_some (strip_prefix p l)

-- An `ok` counts a line as acknowledged and takes its bytes off `inflight`, a `size_t` of 32
-- bits.
unfoldable pub acknowledge : ℕ → Stream → Stream
acknowledge now s =
    let acked' = s.acked + 1 in
    record s {
      acked = acked';
      inflight = (s.inflight + 2 ^ 32 - get_or s.sent_len (s.acked % inflight_lines) 0) % 2 ^ 32;
      barrier = if leb s.sent acked' then false else s.barrier;
      t_last_ack = now;
    }

-- What an answer does, by whether it is an `ok` and whether it is an error or an alarm.
unfoldable pub respond : Bool → Bool → ℕ → Bytes → Stream → Stream × Option Failure
respond true bad now l s = (acknowledge now s, none)
respond false true now l s = (s, some (answered l (s.acked + 1)))
respond false false now l s = (s, none)

unfoldable pub answer : ℕ → Bytes → Stream → Stream × Option Failure
answer now line s =
    let l = skip_blanks line in
    respond (starts (codes "ok") l) (starts (codes "error") l || starts (codes "ALARM") l) now l s

-- The text up to the first newline, and what is behind it.
unfoldable pub next_line : Bytes → Option (Bytes × Bytes)
next_line [] = none
next_line (c ∷ r) =
    let rest = next_line r in
    if c == 10
    then some ([], r)
    else elim rest [ none ↦ none | some (l, behind) ↦ some (c ∷ l, behind) ]

-- A failure leaves the loop.
abbrev pub then_take : Stream × Option Failure → Stream × Option Failure → Stream × Option Failure
then_take (s, none) rest = rest
then_take (s, some f) rest = (s, some f)

-- `while ((nl = memchr(rx, '\n', rxn)))`, for at most as many rounds as there are bytes.
unfoldable pub take_lines : ℕ → ℕ → Stream → Stream × Option Failure
take_lines zero now s = (s, none)
take_lines (suc rounds) now s = elim (next_line s.rx) [
  | none ↦ (s, none)
  | some (line, behind) ↦
      let x = answer now line (record s { rx = behind }) in
      let rest = take_lines rounds now x.0 in then_take x rest
]

-- The size of `rx`.
abbrev pub rx_size : ℕ
rx_size = 512

-- A status frame that fills the buffer is dropped.
abbrev pub drop_overrun : Stream → Stream
drop_overrun s = if leb (rx_size - 1) (length s.rx) then record s { rx = [] } else s

-- `while ((r = read(...)) > 0)`, over what the reads give.
unfoldable pub read_all : ℕ → List Bytes → Stream → Stream × Option Failure
read_all now [] s = (s, none)
read_all now (chunk ∷ chunks) s =
    let got = record s { rx = s.rx ++ chunk } in
    let x = take_lines (suc (length got.rx)) now got in
    let rest = read_all now chunks (drop_overrun x.0) in then_take x rest

-- The block of the answers: nothing is read once the last line is acknowledged. `open` is false
-- where the last read says that the connection is gone.
unfoldable pub harvest : ℕ → List Bytes → Bool → Stream → Stream × Option Failure
harvest now chunks is_open s =
    if not s.done_sending || ltb s.acked s.sent
    then (let x = read_all now chunks s in then_take x (x.0, if is_open then none else some closed))
    else (s, none)
