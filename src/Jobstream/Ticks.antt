-- ===== src/Jobstream/Ticks.antt =====
-- The loop of `jobstream_run` in src/jobstream.c, tick by tick.
use forgectrl.Prelude.{
  ℕ, suc, ◌+◌, ◌*◌, ◌/◌, ◌%◌, Bool, not, ◌&&◌, ◌||◌, List, [], ◌∷◌, Option, none, some, Bytes, ltb,
  leb, ◌==◌, if◌then◌else◌,
}
use forgectrl.Jobstream.State.{Stream, Sample, witness, start}
use forgectrl.Jobstream.Answers.{Failure, harvest, was_aborted, no_discharge, no_press, too_long}
use forgectrl.Jobstream.Sending.{Gen, send}

-- `jobstream_cfg_t`, in milliseconds; 0 is a timeout or a dark stretch that is not asked for.
pub record Cfg : Type 0 where
  pub wait_timeout : ℕ
  pub run_timeout : ℕ
  pub end_dark : ℕ
  pub sample_div : ℕ

-- What one tick meets: the clock, the witnesses, the reads and the socket, the generator, the flag.
pub record Tick : Type 0 where
  pub now : ℕ
  pub sample : Sample
  pub chunks : List Bytes
  pub is_open : Bool
  pub writes : Bool
  pub gens : List Gen
  pub abort : Bool

-- How a tick ends: the loop goes on, `rc` is 0, or it is -1 for a reason.
pub data Outcome : Type 0 where
  going done : Outcome
  failed : Failure → Outcome

abbrev pub divisor : Cfg → ℕ
divisor c = if ltb 1 c.sample_div then c.sample_div else 1

abbrev pub watch : Cfg → ℕ → Tick → Stream → Stream
watch c n k s = if n % divisor c == 0 then record s { seen = witness k.sample s.seen } else s

-- The two timeouts at the foot of a tick.
abbrev pub late : Cfg → Tick → Stream → Outcome
late c k s =
    if ltb 0 c.wait_timeout && not s.seen.lit && ltb c.wait_timeout k.now
    then failed no_press
    else if ltb 0 c.run_timeout && ltb c.run_timeout k.now
    then failed too_long
    else going

-- Dark for as long as the caller asks, in samples.
abbrev pub dark_enough : Cfg → Stream → Bool
dark_enough c s = c.end_dark == 0 || leb (c.end_dark * 25 / (1000 * divisor c)) s.seen.dark_run

-- The judgment behind the last line.
unfoldable pub judge : Cfg → Tick → Stream → Outcome
judge c k s =
    if k.abort
    then failed was_aborted
    else if s.done_sending && leb s.sent s.acked
    then (if c.wait_timeout == 0
        then done
        else if not s.seen.lit
        then (if ltb (s.t_last_ack + 2000) k.now then failed no_discharge else late c k s)
        else if dark_enough c s
        then done
        else late c k s)
    else late c k s

abbrev pub judged : Cfg → Tick → Stream × Option Failure → Stream × Outcome
judged c k (s, none) = (s, judge c k s)
judged c k (s, some f) = (s, failed f)

abbrev pub then_judge : Cfg → Tick → Stream × Option Failure → Stream × Outcome
then_judge c k (s, none) = judged c k (send k.writes k.gens s)
then_judge c k (s, some f) = (s, failed f)

-- One tick: the witnesses, the answers, the next lines, the judgment.
unfoldable pub tick : Cfg → ℕ → Tick → Stream → Stream × Outcome
tick c n k s = then_judge c k (harvest k.now k.chunks k.is_open (watch c n k s))

-- The rest of the run, if the tick did not end it.
abbrev pub then_run : Stream × Outcome → Stream × Outcome → Stream × Outcome
then_run (s, going) rest = rest
then_run (s, done) rest = (s, done)
then_run (s, failed f) rest = (s, failed f)

-- `for (long tickn = 0;; tickn++)`, over the ticks that it makes.
unfoldable pub run_from : Cfg → ℕ → List Tick → Stream → Stream × Outcome
run_from c n [] s = (s, going)
run_from c n (k ∷ ks) s =
    let x = tick c n k s in let rest = run_from c (suc n) ks x.0 in then_run x rest

-- `jobstream_run` behind a connection that was made.
unfoldable pub run : Cfg → List Tick → Stream × Outcome
run c ks = run_from c 0 ks start
