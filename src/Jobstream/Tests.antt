-- ===== src/Jobstream/Tests.antt =====
-- Runs of the sender at concrete inputs.
use forgectrl.Prelude.{
  suc, ◌≡◌, ◌⊎◌, refl, ◌≢◌, true, false, List, [], ◌∷◌, ◌++◌, none, some, Bytes, codes, length, ◌<◌,
  arith,
}
use forgectrl.Jobstream.State.{Sample, start}
use forgectrl.Jobstream.Answers.{
  harvest, next_line, read_all, take_lines, answer, respond, skip_blanks, acknowledge,
}
use forgectrl.Jobstream.State.{witness}
use forgectrl.Jobstream.Sending.{line, finished, send, ask, try_line, is_barrier}
use forgectrl.Jobstream.Ticks.{Cfg, Tick, going, done, tick, run, run_from, judge}
use forgectrl.Jobstream.Honest.{Honest}
use forgectrl.Jobstream.Ending.{Fired, run_done, run_ends}
use forgectrl.Jobstream.Witnessing.{watched}
use forgectrl.Jobstream.Lines.{all_lines, lines_gen, skip_ends, to_newline}
use forgectrl.Jobstream.Pieces.{Cut, at, all_lines_whole}

abbrev quiet : Sample
quiet = record { at = 0; hv = 0; tp = 700; lon = 0 }

abbrev firing : Sample
firing = record { at = 80; hv = 200; tp = 900; lon = 1 }

abbrev plain : Cfg
plain = record { wait_timeout = 0; run_timeout = 60000; end_dark = 0; sample_div = 1 }

abbrev pressed : Cfg
pressed = record { wait_timeout = 600000; run_timeout = 900000; end_dark = 40; sample_div = 1 }

-- Two lines and the program end go out, and the answers come in two reads that split a line.
abbrev first_tick : Tick
first_tick = record {
  now = 0;
  sample = quiet;
  chunks = [];
  is_open = true;
  writes = true;
  gens = line (codes "G1X5") ∷ line (codes "M102") ∷ [];
  abort = false;
}

abbrev acks_tick : Tick
acks_tick = record {
  now = 80;
  sample = firing;
  chunks = codes "o" ∷ (codes "k" ++ (13 ∷ 10 ∷ [])) ∷ [];
  is_open = true;
  writes = true;
  gens = [];
  abort = false;
}

abbrev ends_tick : Tick
ends_tick = record {
  now = 120;
  sample = quiet;
  chunks = (codes "ok" ++ (13 ∷ 10 ∷ [])) ∷ [];
  is_open = true;
  writes = true;
  gens = finished ∷ [];
  abort = false;
}

abbrev three : List Tick
three = first_tick ∷ acks_tick ∷ ends_tick ∷ []

three-run : (run pressed three).1 ≡ done
unfolding run run_from tick harvest read_all take_lines next_line answer respond skip_blanks
    acknowledge send ask try_line is_barrier judge witness
three-run = refl

three-Honest : Honest pressed 0 three start
unfolding run run_from tick harvest read_all take_lines next_line answer respond skip_blanks
    acknowledge send ask try_line is_barrier judge witness
three-Honest = (
  ((omega arith, (omega arith, tt)), omega arith),
  ((tt, omega arith), (((tt, tt), omega arith), tt)),
)

-- The first tick leaves the barrier held until the line before it is acknowledged.
first-sent :
    ((run pressed (first_tick ∷ [])).0.sent ≡ 1)
    × ((run pressed (first_tick ∷ [])).0.held ≡ some (codes "M102"))
unfolding run run_from tick harvest read_all take_lines next_line answer respond skip_blanks
    acknowledge send ask try_line is_barrier judge witness
first-sent = (refl, refl)

run_done_example :
    ((run pressed three).0.done_sending ≡ true)
    × ((run pressed three).0.sent ≡ (run pressed three).0.acked)
    × ((run pressed three).0.inflight ≡ 0)
    × ((pressed.wait_timeout ≡ 0) ⊎ Fired pressed (watched pressed 0 three))
run_done_example = run_done pressed three three-Honest three-run

abbrev late_tick : Tick
late_tick = record first_tick { now = 900001; gens = [] }

run_ends_example : (run pressed ((first_tick ∷ []) ++ (late_tick ∷ []))).1 ≢ going
run_ends_example = run_ends pressed (first_tick ∷ []) late_tick (omega arith) (omega arith)

start-room : (next_line start.rx ≡ none) × (length start.rx < 511)
unfolding next_line
start-room = (refl, omega arith)

abbrev program : Bytes
program = codes "G21" ++ (13 ∷ 10 ∷ 10 ∷ []) ++ codes "M2"

all_lines_whole_example : Cut 4 program (all_lines (suc (length program)) 4 (at program 0))
all_lines_whole_example = all_lines_whole 4 program (omega arith)

program_lines : all_lines 3 254 (at program 0) ≡ (codes "G21" ++ (13 ∷ [])) ∷ codes "M2" ∷ []
unfolding all_lines lines_gen skip_ends to_newline
program_lines = refl
