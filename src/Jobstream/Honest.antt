-- ===== src/Jobstream/Honest.antt =====
-- On whole runs of `jobstream_run` in src/jobstream.c, with what is assumed of the controller.
use forgectrl.Prelude.{
  ℕ, suc, ◌%◌, ◌≤◌, ◌≡◌, refl, sym, subst, inl, inr, List, [], ◌∷◌, Option, none, some, ◌==◌, arith,
  Bool-cases,
}
use forgectrl.Jobstream.State.{Stream, Witnessed, witness, start}
use forgectrl.Jobstream.Answers.{Failure, harvest}
use forgectrl.Jobstream.Sending.{send}
use forgectrl.Jobstream.Ticks.{
  Cfg, Tick, Outcome, going, done, failed, tick, run_from, run, watch, judged, then_judge, divisor,
  then_run,
}
use forgectrl.Jobstream.Window.{IsValid}
use forgectrl.Jobstream.Carried.{harvest-Carries}
use forgectrl.Jobstream.Room.{AllFit, HeldFits, Sends, send-Sends}

seen-Sends : (w : Witnessed) (s : Stream) → Sends s → Sends (record s { seen = w })
seen-Sends w s v = record {
  valid = record {
    order = v.valid.order;
    lines = v.valid.lines;
    bytes = v.valid.bytes;
    exact = v.valid.exact;
    ring = v.valid.ring;
    alone = v.valid.alone;
  };
  fits = v.fits;
}

watch-Sends : (c : Cfg) (n : ℕ) (k : Tick) (s : Stream) → Sends s → Sends (watch c n k s)
watch-Sends c n k s v = elim (Bool-cases (n % divisor c == 0)) [
  | inl e ↦ rw e (seen-Sends (witness k.sample s.seen) s v)
  | inr e ↦ rw e v
]

sent-watch : (c : Cfg) (n : ℕ) (k : Tick) (s : Stream) → (watch c n k s).sent ≡ s.sent
sent-watch c n k s = elim (Bool-cases (n % divisor c == 0)) [
  | inl e ↦ rw e refl
  | inr e ↦ rw e refl
]

-- What the controller answers in a tick: no more lines than were sent.
abbrev pub HonestTick : Cfg → ℕ → Tick → Stream → Type 0
HonestTick c n k s =
    AllFit k.gens × ((harvest k.now k.chunks k.is_open (watch c n k s)).0.acked ≤ s.sent)

abbrev pub Honest : Cfg → ℕ → List Tick → Stream → Type 0
Honest c n [] s = Unit
Honest c n (k ∷ ks) s = HonestTick c n k s × Honest c (suc n) ks (tick c n k s).0

judged-Sends :
    (c : Cfg) (k : Tick) (x : Stream × Option Failure) → Sends x.0 → Sends (judged c k x).0
judged-Sends c k (s, none) v = v
judged-Sends c k (s, some f) v = v

then_judge-Sends :
    (c : Cfg) (k : Tick) (x : Stream × Option Failure)
    → AllFit k.gens
    → Sends x.0
    → Sends (then_judge c k x).0
then_judge-Sends c k (s, some f) g v = v
then_judge-Sends c k (s, none) g v =
    judged-Sends c k (send k.writes k.gens s) (send-Sends k.writes k.gens s g v)

pub tick-Sends :
    (c : Cfg) (n : ℕ) (k : Tick) (s : Stream)
    → HonestTick c n k s
    → Sends s
    → Sends (tick c n k s).0
unfolding tick
tick-Sends c n k s h v =
    let w = watch c n k s in
    let p = watch-Sends c n k s v in
    let a = harvest-Carries k.now k.chunks k.is_open w in
    then_judge-Sends c k (harvest k.now k.chunks k.is_open w) h.0 (record {
      valid = a.keeps p.valid (omega (arith, h.1, sent-watch c n k s));
      fits = subst HeldFits (sym a.grows.same_held) p.fits;
    })

then_run-Sends : (x rest : Stream × Outcome) → Sends x.0 → Sends rest.0 → Sends (then_run x rest).0
then_run-Sends (s, going) rest v r = r
then_run-Sends (s, done) rest v r = v
then_run-Sends (s, failed f) rest v r = v

run_from-Sends :
    (c : Cfg) (n : ℕ) (ks : List Tick) (s : Stream)
    → Honest c n ks s
    → Sends s
    → Sends (run_from c n ks s).0
unfolding run_from
run_from-Sends c n [] s h v = v
run_from-Sends c n (k ∷ ks) s h v =
    let t = tick-Sends c n k s h.0 v in
    then_run-Sends (tick c n k s) (run_from c (suc n) ks (tick c n k s).0) t
      (run_from-Sends c (suc n) ks (tick c n k s).0 h.1 t)

start-Sends : Sends start
start-Sends = record {
  valid = record {
    order = omega arith;
    lines = omega arith;
    bytes = omega arith;
    exact = refl;
    ring = refl;
    alone = λ e. absurd (ground arith);
  };
  fits = tt;
}

pub stream_run-IsValid : (c : Cfg) (ks : List Tick) → Honest c 0 ks start → IsValid (run c ks).0
unfolding run
stream_run-IsValid c ks h = (run_from-Sends c 0 ks start h start-Sends).valid
