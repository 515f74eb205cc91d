-- ===== src/Jobstream/Ending.antt =====
-- On the ends of `jobstream_run` in src/jobstream.c.
use forgectrl.Prelude.{
  ℕ, zero, suc, ◌*◌, ◌/◌, ◌-◌, ◌≤◌, ◌<◌, ◌≡◌, refl, ◌∙◌, ◌≢◌, ◌⊎◌, inl, inr, ap, false, true, ◌==◌,
  length, Bool-cases, List, [], ◌∷◌, ◌++◌, Option, none, some, arith,
}
use forgectrl.Jobstream.State.{Stream, Sample, start}
use forgectrl.Jobstream.Answers.{Failure, harvest, was_aborted}
use forgectrl.Jobstream.Sending.{send}
use forgectrl.Jobstream.Window.{total}
use forgectrl.Jobstream.Honest.{Honest, stream_run-IsValid}
use forgectrl.Jobstream.Witnessing.{AnyLit, AllDark, watched, Front, run_from-Front}
use forgectrl.Jobstream.Ticks.{
  Cfg, Tick, Outcome, going, done, failed, tick, run_from, run, watch, judged, then_judge, then_run,
  judge, dark_enough, divisor,
}

-- What the flags of a run that succeeds say.
record Succeeded (c : Cfg) (s : Stream) : Type 0 where
  all_given : s.done_sending ≡ true
  all_acked : s.sent ≤ s.acked
  fired : (c.wait_timeout ≡ 0) ⊎ ((s.seen.lit ≡ true) × (dark_enough c s ≡ true))

judge_done : (c : Cfg) (k : Tick) (s : Stream) → judge c k s ≡ done → Succeeded c s
unfolding judge
judge_done c k s h = record {
  all_given = ground arith;
  all_acked = ground arith;
  fired = ground arith;
}

judged_done :
    (c : Cfg) (k : Tick) (x : Stream × Option Failure)
    → (judged c k x).1 ≡ done
    → Succeeded c (judged c k x).0
judged_done c k (s, none) h = judge_done c k s h
judged_done c k (s, some f) h = absurd (ground arith)

then_judge_done :
    (c : Cfg) (k : Tick) (x : Stream × Option Failure)
    → (then_judge c k x).1 ≡ done
    → Succeeded c (then_judge c k x).0
then_judge_done c k (s, none) h = judged_done c k (send k.writes k.gens s) h
then_judge_done c k (s, some f) h = absurd (ground arith)

tick_done :
    (c : Cfg) (n : ℕ) (k : Tick) (s : Stream)
    → (tick c n k s).1 ≡ done
    → Succeeded c (tick c n k s).0
unfolding tick
tick_done c n k s h = then_judge_done c k (harvest k.now k.chunks k.is_open (watch c n k s)) h

then_run_done :
    (c : Cfg) (x rest : Stream × Outcome)
    → (x.1 ≡ done → Succeeded c x.0)
    → (rest.1 ≡ done → Succeeded c rest.0)
    → (then_run x rest).1 ≡ done
    → Succeeded c (then_run x rest).0
then_run_done c (s, going) rest p q h = q h
then_run_done c (s, done) rest p q h = p h
then_run_done c (s, failed f) rest p q h = absurd (ground arith)

run_from_done :
    (c : Cfg) (n : ℕ) (ks : List Tick) (s : Stream)
    → (run_from c n ks s).1 ≡ done
    → Succeeded c (run_from c n ks s).0
unfolding run_from
run_from_done c n [] s h = absurd (ground arith)
run_from_done c n (k ∷ ks) s h =
    let x = tick c n k s in
    then_run_done c x (run_from c (suc n) ks x.0) (tick_done c n k s)
      (run_from_done c (suc n) ks x.0) h

total_none : (lens : List ℕ) (k n : ℕ) → n ≡ 0 → total lens k n ≡ 0
total_none lens k zero h = refl
total_none lens k (suc n) h = absurd (omega arith)

-- Among the samples that were watched: one with the tube lit, then a stretch in which it is dark,
-- as many samples of it as `end_dark` makes at 25 a second, if it is asked for.
pub record Fired (c : Cfg) (xs : List Sample) : Type 0 where
  pub before : List Sample
  pub after : List Sample
  pub rest : List Sample
  pub parts : xs ≡ (before ++ after) ++ rest
  pub lit_one : AnyLit before
  pub dark : AllDark after
  pub long : (c.end_dark ≡ 0) ⊎ (c.end_dark * 25 / (1000 * divisor c) ≤ length after)

saw-Fired :
    (c : Cfg) (xs : List Sample) (s : Stream)
    → Front xs [] s.seen
    → s.seen.lit ≡ true
    → dark_enough c s ≡ true
    → Fired c xs
saw-Fired c xs s f l d =
    let w = f.sees l in
    let n = w.long in
    record {
      before = w.before;
      after = w.after;
      rest = f.rest;
      parts = f.parts ∙ ap (λ z. z ++ f.rest) w.split;
      lit_one = w.lit_one;
      dark = w.dark;
      long = elim (Bool-cases (c.end_dark == 0)) [
        | inl e ↦ inl (ground arith)
        | inr e ↦ inr (ground (arith, d, e, n))
      ];
    }

-- A run that returns 0, with a controller that acknowledges no line that was not sent and lines
-- that fit the generator's buffer, has been given every line, has exactly as many lines
-- acknowledged as it sent and no byte out; and, if it was to wait for a press, its ticks have read
-- the tube lit in some sample, and, if a dark stretch is asked for, dark in that many samples one
-- behind the other after that.
pub run_done :
    (c : Cfg) (ks : List Tick)
    → Honest c 0 ks start
    → (run c ks).1 ≡ done
    → ((run c ks).0.done_sending ≡ true)
      × ((run c ks).0.sent ≡ (run c ks).0.acked)
      × ((run c ks).0.inflight ≡ 0)
      × ((c.wait_timeout ≡ 0) ⊎ Fired c (watched c 0 ks))
unfolding run
run_done c ks h e =
    let s = (run c ks).0 in
    let v = stream_run-IsValid c ks h in
    let d = run_from_done c 0 ks start e in
    let f = run_from-Front c 0 ks [] start (λ (l : false ≡ true). cc (l)) in
    (
      d.all_given,
      omega (arith, v.order, d.all_acked),
      v.exact ∙ total_none s.sent_len s.acked (s.sent - s.acked) (omega (arith, d.all_acked)),
      elim d.fired [ inl n ↦ inl n | inr (l, k) ↦ inr (saw-Fired c (watched c 0 ks) s f l k) ],
    )

judge_late :
    (c : Cfg) (k : Tick) (s : Stream)
    → 0 < c.run_timeout
    → c.run_timeout < k.now
    → judge c k s ≢ going
unfolding judge
judge_late c k s p q h = ground arith

judged_late :
    (c : Cfg) (k : Tick) (x : Stream × Option Failure)
    → 0 < c.run_timeout
    → c.run_timeout < k.now
    → (judged c k x).1 ≢ going
judged_late c k (s, none) p q = judge_late c k s p q
judged_late c k (s, some f) p q = λ h. ground arith

then_judge_late :
    (c : Cfg) (k : Tick) (x : Stream × Option Failure)
    → 0 < c.run_timeout
    → c.run_timeout < k.now
    → (then_judge c k x).1 ≢ going
then_judge_late c k (s, none) p q = judged_late c k (send k.writes k.gens s) p q
then_judge_late c k (s, some f) p q = λ h. ground arith

then_run_going :
    (x rest : Stream × Outcome) → (then_run x rest).1 ≡ going → (x.1 ≡ going) × (rest.1 ≡ going)
then_run_going (s, going) rest h = (refl, h)
then_run_going (s, done) rest h = absurd (ground arith)
then_run_going (s, failed f) rest h = absurd (ground arith)

-- The last tick of a run's that is later than `run_timeout`.
pub run_from_late :
    (c : Cfg) (n : ℕ) (ks : List Tick) (k : Tick) (s : Stream)
    → 0 < c.run_timeout
    → c.run_timeout < k.now
    → (run_from c n (ks ++ (k ∷ [])) s).1 ≢ going
unfolding run_from tick
run_from_late c n [] k s p q h =
    then_judge_late c k (harvest k.now k.chunks k.is_open (watch c n k s)) p q
      ((then_run_going (tick c n k s) ((tick c n k s).0, going) h).0)
run_from_late c n (j ∷ ks) k s p q h =
    let x = tick c n j s in
    run_from_late c (suc n) ks k x.0 p q
      (then_run_going x (run_from c (suc n) (ks ++ (k ∷ [])) x.0) h).1

-- A run with a `run_timeout` has returned by the first tick that is later than it, whatever the
-- controller, the generator and the witnesses give.
pub run_ends :
    (c : Cfg) (ks : List Tick) (k : Tick)
    → 0 < c.run_timeout
    → c.run_timeout < k.now
    → (run c (ks ++ (k ∷ []))).1 ≢ going
unfolding run
run_ends c ks k p q = run_from_late c 0 ks k start p q

judge_aborted :
    (c : Cfg) (k : Tick) (s : Stream) → k.abort ≡ true → judge c k s ≡ failed was_aborted
unfolding judge
judge_aborted c k s h = ground arith

judged_aborted :
    (c : Cfg) (k : Tick) (x : Stream × Option Failure)
    → k.abort ≡ true
    → (f : Failure) × ((judged c k x).1 ≡ failed f)
judged_aborted c k (s, none) h = (was_aborted, judge_aborted c k s h)
judged_aborted c k (s, some f) h = (f, refl)

then_judge_aborted :
    (c : Cfg) (k : Tick) (x : Stream × Option Failure)
    → k.abort ≡ true
    → (f : Failure) × ((then_judge c k x).1 ≡ failed f)
then_judge_aborted c k (s, none) h = judged_aborted c k (send k.writes k.gens s) h
then_judge_aborted c k (s, some f) h = (f, refl)

-- A tick that finds the abort flag set fails, whatever else it meets.
pub tick_aborted :
    (c : Cfg) (n : ℕ) (k : Tick) (s : Stream)
    → k.abort ≡ true
    → (f : Failure) × ((tick c n k s).1 ≡ failed f)
unfolding tick
tick_aborted c n k s h = then_judge_aborted c k (harvest k.now k.chunks k.is_open (watch c n k s)) h
