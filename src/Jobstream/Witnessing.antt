-- ===== src/Jobstream/Witnessing.antt =====
-- On the samples that `witness` of src/jobstream.c has seen in a run.
use forgectrl.Prelude.{
  ℕ, suc, ◌%◌, ◌≤◌, ◌<◌, ◌≡◌, refl, sym, ap, subst, ◌∙◌, ◌⊎◌, inl, inr, Bool, true, false, ◌||◌,
  List, [], ◌∷◌, ◌++◌, append-nil, append_assoc, Option, none, some, Bytes, length, length-append,
  ltb, ◌==◌, if◌then◌else◌, arith, Bool-cases,
}
use forgectrl.Jobstream.State.{Stream, Witnessed, Sample, witness}
use forgectrl.Jobstream.Answers.{Failure, harvest}
use forgectrl.Jobstream.Carried.{harvest-Carries}
use forgectrl.Jobstream.Sending.{
  Gen, line, finished, pausing, refusing, send, ask, try_line, then_send, send_held, send_held,
}
use forgectrl.Jobstream.Ticks.{
  Cfg, Tick, Outcome, going, done, failed, tick, run_from, watch, judged, then_judge, then_run,
  divisor,
}

abbrev pub AnyLit : List Sample → Type 0
AnyLit [] = ⊥
AnyLit (x ∷ xs) = (30 < x.hv) ⊎ AnyLit xs

abbrev pub AllDark : List Sample → Type 0
AllDark [] = Unit
AllDark (x ∷ xs) = (x.hv ≤ 30) × AllDark xs

-- The samples of the ticks that read the witnesses, from tick `n` on.
abbrev pub sample_at : Cfg → ℕ → Tick → List Sample
sample_at c n k = if n % divisor c == 0 then k.sample ∷ [] else []

abbrev pub watched : Cfg → ℕ → List Tick → List Sample
watched c n [] = []
watched c n (k ∷ ks) = sample_at c n k ++ watched c (suc n) ks

-- The tube was lit in some sample, and has been dark in the last `dark_run` of them.
pub record Saw (xs : List Sample) (w : Witnessed) : Type 0 where
  pub before : List Sample
  pub after : List Sample
  pub split : xs ≡ before ++ after
  pub lit_one : AnyLit before
  pub dark : AllDark after
  pub long : length after ≡ w.dark_run

abbrev pub Sees : List Sample → Witnessed → Type 0
Sees xs w = w.lit ≡ true → Saw xs w

AnyLit-last : (xs : List Sample) (x : Sample) → 30 < x.hv → AnyLit (xs ++ (x ∷ []))
AnyLit-last [] x h = inl h
AnyLit-last (y ∷ xs) x h = inr (AnyLit-last xs x h)

AllDark-last : (xs : List Sample) (x : Sample) → AllDark xs → x.hv ≤ 30 → AllDark (xs ++ (x ∷ []))
AllDark-last [] x v h = (h, tt)
AllDark-last (y ∷ xs) x v h = (v.0, AllDark-last xs x v.1 h)

Sees-witness :
    (xs : List Sample) (x : Sample) (w : Witnessed)
    → Sees xs w
    → Sees (xs ++ (x ∷ [])) (witness x w)
unfolding witness
Sees-witness xs x w v = elim (Bool-cases (ltb 30 x.hv)) [
  | inl e ↦ rw e (λ h. record {
    before = xs ++ (x ∷ []);
    after = [];
    split = sym (append-nil (xs ++ (x ∷ [])));
    lit_one = AnyLit-last xs x (ground arith);
    dark = tt;
    long = refl;
  })
  | inr e ↦ rw e (λ h.
      let s = v h in
      let l : w.lit ≡ true = h in
      record {
        before = s.before;
        after = s.after ++ (x ∷ []);
        split = ap (λ z. z ++ (x ∷ [])) s.split ∙ append_assoc s.before s.after (x ∷ []);
        lit_one = s.lit_one;
        dark = AllDark-last s.after x s.dark (ground arith);
        long = let k = s.long in let n = length-append s.after (x ∷ []) in ground (arith, l, k, n);
      })
]

Sees-watch :
    (c : Cfg) (n : ℕ) (k : Tick) (h : List Sample) (s : Stream)
    → Sees h s.seen
    → Sees (h ++ sample_at c n k) (watch c n k s).seen
Sees-watch c n k h s v = elim (Bool-cases (n % divisor c == 0)) [
  | inl e ↦ rw e (Sees-witness h k.sample s.seen v)
  | inr e ↦ rw e (subst (λ z. Sees z s.seen) (sym (append-nil h)) v)
]

seen-try_line : (writes : Bool) (l : Bytes) (s : Stream) → (try_line writes l s).0.seen ≡ s.seen
unfolding try_line
seen-try_line writes l s = ground arith

then_send-seen :
    (s : Stream) (x : Stream × Bool × Option Failure) (rest : Stream × Option Failure)
    → x.0.seen ≡ s.seen
    → rest.0.seen ≡ s.seen
    → (then_send x rest).0.seen ≡ s.seen
then_send-seen s (t, true, none) rest p q = q
then_send-seen s (t, false, none) rest p q = p
then_send-seen s (t, more, some f) rest p q = p

seen-ask : (writes : Bool) (gs : List Gen) (s : Stream) → (ask writes gs s).0.seen ≡ s.seen
unfolding ask
seen-ask writes [] s = refl
seen-ask writes (refusing ∷ gs) s = refl
seen-ask writes (pausing ∷ gs) s = refl
seen-ask writes (finished ∷ gs) s = refl
seen-ask writes (line l ∷ gs) s =
    let x = try_line writes l s in
    let p = seen-try_line writes l s in
    then_send-seen s x (ask writes gs x.0) p (seen-ask writes gs x.0 ∙ p)

seen-send_held :
    (writes : Bool) (gs : List Gen) (o : Option Bytes) (s : Stream)
    → (send_held writes gs o s).0.seen ≡ s.seen
seen-send_held writes gs none s = seen-ask writes gs s
seen-send_held writes gs (some l) s =
    let x = try_line writes l s in
    let p = seen-try_line writes l s in
    then_send-seen s x (ask writes gs x.0) p (seen-ask writes gs x.0 ∙ p)

seen-send : (writes : Bool) (gs : List Gen) (s : Stream) → (send writes gs s).0.seen ≡ s.seen
unfolding send
seen-send writes gs s = elim (Bool-cases (s.done_sending || s.barrier)) [
  | inl e ↦ rw e refl
  | inr e ↦
      ap (λ b. (if b then (s, none) else send_held writes gs s.held s).0.seen) e
      ∙ seen-send_held writes gs s.held s
]

judged-seen : (c : Cfg) (k : Tick) (x : Stream × Option Failure) → (judged c k x).0 ≡ x.0
judged-seen c k (s, none) = refl
judged-seen c k (s, some f) = refl

then_judge-seen :
    (c : Cfg) (k : Tick) (x : Stream × Option Failure) → (then_judge c k x).0.seen ≡ x.0.seen
then_judge-seen c k (s, none) =
    ap (λ (t : Stream). t.seen) (judged-seen c k (send k.writes k.gens s))
    ∙ seen-send k.writes k.gens s
then_judge-seen c k (s, some f) = refl

seen-tick : (c : Cfg) (n : ℕ) (k : Tick) (s : Stream) → (tick c n k s).0.seen ≡ (watch c n k s).seen
unfolding tick
seen-tick c n k s =
    let t = watch c n k s in
    then_judge-seen c k (harvest k.now k.chunks k.is_open t)
    ∙ (harvest-Carries k.now k.chunks k.is_open t).grows.same_seen

-- What a run has seen is a front part of the samples that its ticks watch.
pub record Front (xs h : List Sample) (w : Witnessed) : Type 0 where
  pub front : List Sample
  pub rest : List Sample
  pub parts : xs ≡ front ++ rest
  pub sees : Sees (h ++ front) w

then_run-Front :
    (xs ys h : List Sample) (x more : Stream × Outcome)
    → Sees (h ++ xs) x.0.seen
    → Front ys (h ++ xs) more.0.seen
    → Front (xs ++ ys) h (then_run x more).0.seen
then_run-Front xs ys h (s, done) more v f = record { front = xs; rest = ys; parts = refl; sees = v }
then_run-Front xs ys h (s, failed r) more v f = record {
  front = xs;
  rest = ys;
  parts = refl;
  sees = v;
}
then_run-Front xs ys h (s, going) more v f = record {
  front = xs ++ f.front;
  rest = f.rest;
  parts = ap (λ z. xs ++ z) f.parts ∙ sym (append_assoc xs f.front f.rest);
  sees = subst (λ z. Sees z more.0.seen) (append_assoc h xs f.front) f.sees;
}

pub run_from-Front :
    (c : Cfg) (n : ℕ) (ks : List Tick) (h : List Sample) (s : Stream)
    → Sees h s.seen
    → Front (watched c n ks) h (run_from c n ks s).0.seen
unfolding run_from
run_from-Front c n [] h s v = record {
  front = [];
  rest = [];
  parts = refl;
  sees = subst (λ z. Sees z s.seen) (sym (append-nil h)) v;
}
run_from-Front c n (k ∷ ks) h s v =
    let x = tick c n k s in
    let w : Sees (h ++ sample_at c n k) x.0.seen =
      subst (λ z. Sees (h ++ sample_at c n k) z) (sym (seen-tick c n k s))
        (Sees-watch c n k h s v) in
    then_run-Front (sample_at c n k) (watched c (suc n) ks) h x (run_from c (suc n) ks x.0) w
      (run_from-Front c (suc n) ks (h ++ sample_at c n k) x.0 w)
