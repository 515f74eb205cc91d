-- ===== src/Jobstream/Carried.antt =====
-- On the answers in `jobstream_run` of src/jobstream.c: what they carry from one state to the next.
use forgectrl.Prelude.{
  ℕ, zero, suc, ◌+◌, ◌≤◌, ◌≡◌, refl, ◌∙◌, inl, inr, Bool, true, false, not, ◌||◌, List, [], ◌∷◌,
  ◌++◌, Option, none, some, Bytes, length, ltb, leb, if◌then◌else◌, arith, Bool-cases, Option-cases,
}
use forgectrl.Jobstream.State.{Stream}
use forgectrl.Jobstream.Answers.{
  Failure, answer, respond, acknowledge, skip_blanks, next_line, then_take, take_lines, read_all,
  harvest, drop_overrun, closed,
}
use forgectrl.Jobstream.Window.{IsValid, acknowledge-IsValid}

-- The counters only grow in the answers, and what was sent stays.
pub record Grows (s t : Stream) : Type 0 where
  pub acks : s.acked ≤ t.acked
  pub same_sent : t.sent ≡ s.sent
  pub same_held : t.held ≡ s.held
  pub same_seen : t.seen ≡ s.seen

Grows-refl : (s : Stream) → Grows s s
Grows-refl s = record { acks = omega arith; same_sent = refl; same_held = refl; same_seen = refl }

Grows-trans : {s t u : Stream} → Grows s t → Grows t u → Grows s u
Grows-trans g h = record {
  acks = omega (arith, g.acks, h.acks);
  same_sent = h.same_sent ∙ g.same_sent;
  same_held = h.same_held ∙ g.same_held;
  same_seen = h.same_seen ∙ g.same_seen;
}

respond-Grows :
    (ok bad : Bool) (now : ℕ) (l : Bytes) (s : Stream) → Grows s (respond ok bad now l s).0
unfolding respond acknowledge
respond-Grows true bad now l s = record {
  acks = omega arith;
  same_sent = refl;
  same_held = refl;
  same_seen = refl;
}
respond-Grows false true now l s = record {
  acks = omega arith;
  same_sent = refl;
  same_held = refl;
  same_seen = refl;
}
respond-Grows false false now l s = record {
  acks = omega arith;
  same_sent = refl;
  same_held = refl;
  same_seen = refl;
}

answer-Grows : (now : ℕ) (l : Bytes) (s : Stream) → Grows s (answer now l s).0
unfolding answer
answer-Grows now l s = respond-Grows _ _ now (skip_blanks l) s

acked-acknowledge : (now : ℕ) (s : Stream) → (acknowledge now s).acked ≡ s.acked + 1
unfolding acknowledge
acked-acknowledge now s = refl

respond-IsValid :
    (ok bad : Bool) (now : ℕ) (l : Bytes) (s : Stream)
    → IsValid s
    → (respond ok bad now l s).0.acked ≤ s.sent
    → IsValid (respond ok bad now l s).0
unfolding respond
respond-IsValid true bad now l s v h =
    acknowledge-IsValid now s v (omega (arith, acked-acknowledge now s))
respond-IsValid false true now l s v h = v
respond-IsValid false false now l s v h = v

answer-IsValid :
    (now : ℕ) (l : Bytes) (s : Stream)
    → IsValid s
    → (answer now l s).0.acked ≤ s.sent
    → IsValid (answer now l s).0
unfolding answer
answer-IsValid now l s v h = respond-IsValid _ _ now (skip_blanks l) s v h

-- A predicate that the answers carry from one state to the next.
pub record Carries (s : Stream) (x : Stream × Option Failure) : Type 0 where
  pub grows : Grows s x.0
  pub keeps : IsValid s → x.0.acked ≤ s.sent → IsValid x.0

Carries-refl : (s : Stream) (f : Option Failure) → Carries s (s, f)
Carries-refl s f = record { grows = Grows-refl s; keeps = λ v h. v }

answer-Carries : (now : ℕ) (l : Bytes) (s : Stream) → Carries s (answer now l s)
answer-Carries now l s = record { grows = answer-Grows now l s; keeps = answer-IsValid now l s }

-- One step and, if it did not fail, the rest.
Carries-then :
    (s : Stream) (x rest : Stream × Option Failure)
    → Carries s x
    → Carries x.0 rest
    → Carries s (then_take x rest)
Carries-then s (t, some f) rest c d = record { grows = c.grows; keeps = c.keeps }
Carries-then s (t, none) rest c d = record {
  grows = Grows-trans c.grows d.grows;
  keeps = λ v h.
      d.keeps (c.keeps v (let g = c.grows in let k = d.grows in omega arith))
        (let g = c.grows in omega arith);
}

-- The text that is read changes no count.
Carries-rx :
    (s : Stream) (r : Bytes) (x : Stream × Option Failure)
    → Carries (record s { rx = r }) x
    → Carries s x
Carries-rx s r x c = record {
  grows = record {
    acks = c.grows.acks;
    same_sent = c.grows.same_sent;
    same_held = c.grows.same_held;
    same_seen = c.grows.same_seen;
  };
  keeps = λ v h.
      c.keeps
        (record {
          order = v.order;
          lines = v.lines;
          bytes = v.bytes;
          exact = v.exact;
          ring = v.ring;
          alone = v.alone;
        })
        h;
}

take_lines-Carries : (rounds now : ℕ) (s : Stream) → Carries s (take_lines rounds now s)
unfolding take_lines
take_lines-Carries zero now s = Carries-refl s none
take_lines-Carries (suc rounds) now s = elim (Option-cases (next_line s.rx)) [
  | inl e ↦ rw (e, take_lines) (Carries-refl s none)
  | inr ((l, behind), e) ↦
      let t = record s { rx = behind } in
      let x = answer now l t in
      rw (e, take_lines)
        (Carries-rx s behind _ (
          Carries-then t x (take_lines rounds now x.0) (answer-Carries now l t)
            (take_lines-Carries rounds now x.0)))
]

drop_overrun-Carries : (s : Stream) → Carries s (drop_overrun s, none)
drop_overrun-Carries s = elim (Bool-cases (leb 511 (length s.rx))) [
  | inl e ↦ rw e (Carries-rx s [] (record s { rx = [] }, none) (Carries-refl _ none))
  | inr e ↦ rw e (Carries-refl s none)
]

read_all-Carries : (now : ℕ) (chunks : List Bytes) (s : Stream) → Carries s (read_all now chunks s)
unfolding read_all
read_all-Carries now [] s = Carries-refl s none
read_all-Carries now (chunk ∷ chunks) s =
    let got = record s { rx = s.rx ++ chunk } in
    let x = take_lines (suc (length got.rx)) now got in
    let d = drop_overrun x.0 in
    Carries-rx s (s.rx ++ chunk) _ (
      Carries-then got x (read_all now chunks d) (take_lines-Carries (suc (length got.rx)) now got)
        (Carries-then x.0 (d, none) (read_all now chunks d) (drop_overrun-Carries x.0)
          (read_all-Carries now chunks d)))

if_Carries :
    (s : Stream) (b : Bool) {x y : Stream × Option Failure}
    → Carries s x
    → Carries s y
    → Carries s (if b then x else y)
if_Carries s true c d = c
if_Carries s false c d = d

pub harvest-Carries :
    (now : ℕ) (chunks : List Bytes) (is_open : Bool) (s : Stream)
    → Carries s (harvest now chunks is_open s)
unfolding harvest
harvest-Carries now chunks is_open s =
    let x = read_all now chunks s in
    if_Carries s (not s.done_sending || ltb s.acked s.sent)
      (Carries-then s x (x.0, if is_open then none else some closed) (read_all-Carries now chunks s)
        (Carries-refl x.0 _))
      (Carries-refl s none)
