-- ===== src/Jobstream/Reading.antt =====
-- On the buffer of the answers in `jobstream_run` of src/jobstream.c.
use forgectrl.Prelude.{
  ℕ, zero, suc, ◌<◌, ◌≡◌, refl, ap, inl, inr, Bool, true, false, not, ◌||◌, List, [], ◌∷◌, ◌++◌,
  Option, none, some, Bytes, length, ltb, leb, if◌then◌else◌, arith, Bool-cases, Option-cases,
}
use forgectrl.Jobstream.State.{Stream}
use forgectrl.Jobstream.Answers.{
  Failure, answer, acknowledge, respond, skip_blanks, next_line, take_lines, read_all, harvest,
  drop_overrun, then_take,
}

next_line-shrinks : (r l behind : Bytes) → next_line r ≡ some (l, behind) → length behind < length r
unfolding next_line
next_line-shrinks [] l behind h = absurd (ground arith)
next_line-shrinks (c ∷ r) l behind h = elim (Option-cases (next_line r)) [
  | inl e ↦ ground arith
  | inr ((m, b), e) ↦ let q = next_line-shrinks r m b e in ground arith
]

rx-respond :
    (ok bad : Bool) (now : ℕ) (l : Bytes) (s : Stream) → (respond ok bad now l s).0.rx ≡ s.rx
unfolding respond acknowledge
rx-respond true bad now l s = refl
rx-respond false true now l s = refl
rx-respond false false now l s = refl

rx-answer : (now : ℕ) (l : Bytes) (s : Stream) → (answer now l s).0.rx ≡ s.rx
unfolding answer
rx-answer now l s = rx-respond _ _ now (skip_blanks l) s

-- Without a failure, no whole line is left.
abbrev pub NoLine : Stream × Option Failure → Type 0
NoLine x = (x.1 ≡ none) → next_line x.0.rx ≡ none

then_take-NoLine : (x rest : Stream × Option Failure) → NoLine rest → NoLine (then_take x rest)
then_take-NoLine (s, none) rest r = r
then_take-NoLine (s, some f) rest r = λ h. absurd (ground arith)

take_lines-NoLine :
    (rounds now : ℕ) (s : Stream) → length s.rx < rounds → NoLine (take_lines rounds now s)
unfolding take_lines
take_lines-NoLine zero now s h = absurd (omega arith)
take_lines-NoLine (suc rounds) now s h = elim (Option-cases (next_line s.rx)) [
  | inl e ↦ rw (e, take_lines) (λ f. e)
  | inr ((l, behind), e) ↦
      let t = answer now l (record s { rx = behind }) in
      rw (e, take_lines)
        (then_take-NoLine t (take_lines rounds now t.0) (
          take_lines-NoLine rounds now t.0 (
            omega (
              arith,
              next_line-shrinks s.rx l behind e,
              ap length (rx-answer now l (record s { rx = behind })),
            ))))
]

-- No whole line is left, and what is left has room behind it in the buffer of 512 bytes.
abbrev pub HasRoom : Stream × Option Failure → Type 0
HasRoom x = (x.1 ≡ none) → (next_line x.0.rx ≡ none) × (length x.0.rx < 511)

then_take-HasRoom :
    (x rest : Stream × Option Failure) → (x.1 ≡ none → HasRoom rest) → HasRoom (then_take x rest)
then_take-HasRoom (s, none) rest r = r refl
then_take-HasRoom (s, some f) rest r = λ h. absurd (ground arith)

drop_overrun-HasRoom :
    (s : Stream)
    → next_line s.rx ≡ none
    → (next_line (drop_overrun s).rx ≡ none) × (length (drop_overrun s).rx < 511)
unfolding next_line
drop_overrun-HasRoom s h = elim (Bool-cases (leb 511 (length s.rx))) [
  | inl e ↦ rw e (refl, omega arith)
  | inr e ↦ rw e (h, ground arith)
]

read_all-HasRoom :
    (now : ℕ) (chunks : List Bytes) (s : Stream)
    → (next_line s.rx ≡ none) × (length s.rx < 511)
    → HasRoom (read_all now chunks s)
unfolding read_all
read_all-HasRoom now [] s h = λ f. h
read_all-HasRoom now (chunk ∷ chunks) s h =
    let got = record s { rx = s.rx ++ chunk } in
    let x = take_lines (suc (length got.rx)) now got in
    then_take-HasRoom x (read_all now chunks (drop_overrun x.0)) (λ e.
      read_all-HasRoom now chunks (drop_overrun x.0) (
        drop_overrun-HasRoom x.0 (take_lines-NoLine (suc (length got.rx)) now got (omega arith) e)))

if_HasRoom :
    (b : Bool) (x y : Stream × Option Failure)
    → HasRoom x
    → HasRoom y
    → HasRoom (if b then x else y)
if_HasRoom true x y p q = p
if_HasRoom false x y p q = q

-- When the answers are read and none of them fails the run, no whole line is left unread in the
-- buffer of 512 bytes and the next read finds room in it, if that was so before.
pub harvest-HasRoom :
    (now : ℕ) (chunks : List Bytes) (is_open : Bool) (s : Stream)
    → (next_line s.rx ≡ none) × (length s.rx < 511)
    → HasRoom (harvest now chunks is_open s)
unfolding harvest
harvest-HasRoom now chunks is_open s h =
    if_HasRoom (not s.done_sending || ltb s.acked s.sent) _ _
      (then_take-HasRoom (read_all now chunks s) _ (λ e f. read_all-HasRoom now chunks s h e))
      (λ f. h)
