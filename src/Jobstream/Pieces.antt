-- ===== src/Jobstream/Pieces.antt =====
-- On the lines that `jobstream_lines_gen` of src/jobstream.c makes of a text.
use forgectrl.Prelude.{
  ℕ, zero, suc, ◌+◌, ◌-◌, ◌≤◌, ◌<◌, ◌≡◌, refl, sym, ap, ◌∙◌, ◌≢◌, ◌⊎◌, inl, inr, true, false, ◌||◌,
  List, [], ◌∷◌, ◌++◌, some, Bytes, length, take, drop, leb, append-nil, subst, length-take,
  length-drop, take-append-drop, ◌==◌, arith, Bool-cases,
}
use forgectrl.Jobstream.Lines.{Lines, skip_ends, to_newline, count, lines_gen, all_lines}

abbrev empty : Bytes
empty = []

drop_nil : (k : ℕ) → drop k empty ≡ empty
drop_nil zero = refl
drop_nil (suc k) = refl

drop-drop : (a b : ℕ) (t : Bytes) → drop b (drop a t) ≡ drop (a + b) t
drop-drop zero b t = let e : b ≡ 0 + b = omega arith in ap (λ k. drop k t) e
drop-drop (suc a) b [] = drop_nil b ∙ sym (drop_nil (suc a + b))
drop-drop (suc a) b (c ∷ t) =
    let e : suc (a + b) ≡ suc a + b = omega arith in drop-drop a b t ∙ ap (λ k. drop k (c ∷ t)) e

length-skip_ends : (p : Bytes) → length (skip_ends p) ≤ length p
unfolding skip_ends
length-skip_ends [] = omega arith
length-skip_ends (c ∷ p) = ground (arith, length-skip_ends p)

drop-skip_ends : (p : Bytes) → drop (length p - length (skip_ends p)) p ≡ skip_ends p
unfolding skip_ends
drop-skip_ends [] = refl
drop-skip_ends (c ∷ p) = elim (Bool-cases (c == 10 || c == 13)) [
  | inl e ↦
      let q : suc (length p) - length (skip_ends p) ≡ suc (length p - length (skip_ends p)) =
        omega (arith, length-skip_ends p) in
      rw (e, q) (drop-skip_ends p)
  | inr e ↦ let q : suc (length p) - suc (length p) ≡ 0 = omega arith in rw (e, q) refl
]

-- The text behind a line that was given.
drop_off :
    (t p : Bytes) (o m : ℕ)
    → o ≤ length t
    → skip_ends (drop o t) ≡ p
    → drop (length t - length p + m) t ≡ drop m p
drop_off t p o m h e =
    let d = drop o t in
    let n = length d - length (skip_ends d) in
    let a : length t - length p ≡ o + n =
      omega (arith, ap length e, length-skip_ends d, length-drop o t) in
    ap (λ k. drop (k + m) t) a
    ∙ sym (drop-drop (o + n) m t)
    ∙ ap (drop m) (sym (drop-drop o n t) ∙ drop-skip_ends d ∙ e)

-- A line as a caller wants it: not empty, without a newline, and with its terminator in the buffer.
abbrev pub NoNewline : Bytes → Type 0
NoNewline [] = Unit
NoNewline (c ∷ p) = (c ≢ 10) × NoNewline p

pub record IsLine (len : ℕ) (x : Bytes) : Type 0 where
  pub some_ink : 0 < length x
  pub short : length x < len
  pub no_newline : NoNewline x

NoNewline-take : (m : ℕ) (p : Bytes) → m ≤ to_newline p → NoNewline (take m p)
unfolding to_newline
NoNewline-take zero p h = tt
NoNewline-take (suc m) [] h = tt
NoNewline-take (suc m) (c ∷ p) h = elim (Bool-cases (c == 10)) [
  | inl e ↦ absurd (ground arith)
  | inr e ↦ (ground arith, NoNewline-take m p (ground arith))
]

to_newline-length : (p : Bytes) → to_newline p ≤ length p
unfolding to_newline
to_newline-length [] = omega arith
to_newline-length (c ∷ p) = ground (arith, to_newline-length p)

-- What is left begins with a byte that ends no line.
skip_ends_head : (q p : Bytes) (c : ℕ) → skip_ends q ≡ c ∷ p → (c == 10 || c == 13) ≡ false
unfolding skip_ends
skip_ends_head [] p c h = absurd (ground arith)
skip_ends_head (d ∷ q) p c h = elim (Bool-cases (d == 10 || d == 13)) [
  | inl e ↦ skip_ends_head q p c (ground arith)
  | inr e ↦ ground arith
]

to_newline_pos : (c : ℕ) (p : Bytes) → (c == 10 || c == 13) ≡ false → 0 < to_newline (c ∷ p)
unfolding to_newline
to_newline_pos c p h = ground arith

-- Bytes that end lines: newlines and carriage returns.
abbrev pub AllEnds : Bytes → Type 0
AllEnds [] = Unit
AllEnds (c ∷ p) = ((c == 10 || c == 13) ≡ true) × AllEnds p

-- What stands where a line ends: the text's end, or a newline.
abbrev pub AtEnd : Bytes → Type 0
AtEnd [] = Unit
AtEnd (c ∷ p) = c ≡ 10

-- The first byte of a line is no carriage return either.
abbrev pub StartsLine : Bytes → Type 0
StartsLine [] = ⊥
StartsLine (c ∷ p) = (c == 10 || c == 13) ≡ false

-- A text cut into lines for a buffer of `len` bytes: line ends, then as much of a line as there is
-- or the buffer takes, and so on; at last nothing but line ends.
pub data Cut (len : ℕ) : Bytes → List Bytes → Type 0 where
  finished : (t : Bytes) → AllEnds t → Cut len t []
  piece :
      (t ends x rest : Bytes) (xs : List Bytes)
      → t ≡ ends ++ (x ++ rest)
      → AllEnds ends
      → StartsLine x
      → IsLine len x
      → ((length x + 1 ≡ len) ⊎ AtEnd rest)
      → Cut len rest xs
      → Cut len t (x ∷ xs)

-- The line ends in front of a text.
record Skipped (t : Bytes) : Type 0 where
  ends : Bytes
  split : t ≡ ends ++ skip_ends t
  all_ends : AllEnds ends

skip_ends-Skipped : (t : Bytes) → Skipped t
unfolding skip_ends
skip_ends-Skipped [] = record { ends = []; split = refl; all_ends = tt }
skip_ends-Skipped (c ∷ t) = elim (Bool-cases (c == 10 || c == 13)) [
  | inl e ↦
      let r = skip_ends-Skipped t in
      record {
        ends = c ∷ r.ends;
        split = rw e (ap (λ z. c ∷ z) r.split);
        all_ends = (e, r.all_ends);
      }
  | inr e ↦ record { ends = []; split = rw e refl; all_ends = tt }
]

drop-to_newline : (p : Bytes) → AtEnd (drop (to_newline p) p)
unfolding to_newline
drop-to_newline [] = tt
drop-to_newline (c ∷ p) = elim (Bool-cases (c == 10)) [
  | inl e ↦ rw e (ground arith)
  | inr e ↦ rw e (drop-to_newline p)
]

-- One call: a line, and the text behind it at the new offset.
record Gives (len : ℕ) (t : Bytes) (o : ℕ) (l : Lines) (x : Bytes) (l' : Lines) : Type 0 where
  line_ok : IsLine len x
  same_text : l'.text ≡ some t
  within : l'.off ≤ length t
  further : o < l'.off
  starts : StartsLine x
  full : (length x + 1 ≡ len) ⊎ AtEnd (drop l'.off t)
  kept : skip_ends (drop o t) ≡ x ++ drop l'.off t

line_starts :
    (m c : ℕ) (p : Bytes) → 0 < m → (c == 10 || c == 13) ≡ false → StartsLine (take m (c ∷ p))
line_starts zero c p h e = absurd (omega arith)
line_starts (suc m) c p h e = e

le_cases : (a b : ℕ) → (a ≤ b) ⊎ (b < a)
le_cases a b = elim (Bool-cases (leb a b)) [
  | inl e ↦ inl (ground arith)
  | inr e ↦ inr (ground arith)
]

lines_at-Gives :
    (len : ℕ) (t : Bytes) (o : ℕ) (l : Lines) (c : ℕ) (p : Bytes)
    → 2 ≤ len
    → o ≤ length t
    → l.text ≡ some t
    → skip_ends (drop o t) ≡ c ∷ p
    → Gives len t o l
        (take (count len (to_newline (c ∷ p))) (c ∷ p))
        (record l { off = length t - length (c ∷ p) + count len (to_newline (c ∷ p)) })
lines_at-Gives len t o l c p w h e q =
    let n = to_newline (c ∷ p) in
    let m = count len n in
    let x = take m (c ∷ p) in
    let pos : 0 < n = to_newline_pos c p (skip_ends_head (drop o t) p c q) in
    let m_le : m ≤ n = ground arith in
    let m_pos : 0 < m = ground arith in
    let m_lt : m < len = ground arith in
    let n_le : n ≤ length (c ∷ p) = to_newline-length (c ∷ p) in
    let p_le : length (c ∷ p) ≤ length t - o =
      omega (arith, ap length q, length-skip_ends (drop o t), length-drop o t) in
    record {
      line_ok = record {
        some_ink = omega (arith, length-take m (c ∷ p));
        short = omega (arith, length-take m (c ∷ p));
        no_newline = NoNewline-take m (c ∷ p) m_le;
      };
      same_text = e;
      within = omega arith;
      further = omega arith;
      starts = line_starts m c p m_pos (skip_ends_head (drop o t) p c q);
      full = elim (le_cases len n) [
        | inl big ↦
            inl (let k : m ≡ len - 1 = ground arith in omega (arith, k, length-take m (c ∷ p)))
        | inr small ↦ inr (
            let k : m ≡ n = ground arith in
            subst AtEnd (ap (λ j. drop j (c ∷ p)) (sym k) ∙ sym (drop_off t (c ∷ p) o m h q))
              (drop-to_newline (c ∷ p)))
      ];
      kept =
          q
          ∙ sym (take-append-drop m (c ∷ p))
          ∙ ap (λ r. x ++ r) (sym (drop_off t (c ∷ p) o m h q));
    }

-- The generator at an offset of a text.
abbrev pub at : Bytes → ℕ → Lines
at t o = record { text = some t; off = o }

Bytes-cases : (b : Bytes) → (b ≡ []) ⊎ ((c : ℕ) × (p : Bytes) × (b ≡ c ∷ p))
Bytes-cases [] = inl refl
Bytes-cases (c ∷ p) = inr (c, p, refl)

all_lines-Cut :
    (calls len : ℕ) (t : Bytes) (o : ℕ)
    → 2 ≤ len
    → o ≤ length t
    → length t - o < calls
    → Cut len (drop o t) (all_lines calls len (at t o))
unfolding all_lines lines_gen
all_lines-Cut zero len t o w h f = absurd (omega arith)
all_lines-Cut (suc calls) len t o w h f =
    let r = skip_ends-Skipped (drop o t) in
    elim (Bytes-cases (skip_ends (drop o t))) [
      | inl e ↦
          let s : drop o t ≡ r.ends = r.split ∙ ap (λ z. r.ends ++ z) e ∙ append-nil r.ends in
          rw e (finished (drop o t) (subst AllEnds (sym s) r.all_ends))
      | inr (c, p, e) ↦
          let m = count len (to_newline (c ∷ p)) in
          let o' = length t - length (c ∷ p) + m in
          let g = lines_at-Gives len t o (at t o) c p w h refl e in
          let rest =
            all_lines-Cut calls len t o' w g.within
              (let k = g.further in let n = g.within in omega arith) in
          rw e (
            piece (drop o t) r.ends (take m (c ∷ p)) (drop o' t) (all_lines calls len (at t o'))
              (r.split ∙ ap (λ z. r.ends ++ z) g.kept) r.all_ends g.starts g.line_ok g.full rest)
    ]

-- With a buffer of at least two bytes, one call of `jobstream_lines_gen` more than the text has
-- bytes are enough to get all of it. The text is cut as it should be: it is the lines, one behind
-- the other, with nothing but newlines and carriage returns in front of each and behind the last; a
-- line is not empty, does not begin with one of these, fits the buffer with its terminator and has
-- no newline, and it stops only before a newline, at the end of the text, or where the buffer is
-- full. So the carriage return of a CRLF stays at the end of its line.
pub all_lines_whole :
    (len : ℕ) (t : Bytes) → 2 ≤ len → Cut len t (all_lines (suc (length t)) len (at t 0))
all_lines_whole len t w = all_lines-Cut (suc (length t)) len t 0 w (omega arith) (omega arith)
