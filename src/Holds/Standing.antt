-- ===== src/Holds/Standing.antt =====
-- On the verdict of `holds_read` in src/holds.c: what the directories hold against its flag, and the
-- required holds.
use forgectrl.Prelude.{
  ℕ, zero, suc, ◌+◌, ◌-◌, ◌≡◌, refl, sym, ap, ◌∙◌, inl, inr, Bool, true, false, not, ◌&&◌, ◌||◌,
  List, [], ◌∷◌, Option, none, some, Bytes, same, length, take, ltb, if◌then◌else◌, arith,
  Bool-cases,
}
use forgectrl.Holds.Verdict.{
  Hold, File, Holds, Scan, entries, missing, broken, no_holds, stand, weigh, speaks_for, judge,
  read_file, read_files, too_many, read_holds, spoken, any_same, read_markers, read_required,
  holds_read, not_answering,
}

-- Whether a test holds of one of the first so many.
abbrev pub any_first {ℓ} : {A : Type ℓ} → ℕ → (A → Bool) → List A → Bool
any_first zero p xs = false
any_first (suc n) p [] = false
any_first (suc n) p (x ∷ xs) = p x || any_first n p xs

-- The table of the header, holds.h, on one file: it cannot be read, or is not named after the
-- package that it speaks for; it is older than two seconds, or that far ahead, and required; or it
-- is fresh and raised.
abbrev pub hold_withholds : ℕ → Hold → Bool
hold_withholds now j =
    if ltb (j.at + 2000) now || ltb (now + 2000) j.at then j.required else j.raised

abbrev pub content_withholds : ℕ → Bytes → Option Hold → Bool
content_withholds now stem none = true
content_withholds now stem (some j) = not (speaks_for stem j) || hold_withholds now j

abbrev pub file_withholds : ℕ → File → Bool
file_withholds now f = content_withholds now f.stem f.content

-- One of the first 32 files does, or there are more, or they cannot be listed.
abbrev pub files_withhold : ℕ → Scan File → Bool
files_withhold now missing = false
files_withhold now broken = true
files_withhold now (entries fs) = any_first 32 (file_withholds now) fs || ltb 32 (length fs)

-- A package is spoken for by one of the first 32 files.
abbrev pub is_answered : Scan File → Bytes → Bool
is_answered missing m = false
is_answered broken m = false
is_answered (entries fs) m = any_first 32 (λ (f : File). same (take 71 f.stem) m) fs

-- One of the first 32 required packages is not spoken for, or they cannot be listed.
abbrev pub markers_withhold : Scan File → Scan Bytes → Bool
markers_withhold fs missing = false
markers_withhold fs broken = true
markers_withhold fs (entries ms) = any_first 32 (λ m. not (is_answered fs m)) ms

abbrev pub withholds : ℕ → Scan File → Scan Bytes → Bool
withholds now fs ms = files_withhold now fs || markers_withhold fs ms

or_true : (b : Bool) → (b || true) ≡ true
or_true true = refl
or_true false = refl

or_false : (b : Bool) → (b || false) ≡ b
or_false true = refl
or_false false = refl

or_assoc : (a b c : Bool) → (a || b || c) ≡ (a || (b || c))
or_assoc true b c = refl
or_assoc false b c = refl

stand-standing : (text : Bytes) (h : Holds) → (stand text h).standing ≡ true
unfolding stand
stand-standing text h = refl

weigh-standing :
    (now : ℕ) (j : Hold) (h : Holds)
    → (weigh now j h).standing ≡ (h.standing || hold_withholds now j)
unfolding weigh stand
weigh-standing now j h = ground (arith, or_true h.standing, or_false h.standing)

read_file-standing :
    (now : ℕ) (f : File) (h : Holds)
    → (read_file now f h).standing ≡ (h.standing || file_withholds now f)
unfolding read_file judge
read_file-standing now f h = read_as f.content refl
  where
    read_as :
        (c : Option Hold)
        → f.content ≡ c
        → (read_file now f h).standing ≡ (h.standing || content_withholds now f.stem c)
    read_as none e = rw e (stand-standing _ _ ∙ sym (or_true h.standing))
    read_as (some j) e = elim (Bool-cases (speaks_for f.stem j)) [
      | inl k ↦ rw (e, k) (weigh-standing now j (record h { files = h.files + 1 }))
      | inr k ↦ rw (e, k) (stand-standing _ _ ∙ sym (or_true h.standing))
    ]

-- The loop from file `i` on, of which `n` are still read.
read_files-standing :
    (n now i : ℕ) (fs : List File) (h : Holds)
    → n ≡ 32 - i
    → (read_files now i fs h).standing ≡ (h.standing || any_first n (file_withholds now) fs)
unfolding read_files
read_files-standing zero now i [] h e = sym (or_false h.standing)
read_files-standing (suc n) now i [] h e = sym (or_false h.standing)
read_files-standing zero now i (f ∷ fs) h e =
    let l : ltb i 32 ≡ false = ground arith in
    ap (λ b. (read_files now (suc i) fs (if b then read_file now f h else h)).standing) l
    ∙ read_files-standing zero now (suc i) fs h (omega arith)
read_files-standing (suc n) now i (f ∷ fs) h e =
    let l : ltb i 32 ≡ true = ground arith in
    let rest = read_files-standing n now (suc i) fs (read_file now f h) (omega arith) in
    let this = ap (λ b. b || any_first n (file_withholds now) fs) (read_file-standing now f h) in
    ap (λ b. (read_files now (suc i) fs (if b then read_file now f h else h)).standing) l
    ∙ rest
    ∙ this
    ∙ or_assoc h.standing (file_withholds now f) _

too_many-standing : (n : ℕ) (h : Holds) → (too_many n h).standing ≡ (h.standing || ltb 32 n)
unfolding stand
too_many-standing n h = elim (Bool-cases (ltb 32 n)) [
  | inl e ↦ rw e (sym (or_true h.standing))
  | inr e ↦ rw e (sym (or_false h.standing))
]

read_holds-standing :
    (now : ℕ) (fs : Scan File) → (read_holds now fs).standing ≡ files_withhold now fs
unfolding read_holds
read_holds-standing now missing = refl
read_holds-standing now broken = stand-standing _ _
read_holds-standing now (entries fs) =
    too_many-standing (length fs) (read_files now 0 fs no_holds)
    ∙ ap (λ b. b || ltb 32 (length fs)) (read_files-standing 32 now 0 fs no_holds (omega arith))

any_same-spoken :
    (n : ℕ) (fs : List File) (m : Bytes)
    → any_same m (spoken n (entries fs)) ≡ any_first n (λ (f : File). same (take 71 f.stem) m) fs
unfolding spoken
any_same-spoken zero fs m = refl
any_same-spoken (suc n) [] m = refl
any_same-spoken (suc n) (f ∷ fs) m = ap (λ b. same (take 71 f.stem) m || b) (any_same-spoken n fs m)

is_answered_lem : (fs : Scan File) (m : Bytes) → any_same m (spoken 32 fs) ≡ is_answered fs m
unfolding spoken
is_answered_lem missing m = refl
is_answered_lem broken m = refl
is_answered_lem (entries fs) m = any_same-spoken 32 fs m

-- The loop from marker `i` on, of which `n` are still judged.
read_markers-standing :
    (n i : ℕ) (fs : Scan File) (ms : List Bytes) (h : Holds)
    → n ≡ 32 - i
    → (read_markers i (spoken 32 fs) ms h).standing
      ≡ (h.standing || any_first n (λ m. not (is_answered fs m)) ms)
unfolding read_markers
read_markers-standing zero i fs [] h e = sym (or_false h.standing)
read_markers-standing (suc n) i fs [] h e = sym (or_false h.standing)
read_markers-standing zero i fs (m ∷ ms) h e =
    let l : (not (any_same m (spoken 32 fs)) && ltb i 32) ≡ false = ground arith in
    let stood = stand (not_answering m) (record h { stale_required = h.stale_required + 1 }) in
    ap (λ b. (read_markers (suc i) (spoken 32 fs) ms (if b then stood else h)).standing) l
    ∙ read_markers-standing zero (suc i) fs ms h (omega arith)
read_markers-standing (suc n) i fs (m ∷ ms) h e =
    let l : ltb i 32 ≡ true = ground arith in
    let a = is_answered_lem fs m in
    let b = not (any_same m (spoken 32 fs)) && ltb i 32 in
    let q : b ≡ not (is_answered fs m) = ground (arith, l, a) in
    let stood = stand (not_answering m) (record h { stale_required = h.stale_required + 1 }) in
    let this : (if b then stood else h).standing ≡ (h.standing || not (is_answered fs m)) =
      elim (Bool-cases b) [
        | inl k ↦
            rw k (stand-standing _ _)
            ∙ sym (ap (λ c. h.standing || c) (sym q ∙ k) ∙ or_true h.standing)
        | inr k ↦
            ap (λ c. (if c then stood else h).standing) k
            ∙ sym (ap (λ c. h.standing || c) (sym q ∙ k) ∙ or_false h.standing)
      ] in
    read_markers-standing n (suc i) fs ms (if b then stood else h) (omega arith)
    ∙ ap (λ c. c || any_first n (λ m. not (is_answered fs m)) ms) this
    ∙ or_assoc h.standing (not (is_answered fs m)) _

read_required-standing :
    (fs : Scan File) (ms : Scan Bytes) (h : Holds)
    → (read_required (spoken 32 fs) ms h).standing ≡ (h.standing || markers_withhold fs ms)
unfolding read_required
read_required-standing fs missing h = sym (or_false h.standing)
read_required-standing fs broken h = stand-standing _ _ ∙ sym (or_true h.standing)
read_required-standing fs (entries ms) h = read_markers-standing 32 0 fs ms h (omega arith)

-- The verdict stands exactly where the directories hold something against the fire: among the first
-- 32 hold files one that cannot be read or is not named after its package, one that is required and
-- not of the last two seconds, or one that is of them and raised; more than 32 files; among the
-- first 32 required packages one for which none of the first 32 files is named; or a directory
-- that is there and cannot be listed.
pub holds_read-standing :
    (now : ℕ) (fs : Scan File) (ms : Scan Bytes)
    → (holds_read now fs ms).standing ≡ withholds now fs ms
unfolding holds_read
holds_read-standing now fs ms =
    read_required-standing fs ms (read_holds now fs)
    ∙ ap (λ b. b || markers_withhold fs ms) (read_holds-standing now fs)
