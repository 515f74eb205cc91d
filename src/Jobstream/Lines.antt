-- ===== src/Jobstream/Lines.antt =====
-- The generator over a text, `jobstream_lines_gen` of src/jobstream.c.
use forgectrl.Prelude.{
  ℕ, zero, suc, ◌+◌, ◌-◌, ◌||◌, List, [], ◌∷◌, Option, none, some, Bytes, length, take, drop, leb,
  ◌==◌, if◌then◌else◌,
}

-- `jobstream_lines_t`
pub record Lines : Type 0 where
  pub text : Option Bytes
  pub off : ℕ

-- `while (*p == '\n' || *p == '\r') p++`
unfoldable pub skip_ends : Bytes → Bytes
skip_ends [] = []
skip_ends (c ∷ p) = let rest = skip_ends p in if c == 10 || c == 13 then rest else c ∷ p

-- The bytes up to the next newline, or to the end.
unfoldable pub to_newline : Bytes → ℕ
to_newline [] = 0
to_newline (c ∷ p) = let rest = to_newline p in if c == 10 then 0 else suc rest

-- What of them the buffer takes: `if (n >= len) n = len - 1`.
abbrev pub count : ℕ → ℕ → ℕ
count len n = if leb len n then len - 1 else n

-- `jobstream_lines_gen` at the text that is left, with a buffer of `len` bytes: 0 is `none`.
abbrev pub lines_at : ℕ → Bytes → Bytes → Lines → Option Bytes × Lines
lines_at len t [] l = (none, l)
lines_at len t (c ∷ p) l =
    let n = to_newline (c ∷ p) in
    let m = count len n in (some (take m (c ∷ p)), record l { off = length t - length (c ∷ p) + m })

abbrev pub lines_of : ℕ → Option Bytes → Lines → Option Bytes × Lines
lines_of len none l = (none, l)
lines_of len (some t) l = lines_at len t (skip_ends (drop l.off t)) l

unfoldable pub lines_gen : ℕ → Lines → Option Bytes × Lines
lines_gen len l = lines_of len l.text l

-- What a caller gets that asks until there is nothing more, in at most so many calls.
abbrev pub then_more : Option Bytes → List Bytes → List Bytes
then_more none ls = []
then_more (some x) ls = x ∷ ls

unfoldable pub all_lines : ℕ → ℕ → Lines → List Bytes
all_lines zero len l = []
all_lines (suc calls) len l =
    let x = lines_gen len l in let rest = all_lines calls len x.1 in then_more x.0 rest
