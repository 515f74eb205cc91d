-- ===== src/Mp4/Nals.antt =====
-- `each_nal` of src/mp4mux.c: the NALs of an Annex B unit. An offset into the unit is the rest of
-- it.
use forgectrl.Prelude.{
  ℕ, zero, suc, Bool, true, false, ◌&&◌, ◌||◌, List, [], ◌∷◌, Bytes, length, ◌==◌, if◌then◌else◌,
}

abbrev pub is_some_rest : Bytes → Bool
is_some_rest [] = false
is_some_rest (c ∷ r) = true

-- A start code in front of the inner loop, which looks for the end of a NAL.
abbrev pub ends_nal : ℕ → ℕ → ℕ → ℕ → Bool
ends_nal a b c d = a == 0 && b == 0 && (c == 1 || c == 0 && d == 1)

-- A start code in the outer loop: one of four bytes has something behind it.
abbrev pub starts_nal : ℕ → ℕ → ℕ → ℕ → Bytes → Bool
starts_nal a b c d r = a == 0 && b == 0 && (c == 1 || c == 0 && is_some_rest r && d == 1)

-- `while (j + 3 < len && ...) j++`, and the end: the NAL, and what is behind it.
unfoldable pub nal_end : Bytes → Bytes × Bytes
nal_end (a ∷ b ∷ c ∷ d ∷ r) =
    let (nal, behind) = nal_end (b ∷ c ∷ d ∷ r) in
    if ends_nal a b c d then ([], a ∷ b ∷ c ∷ d ∷ r) else (a ∷ nal, behind)
nal_end (a ∷ b ∷ c ∷ []) = (a ∷ b ∷ c ∷ [], [])
nal_end (a ∷ b ∷ []) = (a ∷ b ∷ [], [])
nal_end (a ∷ []) = (a ∷ [], [])
nal_end [] = ([], [])

-- `if (end > start) cb(...)`
abbrev pub call_with : Bytes → List Bytes → List Bytes
call_with [] rest = rest
call_with (c ∷ nal) rest = (c ∷ nal) ∷ rest

-- The calls of `each_nal`, for at most as many rounds as there are bytes.
unfoldable pub each_nal : ℕ → Bytes → List Bytes
each_nal zero s = []
each_nal (suc rounds) (a ∷ b ∷ c ∷ d ∷ r) =
    let x = nal_end (if c == 1 then d ∷ r else r) in
    let found = call_with x.0 (each_nal rounds x.1) in
    let on = each_nal rounds (b ∷ c ∷ d ∷ r) in if starts_nal a b c d r then found else on
each_nal (suc rounds) _ = []

abbrev pub nals : Bytes → List Bytes
nals au = each_nal (length au) au
