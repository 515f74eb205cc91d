-- ===== src/Relcheck/Versions.antt =====
-- `parse_version` and `relcheck_is_newer` of src/relcheck.c.
use forgectrl.Prelude.{
  ℕ, ◌+◌, ◌-◌, ◌*◌, Bool, true, false, not, ◌&&◌, ◌||◌, [], ◌∷◌, Option, none, some, Bytes, ◌>>=◌,
  min, leb, ltb, ◌==◌, if◌then◌else◌,
}

-- The three numbers and the suffix, empty when there is none.
pub record Version : Type 0 where
  pub major : ℕ
  pub minor : ℕ
  pub patch : ℕ
  pub suffix : Bytes

abbrev pub is_digit : ℕ → Bool
is_digit c = leb b'0' c && leb c b'9'

-- The digits that `strtol` takes: the number, and what is behind it.
unfoldable pub strtol : ℕ → Bytes → ℕ × Bytes
strtol v [] = (v, [])
strtol v (c ∷ s) =
    let more = strtol (v * 10 + (c - b'0')) s in if is_digit c then more else (v, c ∷ s)

-- A number that a `long` of 32 bits does not hold is LONG_MAX.
abbrev pub saturated : ℕ × Bytes → ℕ × Bytes
saturated (n, r) = (min n 2147483647, r)

-- One number of the loop, where there is a digit.
abbrev pub number_of : Bytes → Option (ℕ × Bytes)
number_of [] = none
number_of (c ∷ s) = if is_digit c then some (saturated (strtol 0 (c ∷ s))) else none

abbrev pub behind_dot : Bytes → Option Bytes
behind_dot [] = none
behind_dot (c ∷ s) = if c == b'.' then some s else none

-- What is behind the third number: nothing, or a suffix.
abbrev pub suffix_of : Bytes → Option Bytes
suffix_of [] = some []
suffix_of (c ∷ s) = if c == b'-' then some s else none

abbrev pub without_v : Bytes → Bytes
without_v [] = []
without_v (c ∷ s) = if c == b'v' || c == b'V' then s else c ∷ s

-- `parse_version`: `none` is its 0.
unfoldable pub parse_version : Bytes → Option Version
parse_version s = do
  (major, r) ← number_of (without_v s)
  r ← behind_dot r
  (minor, r) ← number_of r
  r ← behind_dot r
  (patch, r) ← number_of r
  suffix ← suffix_of r
  some record { major = major; minor = minor; patch = patch; suffix = suffix }

-- `strcmp(a, b) > 0` of texts without a NUL inside
unfoldable pub greater : Bytes → Bytes → Bool
greater [] b = false
greater (x ∷ a) [] = true
greater (x ∷ a) (y ∷ b) = ltb y x || x == y && greater a b

-- A release outranks its prereleases.
abbrev pub outranks : Bytes → Bytes → Bool
outranks [] [] = false
outranks [] (y ∷ b) = true
outranks (x ∷ a) [] = false
outranks (x ∷ a) (y ∷ b) = greater (x ∷ a) (y ∷ b)

unfoldable pub version_newer : Version → Version → Bool
version_newer t c =
    if not (t.major == c.major)
    then ltb c.major t.major
    else if not (t.minor == c.minor)
    then ltb c.minor t.minor
    else if not (t.patch == c.patch)
    then ltb c.patch t.patch
    else outranks t.suffix c.suffix

abbrev pub newer_of : Option Version → Option Version → Bool
newer_of none c = false
newer_of (some t) none = true
newer_of (some t) (some c) = version_newer t c

abbrev pub parsed_if : Option Bytes → Option Version
parsed_if none = none
parsed_if (some s) = parse_version s

-- `relcheck_is_newer`; `none` is no current version.
unfoldable pub relcheck_is_newer : Bytes → Option Bytes → Bool
relcheck_is_newer tag current = newer_of (parse_version tag) (parsed_if current)
