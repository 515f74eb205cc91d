-- ===== src/Prelude/Text.antt =====
-- Texts as lists of bytes, as the C strings of the program are, and their comparison.
use Prim.Native.Nat.{ℕ}
use Prim.Native.Char.{code}
use Prim.Native.String.{String}
use mathlib.Core.Path.{◌≡◌, refl}
use mathlib.Core.Bool.{Bool, true, false, ◌&&◌}
use mathlib.Core.Option.{Option, none, some}
use mathlib.Core.List.{List, [], ◌∷◌, ◌++◌}
use native.Mathlib.Omega.{arith}
use forgectrl.Prelude.Tests.{◌==◌, if◌then◌else◌}

abbrev pub Bytes : Type 0
Bytes = List ℕ

-- The bytes of an ASCII literal.
abbrev pub codes : String → Bytes
codes String.[] = []
codes (String.◌∷◌ c s) = code c ∷ codes s

-- `!strcmp(a, b)`
abbrev pub same : Bytes → Bytes → Bool
same [] [] = true
same [] (y ∷ ys) = false
same (x ∷ xs) [] = false
same (x ∷ xs) (y ∷ ys) = x == y && same xs ys

-- `!strncmp(s, prefix, strlen(prefix))`: the rest of the text behind the prefix.
abbrev pub strip_prefix : Bytes → Bytes → Option Bytes
strip_prefix [] s = some s
strip_prefix (p ∷ ps) [] = none
strip_prefix (p ∷ ps) (c ∷ s) = if p == c then strip_prefix ps s else none

pub same_refl : (a : Bytes) → same a a ≡ true
same_refl [] = refl
same_refl (x ∷ xs) = ground (arith, same_refl xs)

pub same→eq : (a b : Bytes) → same a b ≡ true → a ≡ b
same→eq [] [] h = refl
same→eq [] (y ∷ ys) h = ground arith
same→eq (x ∷ xs) [] h = ground arith
same→eq (x ∷ xs) (y ∷ ys) h = ground (arith, same→eq xs ys)

pub strip_prefix-append : (p s r : Bytes) → strip_prefix p s ≡ some r → s ≡ p ++ r
strip_prefix-append [] s r h = ground arith
strip_prefix-append (p ∷ ps) [] r h = ground arith
strip_prefix-append (p ∷ ps) (c ∷ s) r h = ground (arith, strip_prefix-append ps s r)
