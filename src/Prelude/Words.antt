-- ===== src/Prelude/Words.antt =====
-- Numbers as big-endian bytes.
use Prim.Native.Nat.{ℕ, zero, suc, ◌+◌, ◌*◌, ◌/◌, ◌%◌, ◌<◌, ◌^◌}
use mathlib.Core.Path.{◌≡◌, refl}
use mathlib.Core.List.{[], ◌∷◌, ◌++◌}
use native.Mathlib.Omega.{arith}
use forgectrl.Prelude.Text.{Bytes}
use forgectrl.Prelude.Lists.{length, length-append}

-- The lowest bytes of a number, so many, the highest first.
unfoldable pub big_endian : ℕ → ℕ → Bytes
big_endian zero x = []
big_endian (suc n) x = big_endian n (x / 256) ++ (x % 256 ∷ [])

pub length-big_endian : (n x : ℕ) → length (big_endian n x) ≡ n
unfolding big_endian
length-big_endian zero x = refl
length-big_endian (suc n) x =
    omega
      (arith, length-append (big_endian n (x / 256)) (x % 256 ∷ []), length-big_endian n (x / 256))

-- The number that bytes stand for.
unfoldable pub number_from : ℕ → Bytes → ℕ
number_from acc [] = acc
number_from acc (b ∷ bs) = number_from (acc * 256 + b) bs

pub number-big_endian : (x : ℕ) → x < 2 ^ 32 → number_from 0 (big_endian 4 x) ≡ x
unfolding number_from big_endian
number-big_endian x h = omega arith
