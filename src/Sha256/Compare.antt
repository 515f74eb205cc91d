-- ===== src/Sha256/Compare.antt =====
-- `ct_equal` and `sha256_hex` of src/sha256.c.
use Prim.Native.Nat.{bit_or, bit_xor, digits, differ, max, bit_or-bitwise, bit_xor-bitwise}
use forgectrl.Prelude.{
  ℕ, zero, suc, ◌/◌, ◌%◌, ◌≤◌, ◌≡◌, refl, sym, ap, ap₂, ◌∙◌, ◌↔◌, Bool, true, [], ◌∷◌, Bytes, codes,
  length, get_or, ◌==◌, arith,
}

-- The loop of `ct_equal`: every byte is looked at, whatever the ones before it were.
unfoldable pub differences : ℕ → Bytes → Bytes → ℕ
differences diff [] ys = diff
differences diff (x ∷ xs) [] = diff
differences diff (x ∷ xs) (y ∷ ys) = differences (bit_or diff (bit_xor x y)) xs ys

-- `ct_equal` of two buffers of one length.
unfoldable pub ct_equal : Bytes → Bytes → Bool
ct_equal a b = differences 0 a b == 0

-- `"0123456789abcdef"[d]`
abbrev pub hex_digit : ℕ → ℕ
hex_digit d = get_or (codes "0123456789abcdef") d 0

-- `sha256_hex` of bytes, without the terminator.
unfoldable pub sha256_hex : Bytes → Bytes
sha256_hex [] = []
sha256_hex (b ∷ bs) = hex_digit (b / 16) ∷ hex_digit (b % 16) ∷ sha256_hex bs

differ_zero : (x y : ℕ) → differ x y ≡ 0 → x ≡ y
differ_zero zero y h = sym h
differ_zero (suc x) zero h = h
differ_zero (suc x) (suc y) h = ap suc (differ_zero x y h)

differ_self : (x : ℕ) → differ x x ≡ 0
differ_self zero = refl
differ_self (suc x) = differ_self x

differ-digits : (n a b : ℕ) → a ≤ n → digits (λ c. c) differ n a b ≡ 0 → a ≡ b
differ-digits zero zero b h e = sym e
differ-digits zero (suc a) b h e = absurd (omega arith)
differ-digits (suc n) zero b h e = sym e
differ-digits (suc n) (suc a) b h e =
    let q : suc a / 2 ≡ b / 2 = differ-digits n (suc a / 2) (b / 2) (omega arith) (omega arith) in
    let r : suc a % 2 ≡ b % 2 = differ_zero (suc a % 2) (b % 2) (omega arith) in omega arith

same_digits : (n a : ℕ) → a ≤ n → digits (λ c. c) differ n a a ≡ 0
same_digits zero zero h = refl
same_digits zero (suc a) h = absurd (omega arith)
same_digits (suc n) zero h = refl
same_digits (suc n) (suc a) h =
    omega (arith, same_digits n (suc a / 2) (omega arith), differ_self (suc a % 2))

bit_xor_zero : (a b : ℕ) → bit_xor a b ≡ 0 → a ≡ b
bit_xor_zero a b e = differ-digits a a b (omega arith) (sym (bit_xor-bitwise a b) ∙ e)

bit_xor_self : (a : ℕ) → bit_xor a a ≡ 0
bit_xor_self a = bit_xor-bitwise a a ∙ same_digits a a (omega arith)

or_digits : (n a b : ℕ) → a ≤ n → digits (λ c. c) max n a b ≡ 0 → (a ≡ 0) × (b ≡ 0)
or_digits zero zero b h e = (refl, e)
or_digits zero (suc a) b h e = absurd (omega arith)
or_digits (suc n) zero b h e = (refl, e)
or_digits (suc n) (suc a) b h e =
    let (p, q) = or_digits n (suc a / 2) (b / 2) (omega arith) (omega arith) in absurd (omega arith)

bit_or_zero : (a b : ℕ) → bit_or a b ≡ 0 → (a ≡ 0) × (b ≡ 0)
bit_or_zero a b e = or_digits a a b (omega arith) (sym (bit_or-bitwise a b) ∙ e)

bit_or_zeros : bit_or 0 0 ≡ 0
bit_or_zeros = refl

differences_zero :
    (d : ℕ) (xs ys : Bytes) → length xs ≡ length ys → differences d xs ys ≡ 0 → (d ≡ 0) × (xs ≡ ys)
unfolding differences
differences_zero d [] [] h e = (e, refl)
differences_zero d [] (y ∷ ys) h e = absurd (omega arith)
differences_zero d (x ∷ xs) [] h e = absurd (omega arith)
differences_zero d (x ∷ xs) (y ∷ ys) h e =
    let (p, q) = differences_zero (bit_or d (bit_xor x y)) xs ys (omega arith) e in
    let (r, s) = bit_or_zero d (bit_xor x y) p in (r, ap₂ (λ c cs. c ∷ cs) (bit_xor_zero x y s) q)

differences_self : (xs : Bytes) → differences 0 xs xs ≡ 0
unfolding differences
differences_self [] = refl
differences_self (x ∷ xs) = rw (bit_xor_self x) (differences_self xs)

-- `ct_equal` of two buffers of one length says that they are equal exactly when they are, byte by
-- byte.
pub ct_equal_iff : (a b : Bytes) → length a ≡ length b → (ct_equal a b ≡ true) ↔ (a ≡ b)
unfolding ct_equal
ct_equal_iff a b h =
    ((λ e. (differences_zero 0 a b h (ground arith)).1), (λ e. rw (e, differences_self b) refl))
