-- ===== src/Tokens/Numbers.antt =====
-- The numbers in the lines of the tokens' file: `%ld`, `atol`, and the hash in hex and back.
use forgectrl.Prelude.{
  ℕ, zero, suc, ◌+◌, ◌-◌, ◌*◌, ◌/◌, ◌%◌, ◌≤◌, ◌<◌, ◌^◌, ◌≡◌, refl, ap, ap₂, ◌∙◌, Bool, true, false,
  ◌&&◌, ◌||◌, [], ◌∷◌, ◌++◌, Bytes, length, length-append, Bool-cases, inl, inr, leb, ltb, ◌==◌,
  if◌then◌else◌, arith,
}
use forgectrl.Tokens.Checks.{ℤ, pos, negsuc, is_digit, is_hex, hex_ok}
use forgectrl.Sha256.Compare.{hex_digit, sha256_hex}

-- The digits of a number, at most so many.
unfoldable pub decimal : ℕ → ℕ → Bytes
decimal zero n = []
decimal (suc rounds) n =
    let front = decimal rounds (n / 10) in
    if ltb n 10 then (n + b'0') ∷ [] else front ++ ((n % 10 + b'0') ∷ [])

-- `%ld`; a `long` has at most 20 digits.
unfoldable pub print_ld : ℤ → Bytes
print_ld (pos n) = decimal 20 n
print_ld (negsuc n) = b'-' ∷ decimal 20 (suc n)

abbrev pub is_space : ℕ → Bool
is_space c = c == b' ' || leb 9 c && leb c 13

unfoldable pub digits_from : ℕ → Bytes → ℕ
digits_from v [] = v
digits_from v (c ∷ s) =
    let more = digits_from (v * 10 + (c - b'0')) s in if is_digit c then more else v

abbrev pub negated : ℕ → ℤ
negated zero = pos 0
negated (suc n) = negsuc n

-- `atol` of a number that a `long` holds: blanks, a sign, digits.
unfoldable pub atol : Bytes → ℤ
atol [] = pos 0
atol (c ∷ s) =
    let skipped = atol s in
    if is_space c
    then skipped
    else if c == b'-'
    then negated (digits_from 0 s)
    else if c == b'+'
    then pos (digits_from 0 s)
    else pos (digits_from 0 (c ∷ s))

-- `%2x` of a digit that `hex_ok` lets through
abbrev pub hex_value : ℕ → ℕ
hex_value c = if is_digit c then c - b'0' else c - b'a' + 10

unfoldable pub unhex : Bytes → Bytes
unhex (a ∷ b ∷ s) = (hex_value a * 16 + hex_value b) ∷ unhex s
unhex (a ∷ []) = []
unhex [] = []

abbrev pub AllDigits : Bytes → Type 0
AllDigits [] = Unit
AllDigits (c ∷ s) = (is_digit c ≡ true) × AllDigits s

AllDigits-append : (s r : Bytes) → AllDigits s → AllDigits r → AllDigits (s ++ r)
AllDigits-append [] r p q = q
AllDigits-append (c ∷ s) r p q = (p.0, AllDigits-append s r p.1 q)

pub decimal-AllDigits : (rounds n : ℕ) → AllDigits (decimal rounds n)
unfolding decimal
decimal-AllDigits zero n = tt
decimal-AllDigits (suc rounds) n =
    let p =
      AllDigits-append (decimal rounds (n / 10)) ((n % 10 + b'0') ∷ [])
        (decimal-AllDigits rounds (n / 10)) (ground arith, tt) in
    elim (Bool-cases (ltb n 10)) [ inl e ↦ rw e (ground arith, tt) | inr e ↦ rw e p ]

digits_from-append :
    (v c : ℕ) (s : Bytes)
    → AllDigits s
    → is_digit c ≡ true
    → digits_from v (s ++ (c ∷ [])) ≡ digits_from v s * 10 + (c - b'0')
unfolding digits_from
digits_from-append v c [] p q = rw q refl
digits_from-append v c (d ∷ s) p q = rw p.0 (digits_from-append (v * 10 + (d - b'0')) c s p.1 q)

digits_from-decimal : (rounds n : ℕ) → n < 10 ^ rounds → digits_from 0 (decimal rounds n) ≡ n
unfolding decimal
digits_from-decimal zero n h = unfold digits_from in omega arith
digits_from-decimal (suc rounds) n h = elim (Bool-cases (ltb n 10)) [
  | inl e ↦ rw e (unfold digits_from in ground arith)
  | inr e ↦
      let front = decimal rounds (n / 10) in
      let d : digits_from 0 (front ++ ((n % 10 + b'0') ∷ []))
          ≡ digits_from 0 front * 10 + (n % 10 + b'0' - b'0') =
        digits_from-append 0 (n % 10 + b'0') front (decimal-AllDigits rounds (n / 10))
          (ground arith) in
      let f : digits_from 0 front ≡ n / 10 = digits_from-decimal rounds (n / 10) (omega arith) in
      rw e (omega (arith, d, f))
]

decimal_some : (rounds n : ℕ) → 0 < length (decimal (suc rounds) n)
unfolding decimal
decimal_some rounds n =
    ground (arith, length-append (decimal rounds (n / 10)) ((n % 10 + b'0') ∷ []))

pub length-decimal : (rounds n : ℕ) → length (decimal rounds n) ≤ rounds
unfolding decimal
length-decimal zero n = omega arith
length-decimal (suc rounds) n = ground (
  arith,
  length-decimal rounds (n / 10),
  length-append (decimal rounds (n / 10)) ((n % 10 + b'0') ∷ []),
)

atol_digits : (s : Bytes) → AllDigits s → 0 < length s → atol s ≡ pos (digits_from 0 s)
unfolding atol
atol_digits [] p h = absurd (omega arith)
atol_digits (c ∷ s) p h =
    let d = p.0 in
    let a : is_space c ≡ false = ground arith in
    let b : (c == b'-') ≡ false = ground arith in
    let e : (c == b'+') ≡ false = ground arith in rw (a, b, e) refl

-- A `long` of at most 64 bits.
abbrev pub IsLong : ℤ → Type 0
IsLong (pos n) = n < 2 ^ 63
IsLong (negsuc n) = n < 2 ^ 63

pub atol-print_ld : (z : ℤ) → IsLong z → atol (print_ld z) ≡ z
unfolding print_ld
atol-print_ld (pos n) h =
    atol_digits (decimal 20 n) (decimal-AllDigits 20 n) (decimal_some 19 n)
    ∙ ap pos (digits_from-decimal 20 n (omega arith))
atol-print_ld (negsuc n) h =
    unfold atol in ap negated (digits_from-decimal 20 (suc n) (omega arith))

-- A test that holds of the numbers below a bound, one by one.
abbrev all_below : ℕ → (ℕ → Bool) → Bool
all_below zero p = true
all_below (suc n) p = p n && all_below n p

all_below_holds : (n : ℕ) (p : ℕ → Bool) → all_below n p ≡ true → (d : ℕ) → d < n → p d ≡ true
all_below_holds zero p h d k = absurd (omega arith)
all_below_holds (suc n) p h d k = elim (Bool-cases (d == n)) [
  | inl e ↦ let q : d ≡ n = ground arith in rw q (ground arith)
  | inr e ↦ all_below_holds n p (ground arith) d (ground arith)
]

hex_digit_lem : (d : ℕ) → d < 16 → (is_hex (hex_digit d) ≡ true) × (hex_value (hex_digit d) ≡ d)
hex_digit_lem d h =
    let k =
      all_below_holds 16 (λ d. is_hex (hex_digit d) && hex_value (hex_digit d) == d) refl d h in
    ground (arith, k)

-- The bytes of a hash are bytes.
abbrev pub AllBytes : Bytes → Type 0
AllBytes [] = Unit
AllBytes (b ∷ bs) = (b < 256) × AllBytes bs

pub hex_ok-sha256_hex : (h : Bytes) → AllBytes h → hex_ok (sha256_hex h) ≡ true
unfolding hex_ok sha256_hex
hex_ok-sha256_hex [] v = refl
hex_ok-sha256_hex (b ∷ bs) v =
    let p = hex_digit_lem (b / 16) (omega (arith, v.0)) in
    let q = hex_digit_lem (b % 16) (omega arith) in rw (p.0, q.0) (hex_ok-sha256_hex bs v.1)

pub length-sha256_hex : (h : Bytes) → length (sha256_hex h) ≡ 2 * length h
unfolding sha256_hex
length-sha256_hex [] = refl
length-sha256_hex (b ∷ bs) = omega (arith, length-sha256_hex bs)

pub unhex-sha256_hex : (h : Bytes) → AllBytes h → unhex (sha256_hex h) ≡ h
unfolding unhex sha256_hex
unhex-sha256_hex [] v = refl
unhex-sha256_hex (b ∷ bs) v =
    let p = (hex_digit_lem (b / 16) (omega (arith, v.0))).1 in
    let q = (hex_digit_lem (b % 16) (omega arith)).1 in
    ap₂ (λ x y. x ∷ y) (omega (arith, p, q)) (unhex-sha256_hex bs v.1)
