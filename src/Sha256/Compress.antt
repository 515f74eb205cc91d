-- ===== src/Sha256/Compress.antt =====
-- The compression of one block, `compress` of src/sha256.c, on 32-bit words.
use Prim.Native.Nat.{bit_and, bit_xor}
use forgectrl.Prelude.{
  ℕ, zero, suc, ◌+◌, ◌-◌, ◌*◌, ◌/◌, ◌%◌, ◌^◌, List, [], ◌∷◌, ◌++◌, Bytes, get_or,
}

-- The table `K`.
abbrev pub round_constants : List ℕ
round_constants =
    1116352408 ∷ 1899447441 ∷ 3049323471 ∷ 3921009573 ∷ 961987163 ∷ 1508970993 ∷ 2453635748
    ∷ 2870763221 ∷ 3624381080 ∷ 310598401 ∷ 607225278 ∷ 1426881987 ∷ 1925078388 ∷ 2162078206
    ∷ 2614888103 ∷ 3248222580 ∷ 3835390401 ∷ 4022224774 ∷ 264347078 ∷ 604807628 ∷ 770255983
    ∷ 1249150122 ∷ 1555081692 ∷ 1996064986 ∷ 2554220882 ∷ 2821834349 ∷ 2952996808 ∷ 3210313671
    ∷ 3336571891 ∷ 3584528711 ∷ 113926993 ∷ 338241895 ∷ 666307205 ∷ 773529912 ∷ 1294757372
    ∷ 1396182291 ∷ 1695183700 ∷ 1986661051 ∷ 2177026350 ∷ 2456956037 ∷ 2730485921 ∷ 2820302411
    ∷ 3259730800 ∷ 3345764771 ∷ 3516065817 ∷ 3600352804 ∷ 4094571909 ∷ 275423344 ∷ 430227734
    ∷ 506948616 ∷ 659060556 ∷ 883997877 ∷ 958139571 ∷ 1322822218 ∷ 1537002063 ∷ 1747873779
    ∷ 1955562222 ∷ 2024104815 ∷ 2227730452 ∷ 2361852424 ∷ 2428436474 ∷ 2756734187 ∷ 3204031479
    ∷ 3329325298 ∷ []

abbrev pub word : ℕ → ℕ
word x = x % 2 ^ 32

-- `ROTR(x, n)`
unfoldable pub rotr : ℕ → ℕ → ℕ
rotr x n = x / 2 ^ n + word (x * 2 ^ (32 - n))

abbrev pub xor3 : ℕ → ℕ → ℕ → ℕ
xor3 a b c = bit_xor (bit_xor a b) c

-- `~e`
abbrev pub complement : ℕ → ℕ
complement e = 2 ^ 32 - 1 - e

-- The four bytes of a word, the highest first.
unfoldable pub load : Bytes → ℕ → ℕ
load p i =
    get_or p (i * 4) 0 * 2 ^ 24
    + get_or p (i * 4 + 1) 0 * 2 ^ 16
    + get_or p (i * 4 + 2) 0 * 2 ^ 8
    + get_or p (i * 4 + 3) 0

unfoldable pub load_from : Bytes → ℕ → ℕ → List ℕ
load_from p zero i = []
load_from p (suc n) i = load p i ∷ load_from p n (i + 1)

-- `w[i]` from the words before it.
unfoldable pub next_word : List ℕ → ℕ → ℕ
next_word w i =
    let a = get_or w (i - 15) 0 in
    let b = get_or w (i - 2) 0 in
    let s0 = xor3 (rotr a 7) (rotr a 18) (a / 2 ^ 3) in
    let s1 = xor3 (rotr b 17) (rotr b 19) (b / 2 ^ 10) in
    word (get_or w (i - 16) 0 + s0 + get_or w (i - 7) 0 + s1)

unfoldable pub extend : ℕ → ℕ → List ℕ → List ℕ
extend zero i w = w
extend (suc n) i w = extend n (i + 1) (w ++ (next_word w i ∷ []))

-- The eight words `a` to `hh`.
pub record Words : Type 0 where
  pub a : ℕ
  pub b : ℕ
  pub c : ℕ
  pub d : ℕ
  pub e : ℕ
  pub f : ℕ
  pub g : ℕ
  pub hh : ℕ

-- One round with the constant and the word of the schedule.
unfoldable pub round : ℕ → ℕ → Words → Words
round k w s =
    let s1 = xor3 (rotr s.e 6) (rotr s.e 11) (rotr s.e 25) in
    let ch = bit_xor (bit_and s.e s.f) (bit_and (complement s.e) s.g) in
    let t1 = word (s.hh + s1 + ch + k + w) in
    let s0 = xor3 (rotr s.a 2) (rotr s.a 13) (rotr s.a 22) in
    let maj = xor3 (bit_and s.a s.b) (bit_and s.a s.c) (bit_and s.b s.c) in
    let t2 = word (s0 + maj) in
    record {
      a = word (t1 + t2);
      b = s.a;
      c = s.b;
      d = s.c;
      e = word (s.d + t1);
      f = s.e;
      g = s.f;
      hh = s.g;
    }

unfoldable pub rounds : List ℕ → List ℕ → Words → Words
rounds [] ws s = s
rounds (k ∷ ks) [] s = s
rounds (k ∷ ks) (w ∷ ws) s = rounds ks ws (round k w s)

-- `h[0] += a` and the rest.
abbrev pub add_words : Words → Words → Words
add_words s t = record {
  a = word (s.a + t.a);
  b = word (s.b + t.b);
  c = word (s.c + t.c);
  d = word (s.d + t.d);
  e = word (s.e + t.e);
  f = word (s.f + t.f);
  g = word (s.g + t.g);
  hh = word (s.hh + t.hh);
}

unfoldable pub compress : Words → Bytes → Words
compress h p = add_words h (rounds round_constants (extend 48 16 (load_from p 16 0)) h)
