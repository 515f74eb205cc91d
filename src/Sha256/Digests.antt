-- ===== src/Sha256/Digests.antt =====
-- On `sha256` of src/sha256.c against the padding and the blocks of FIPS 180-4, and on
-- `hmac_sha256`.
use forgectrl.Prelude.{
  big_endian, length-big_endian, ℕ, zero, suc, ◌+◌, ◌-◌, ◌*◌, ◌/◌, ◌%◌, ◌^◌, ◌<◌, ◌≡◌, refl, sym,
  ap, ap₂, ◌∙◌, true, false, [], ◌∷◌, ◌++◌, Bytes, length, length-append, length-take, length-drop,
  length-replicate, replicate, take, drop, ◌==◌, arith,
}
use forgectrl.Sha256.Compress.{Words, compress}
use forgectrl.Sha256.Stream.{
  Ctx, initial, start, settle, update, pad_zeros, out_bytes, final, sha256,
}
use forgectrl.Sha256.Hmac.{hmac_sha256, keyed}
use forgectrl.Sha256.Chunks.{
  update-append, absorb, absorb-take, absorb-append, absorb-fill, absorb-bits, bits-absorb,
  update-absorb, update-fill,
}

-- The padding that the standard asks for: a one bit, zeros, and the count of bits in eight bytes.
abbrev pub padding : ℕ → Bytes
padding n = (128 ∷ []) ++ (replicate ((119 - n % 64) % 64) 0 ++ big_endian 8 (n * 8 % 2 ^ 64))

abbrev pub padded : Bytes → Bytes
padded m = m ++ padding (length m)

-- The blocks one behind the other.
abbrev pub hash_blocks : ℕ → Words → Bytes → Words
hash_blocks zero h p = h
hash_blocks (suc n) h p = hash_blocks n (compress h (take 64 p)) (drop 64 p)

abbrev with_bits : ℕ → Ctx → Ctx
with_bits n c = record c { bits = n }

fill-settle :
    (c : Ctx) (b : ℕ)
    → length c.block < 64
    → length (settle (record c { block = c.block ++ (b ∷ []) })).block ≡ (length c.block + 1) % 64
unfolding settle
fill-settle c b h = ground (arith, length-append c.block (b ∷ []))

fill-absorb :
    (c : Ctx) (p : Bytes)
    → length c.block < 64
    → length (absorb c p).block ≡ (length c.block + length p) % 64
fill-absorb c [] h = omega arith
fill-absorb c (b ∷ p) h =
    let d = settle (record c { block = c.block ++ (b ∷ []) }) in
    let e = fill-settle c b h in omega (arith, e, fill-absorb d p (omega (arith, e)))

-- One zero more leaves one round of padding fewer.
pad_step :
    (c : Ctx) (k : ℕ)
    → length c.block < 64
    → (120 - length c.block) % 64 ≡ suc k
    → (120 - length (update c (0 ∷ [])).block) % 64 ≡ k
pad_step c k h e =
    let n = (c.bits + 1 * 8) % 2 ^ 64 in
    let q = ap (λ d. length d.block) (update-absorb c (0 ∷ []) h) in
    let r = fill-absorb (with_bits n c) (0 ∷ []) h in
    let s : length (update c (0 ∷ [])).block ≡ (length c.block + 1) % 64 = q ∙ r in omega arith

-- The rounds of zeros, the bits that they count aside.
pad_zeros-absorb :
    (n : ℕ) (c : Ctx) (k : ℕ)
    → length c.block < 64
    → (120 - length c.block) % 64 ≡ k
    → k < n
    → (b : ℕ) × (pad_zeros n c ≡ with_bits b (absorb c (replicate k 0)))
unfolding pad_zeros
pad_zeros-absorb zero c k h e f = absurd (omega arith)
pad_zeros-absorb (suc n) c zero h e f =
    let z : (length c.block == 56) ≡ true = ground arith in rw z (c.bits, refl)
pad_zeros-absorb (suc n) c (suc k) h e f =
    let z : (length c.block == 56) ≡ false = ground arith in
    let d = update c (0 ∷ []) in
    let m = (c.bits + 1 * 8) % 2 ^ 64 in
    let (b, r) =
      pad_zeros-absorb n d k (update-fill c (0 ∷ []) h) (pad_step c k h e) (omega arith) in
    rw z (
      b,
      r
          ∙ ap (λ x. with_bits b (absorb x (replicate k 0))) (update-absorb c (0 ∷ []) h)
          ∙ ap (with_bits b) (absorb-bits c m (replicate (suc k) 0)),
    )

update_core :
    (c : Ctx) (p : Bytes) → length c.block < 64 → (b : ℕ) × (update c p ≡ with_bits b (absorb c p))
update_core c p h =
    let b = (c.bits + length p * 8) % 2 ^ 64 in (b, update-absorb c p h ∙ absorb-bits c b p)

-- The bits do not matter for the words.
h-absorb : (c d : Ctx) (b : ℕ) (p : Bytes) → c ≡ with_bits b d → (absorb c p).h ≡ (absorb d p).h
h-absorb c d b p e = ap (λ x. (absorb x p).h) e ∙ ap (λ x. x.h) (absorb-bits d b p)

-- A call of `sha256_update` and what is absorbed behind it.
h-update :
    (c : Ctx) (p q : Bytes)
    → length c.block < 64
    → (absorb (update c p) q).h ≡ (absorb c (p ++ q)).h
h-update c p q h =
    let (b, e) = update_core c p h in
    h-absorb (update c p) (absorb c p) b q e ∙ ap (λ x. x.h) (sym (absorb-append c p q))

-- The padding behind a context.
h-padded :
    (c : Ctx) (l : Bytes)
    → length c.block < 64
    → (update (pad_zeros 64 (update c (128 ∷ []))) l).h
      ≡ (absorb c ((128 ∷ []) ++ (replicate ((119 - length c.block) % 64) 0 ++ l))).h
h-padded c l h =
    let k = (119 - length c.block) % 64 in
    let a = update c (128 ∷ []) in
    let h' = update-fill c (128 ∷ []) h in
    let m = (c.bits + 1 * 8) % 2 ^ 64 in
    let s : length a.block ≡ (length c.block + 1) % 64 =
      ap (λ d. length d.block) (update-absorb c (128 ∷ []) h)
      ∙ fill-absorb (with_bits m c) (128 ∷ []) h in
    let (b, e) = pad_zeros-absorb 64 a k h' (omega arith) (omega arith) in
    let z = pad_zeros 64 a in
    let zeros : Bytes = replicate k 0 in
    let f : length z.block < 64 =
      omega (arith, ap (λ d. length d.block) e, absorb-fill a zeros h') in
    let (b', e') = update_core z l f in
    ap (λ x. x.h) e'
    ∙ h-absorb z (absorb a zeros) b l e
    ∙ ap (λ x. x.h) (sym (absorb-append a zeros l))
    ∙ h-update c (128 ∷ []) (zeros ++ l) h

-- Blocks of 64 bytes are compressed one by one.
absorb-blocks :
    (n : ℕ) (c : Ctx) (p : Bytes)
    → c.block ≡ []
    → length p ≡ n * 64
    → (absorb c p).h ≡ hash_blocks n c.h p
unfolding settle
absorb-blocks zero c [] e l = refl
absorb-blocks zero c (b ∷ p) e l = absurd (omega arith)
absorb-blocks (suc n) c p e l =
    let d = record c { block = c.block ++ take 64 p } in
    let f : (length (c.block ++ take 64 p) == 64) ≡ true =
      rw e (ground (arith, length-take 64 p)) in
    let s : settle d ≡ record { h = compress c.h (take 64 p); bits = c.bits; block = [] } =
      rw (f, e) refl in
    ap (λ x. x.h) (absorb-take c 64 p (omega arith) (omega arith) (omega (arith, ap length e)))
    ∙ ap (λ x. (absorb x (drop 64 p)).h) s
    ∙ absorb-blocks n _ (drop 64 p) refl (omega (arith, length-drop 64 p))

-- The padded text is whole blocks.
length-padded : (m : Bytes) → length (padded m) ≡ (length (padded m) / 64) * 64
length-padded m =
    let n = length m in
    let k = (119 - n % 64) % 64 in
    let l = big_endian 8 (n * 8 % 2 ^ 64) in
    omega (
      arith,
      length-append m (padding n),
      length-append {A = ℕ} (replicate k 0) l,
      length-replicate {A = ℕ} k 0,
      length-big_endian 8 (n * 8 % 2 ^ 64),
    )

-- The hash of any text is what the standard says: the text, a one bit, as few zeros as fill the
-- block, and its count of bits modulo 2^64 in eight bytes, compressed in blocks of 64 bytes from
-- the initial words, with no byte over.
pub sha256-blocks :
    (m : Bytes)
    → (sha256 m ≡ out_bytes (hash_blocks (length (padded m) / 64) initial (padded m)))
      × (length (padded m) % 64 ≡ 0)
unfolding sha256 final
sha256-blocks m =
    let n = length m in
    let u = update start m in
    let b = (0 + n * 8) % 2 ^ 64 in
    let f : length u.block < 64 = update-fill start m (omega arith) in
    let e = update-absorb start m (omega arith) in
    let fill : length u.block ≡ n % 64 =
      omega (arith, ap (λ d. length d.block) e, fill-absorb (with_bits b start) m (omega arith)) in
    let bits : u.bits ≡ n * 8 % 2 ^ 64 =
      omega (arith, ap (λ d. d.bits) e, bits-absorb (with_bits b start) m) in
    let zeros : ℕ → Bytes = λ i. replicate ((119 - i) % 64) 0 in
    let q = length-padded m in
    (
      ap out_bytes (
          h-padded u (big_endian 8 u.bits) f
          ∙ ap₂ (λ i j. (absorb u ((128 ∷ []) ++ (zeros i ++ big_endian 8 j))).h) fill bits
          ∙ h-update start m (padding n) (omega arith)
          ∙ absorb-blocks (length (padded m) / 64) start (padded m) refl q),
      omega arith,
    )

-- `hmac_sha256` is the hash of the outer key and the hash of the inner key and the message,
-- whatever the lengths of the key and the message.
pub hmac_sha256-sha256 :
    (key m : Bytes) → hmac_sha256 key m ≡ sha256 (keyed 92 key ++ sha256 (keyed 54 key ++ m))
unfolding hmac_sha256 sha256
hmac_sha256-sha256 key m =
    let inside = final (update (update start (keyed 54 key)) m) in
    ap final (update-append start (keyed 92 key) inside (omega arith))
    ∙ ap (λ x. final (update start (keyed 92 key ++ final x)))
        (update-append start (keyed 54 key) m (omega arith))
