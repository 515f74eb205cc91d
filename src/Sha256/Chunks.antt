-- ===== src/Sha256/Chunks.antt =====
-- On `sha256_update` of src/sha256.c: its chunks against the data byte by byte.
use forgectrl.Prelude.{
  ℕ, zero, suc, ◌+◌, ◌-◌, ◌*◌, ◌%◌, ◌^◌, ◌≤◌, ◌<◌, ◌≡◌, refl, sym, ap, ◌∙◌, [], ◌∷◌, ◌++◌,
  append_assoc, Bytes, length, length-append, length-take, length-drop, take-append-drop, take,
  drop, min, ◌==◌, arith, Bool-cases, inl, inr,
}
use forgectrl.Sha256.Stream.{Ctx, settle, feed, update}

-- One byte, and a text byte by byte.
abbrev pub absorb : Ctx → Bytes → Ctx
absorb c [] = c
absorb c (b ∷ p) = absorb (settle (record c { block = c.block ++ (b ∷ []) })) p

settle_short : (c : Ctx) → length c.block < 64 → settle c ≡ c
unfolding settle
settle_short c h = ground arith

-- A chunk that does not pass the end of the block.
absorb_chunk :
    (c : Ctx) (x : ℕ) (p : Bytes)
    → length c.block + length (x ∷ p) ≤ 64
    → absorb c (x ∷ p) ≡ settle (record c { block = c.block ++ (x ∷ p) })
absorb_chunk c x [] h = refl
absorb_chunk c x (y ∷ p) h =
    let c' = record c { block = c.block ++ (x ∷ []) } in
    ap (λ d. absorb d (y ∷ p)) (settle_short c' (omega (arith, length-append c.block (x ∷ []))))
    ∙ absorb_chunk c' y p (omega (arith, length-append c.block (x ∷ [])))
    ∙ ap (λ b. settle (record c { block = b })) (append_assoc c.block (x ∷ []) (y ∷ p))

pub absorb-append : (c : Ctx) (p q : Bytes) → absorb c (p ++ q) ≡ absorb (absorb c p) q
absorb-append c [] q = refl
absorb-append c (b ∷ p) q = absorb-append (settle (record c { block = c.block ++ (b ∷ []) })) p q

settle-fill : (c : Ctx) → length c.block ≤ 64 → length (settle c).block < 64
unfolding settle
settle-fill c h = ground arith

pub absorb-fill : (c : Ctx) (p : Bytes) → length c.block < 64 → length (absorb c p).block < 64
absorb-fill c [] h = h
absorb-fill c (b ∷ p) h =
    absorb-fill (settle (record c { block = c.block ++ (b ∷ []) })) p
      (settle-fill _ (omega (arith, length-append c.block (b ∷ []))))

-- The first `m` bytes of the data as one chunk.
pub absorb-take :
    (c : Ctx) (m : ℕ) (p : Bytes)
    → 0 < m
    → 0 < length p
    → length c.block + m ≤ 64
    → absorb c p ≡ absorb (settle (record c { block = c.block ++ take m p })) (drop m p)
absorb-take c zero p k q h = absurd (omega arith)
absorb-take c (suc m) [] k q h = absurd (omega arith)
absorb-take c (suc m) (b ∷ p) k q h =
    ap (λ r. absorb c (b ∷ r)) (sym (take-append-drop m p))
    ∙ absorb-append c (b ∷ take m p) (drop m p)
    ∙ ap (λ d. absorb d (drop m p)) (absorb_chunk c b (take m p) (omega (arith, length-take m p)))

pub feed-absorb :
    (rounds : ℕ) (c : Ctx) (p : Bytes)
    → length c.block < 64
    → length p ≤ rounds
    → feed rounds c p ≡ absorb c p
unfolding feed
feed-absorb zero c [] h f = refl
feed-absorb zero c (b ∷ p) h f = absurd (omega arith)
feed-absorb (suc rounds) c [] h f = refl
feed-absorb (suc rounds) c (b ∷ p) h f =
    let n = min (64 - length c.block) (suc (length p)) in
    let x = take n (b ∷ p) in
    feed-absorb rounds (settle (record c { block = c.block ++ x })) (drop n (b ∷ p))
      (settle-fill _ (omega (arith, length-append c.block x, length-take n (b ∷ p))))
      (omega (arith, length-drop n (b ∷ p)))
    ∙ sym (absorb-take c n (b ∷ p) (omega arith) (omega arith) (omega arith))

-- The count of bits is beside the rest.
settle-bits : (c : Ctx) (n : ℕ) → settle (record c { bits = n }) ≡ record (settle c) { bits = n }
unfolding settle
settle-bits c n = elim (Bool-cases (length c.block == 64)) [ inl e ↦ rw e refl | inr e ↦ rw e refl ]

bits-settle : (c : Ctx) → (settle c).bits ≡ c.bits
unfolding settle
bits-settle c = ground arith

pub absorb-bits :
    (c : Ctx) (n : ℕ) (p : Bytes)
    → absorb (record c { bits = n }) p ≡ record (absorb c p) { bits = n }
absorb-bits c n [] = refl
absorb-bits c n (b ∷ p) =
    let d = record c { block = c.block ++ (b ∷ []) } in
    ap (λ x. absorb x p) (settle-bits d n) ∙ absorb-bits (settle d) n p

pub bits-absorb : (c : Ctx) (p : Bytes) → (absorb c p).bits ≡ c.bits
bits-absorb c [] = refl
bits-absorb c (b ∷ p) =
    let d = record c { block = c.block ++ (b ∷ []) } in bits-absorb (settle d) p ∙ bits-settle d

-- `sha256_update` counts the bits and absorbs the bytes.
pub update-absorb :
    (c : Ctx) (p : Bytes)
    → length c.block < 64
    → update c p ≡ absorb (record c { bits = (c.bits + length p * 8) % 2 ^ 64 }) p
unfolding update
update-absorb c p h = feed-absorb (length p) _ p h (omega arith)

pub update-fill : (c : Ctx) (p : Bytes) → length c.block < 64 → length (update c p).block < 64
update-fill c p h =
    let e = update-absorb c p h in
    let n = (c.bits + length p * 8) % 2 ^ 64 in
    omega (arith, ap (λ d. length d.block) e, absorb-fill (record c { bits = n }) p h)

-- Data given in two calls of `sha256_update` leaves the context that it leaves in one, for a
-- context whose block is not full, as every call leaves it.
pub update-append :
    (c : Ctx) (p q : Bytes) → length c.block < 64 → update (update c p) q ≡ update c (p ++ q)
update-append c p q h =
    let n = (c.bits + length p * 8) % 2 ^ 64 in
    let m = (n + length q * 8) % 2 ^ 64 in
    let u = absorb (record c { bits = n }) p in
    let k : m ≡ (c.bits + length (p ++ q) * 8) % 2 ^ 64 = omega (arith, length-append p q) in
    ap (λ d. update d q) (update-absorb c p h)
    ∙ update-absorb u q (absorb-fill (record c { bits = n }) p h)
    ∙ ap (λ b. absorb (record u { bits = (b + length q * 8) % 2 ^ 64 }) q)
        (bits-absorb (record c { bits = n }) p)
    ∙ ap (λ d. absorb d q) (sym (absorb-bits (record c { bits = n }) m p))
    ∙ sym (absorb-append (record c { bits = m }) p q)
    ∙ ap (λ b. absorb (record c { bits = b }) (p ++ q)) k
    ∙ sym (update-absorb c (p ++ q) h)
