-- ===== src/Sha256/Stream.antt =====
-- The context of src/sha256.c: `sha256_init`, `sha256_update`, `sha256_final` and `sha256`.
use forgectrl.Prelude.{
  big_endian, ℕ, zero, suc, ◌+◌, ◌-◌, ◌*◌, ◌%◌, ◌^◌, [], ◌∷◌, ◌++◌, Bytes, length, take, drop, min,
  ◌==◌, if◌then◌else◌,
}
use forgectrl.Sha256.Compress.{Words, compress}

-- `sha256_ctx`: `block` is the filled part of the block of 64 bytes, and `fill` its length.
pub record Ctx : Type 0 where
  pub h : Words
  pub bits : ℕ
  pub block : Bytes

abbrev pub initial : Words
initial = record {
  a = 1779033703;
  b = 3144134277;
  c = 1013904242;
  d = 2773480762;
  e = 1359893119;
  f = 2600822924;
  g = 528734635;
  hh = 1541459225;
}

-- `sha256_init`
abbrev pub start : Ctx
start = record { h = initial; bits = 0; block = [] }

-- A full block is compressed.
unfoldable pub settle : Ctx → Ctx
settle c = if length c.block == 64 then record c { h = compress c.h c.block; block = [] } else c

-- `while (len > 0)`, for at most so many rounds: as much of the data as the block takes.
unfoldable pub feed : ℕ → Ctx → Bytes → Ctx
feed zero c p = c
feed (suc rounds) c [] = c
feed (suc rounds) c (b ∷ p) =
    let n = min (64 - length c.block) (length (b ∷ p)) in
    feed rounds (settle (record c { block = c.block ++ take n (b ∷ p) })) (drop n (b ∷ p))

-- `sha256_update`, with `bits` a `uint64_t`.
unfoldable pub update : Ctx → Bytes → Ctx
update c p = feed (length p) (record c { bits = (c.bits + length p * 8) % 2 ^ 64 }) p

-- `while (c->fill != 56)`, for at most so many rounds
unfoldable pub pad_zeros : ℕ → Ctx → Ctx
pad_zeros zero c = c
pad_zeros (suc n) c =
    let more = pad_zeros n (update c (0 ∷ [])) in if length c.block == 56 then c else more

unfoldable pub out_bytes : Words → Bytes
out_bytes h =
    big_endian 4 h.a
    ++ big_endian 4 h.b
    ++ big_endian 4 h.c
    ++ big_endian 4 h.d
    ++ big_endian 4 h.e
    ++ big_endian 4 h.f
    ++ big_endian 4 h.g
    ++ big_endian 4 h.hh

-- `sha256_final`, with at most 64 rounds of padding; the context is wiped behind it.
unfoldable pub final : Ctx → Bytes
final c =
    let padded = pad_zeros 64 (update c (128 ∷ [])) in
    out_bytes (update padded (big_endian 8 c.bits)).h

unfoldable pub sha256 : Bytes → Bytes
sha256 message = final (update start message)
