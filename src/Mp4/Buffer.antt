-- ===== src/Mp4/Buffer.antt =====
-- The growable buffer of src/mp4mux.c, `struct bb`, and the writes into it. What `realloc` grants
-- is a test on the size that is asked for; sizes stay below the range of a `size_t`.
use forgectrl.Prelude.{
  ℕ, zero, suc, ◌+◌, ◌-◌, ◌*◌, Bool, true, false, [], ◌++◌, Bytes, length, take, drop, big_endian,
  ltb, ◌==◌, if◌then◌else◌,
}

-- `struct bb`, and the offset that `mp4mux_fragment` keeps for the place it patches last.
pub record Buffer : Type 0 where
  pub bytes : Bytes
  pub cap : ℕ
  pub oom : Bool
  pub noted : ℕ

abbrev pub empty : Buffer
empty = record { bytes = []; cap = 0; oom = false; noted = 0 }

-- `while (nc < b->len + n) nc *= 2`, for at most so many rounds.
unfoldable pub doubled : ℕ → ℕ → ℕ → ℕ
doubled zero nc need = nc
doubled (suc rounds) nc need =
    let more = doubled rounds (nc * 2) need in if ltb nc need then more else nc

-- The new capacity: each round adds the old one at least, so `need` rounds are enough.
abbrev pub grown : ℕ → ℕ → ℕ
grown room need = doubled need (if room == 0 then 1024 else room * 2) need

module _ (grants : ℕ → Bool) where
  -- `bb_put`
  unfoldable pub put : Bytes → Buffer → Buffer
  put text b =
      if b.oom
      then b
      else (let need = length b.bytes + length text in
          let nc = grown b.cap need in
          if ltb b.cap need
          then (if grants nc
              then record b { bytes = b.bytes ++ text; cap = nc }
              else record b { oom = true })
          else record b { bytes = b.bytes ++ text })

  -- `box_open`, behind which the box's offset is the old length.
  unfoldable pub box_open : Bytes → Buffer → Buffer
  box_open t b = put t (put (big_endian 4 0) b)

-- Four bytes written over what stands at an offset.
unfoldable pub patch : ℕ → ℕ → Buffer → Buffer
patch at v b = record b { bytes = take at b.bytes ++ (big_endian 4 v ++ drop (at + 4) b.bytes) }

-- `box_close`
unfoldable pub box_close : ℕ → Buffer → Buffer
box_close at b = if b.oom then b else patch at (length b.bytes - at) b
