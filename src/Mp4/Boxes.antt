-- ===== src/Mp4/Boxes.antt =====
-- The sequences of writes in src/mp4mux.c as data: `u8`, `u16`, `u32`, `u64f`, `tag`, `bb_put`, and
-- the pairs of `box_open` and `box_close`, which are nested wherever they stand.
use forgectrl.Prelude.{
  ℕ, zero, suc, ◌+◌, ◌/◌, ◌%◌, ◌^◌, Bool, [], ◌∷◌, ◌++◌, Bytes, length, big_endian,
}
use forgectrl.Mp4.Buffer.{Buffer, put, box_open, box_close}

-- `note` keeps the offset of what comes next.
infixr 20 ◌⨟◌
mutual
  pub data Piece : Type 0 where
    byte half word long : ℕ → Piece
    raw : Bytes → Piece
    note : Piece
    box : Bytes → Pieces → Piece

  pub data Pieces : Type 0 where
    done : Pieces
    ◌⨟◌ : Piece → Pieces → Pieces

-- A number of equal writes in front of others.
abbrev pub repeat : ℕ → Piece → Pieces → Pieces
repeat zero p ps = ps
repeat (suc n) p ps = p ⨟ repeat n p ps

module _ (grants : ℕ → Bool) where
  -- Each write as the code makes it. A box is opened, filled and closed at its offset.
  unfoldable mutual
    pub write_piece : Piece → Buffer → Buffer
    write_piece (byte v) b = put grants (v % 256 ∷ []) b
    write_piece (half v) b = put grants (big_endian 2 v) b
    write_piece (word v) b = put grants (big_endian 4 v) b
    write_piece (long v) b = put grants (big_endian 4 v) (put grants (big_endian 4 (v / 2 ^ 32)) b)
    write_piece (raw text) b = put grants text b
    write_piece note b = record b { noted = length b.bytes }
    write_piece (box t ps) b = box_close (length b.bytes) (write ps (box_open grants t b))

    pub write : Pieces → Buffer → Buffer
    write done b = b
    write (p ⨟ ps) b = write ps (write_piece p b)

-- What the writes mean: a box is its size, its tag and its contents.
unfoldable mutual
  pub bytes_of_piece : Piece → Bytes
  bytes_of_piece (byte v) = v % 256 ∷ []
  bytes_of_piece (half v) = big_endian 2 v
  bytes_of_piece (word v) = big_endian 4 v
  bytes_of_piece (long v) = big_endian 4 (v / 2 ^ 32) ++ big_endian 4 v
  bytes_of_piece (raw text) = text
  bytes_of_piece note = []
  bytes_of_piece (box t ps) =
      let body = bytes_of ps in big_endian 4 (4 + length t + length body) ++ (t ++ body)

  pub bytes_of : Pieces → Bytes
  bytes_of done = []
  bytes_of (p ⨟ ps) = bytes_of_piece p ++ bytes_of ps

-- Where the noted place is, by the sizes of what stands in front of it.
unfoldable mutual
  pub size_of_piece : Piece → ℕ
  size_of_piece (byte v) = 1
  size_of_piece (half v) = 2
  size_of_piece (word v) = 4
  size_of_piece (long v) = 8
  size_of_piece (raw text) = length text
  size_of_piece note = 0
  size_of_piece (box t ps) = 4 + length t + size_of ps

  pub size_of : Pieces → ℕ
  size_of done = 0
  size_of (p ⨟ ps) = size_of_piece p + size_of ps

unfoldable mutual
  pub noted_piece : Piece → ℕ → ℕ → ℕ
  noted_piece note at old = at
  noted_piece (box t ps) at old = noted_after ps (at + (4 + length t)) old
  noted_piece (byte v) at old = old
  noted_piece (half v) at old = old
  noted_piece (word v) at old = old
  noted_piece (long v) at old = old
  noted_piece (raw text) at old = old

  pub noted_after : Pieces → ℕ → ℕ → ℕ
  noted_after done at old = old
  noted_after (p ⨟ ps) at old = noted_after ps (at + size_of_piece p) (noted_piece p at old)
