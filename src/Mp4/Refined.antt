-- ===== src/Mp4/Refined.antt =====
-- On what the writes of src/mp4mux.c leave besides the bytes: the noted place, the capacity, and
-- whether the memory ran out.
use forgectrl.Prelude.{
  ℕ, zero, suc, ◌+◌, ◌-◌, ◌*◌, ◌/◌, ◌^◌, ◌≤◌, ◌<◌, ◌≡◌, refl, sym, ap, ap₂, ◌∙◌, inl, inr, Bool,
  true, false, ◌++◌, Bytes, length, length-append, take, drop, length-take, length-drop, big_endian,
  length-big_endian, arith, Bool-cases,
}
use forgectrl.Mp4.Buffer.{Buffer, doubled, grown, put, box_open, patch, box_close}
use forgectrl.Mp4.Boxes.{
  Piece, Pieces, byte, half, word, long, raw, note, box, done, ◌⨟◌, write_piece, write,
  bytes_of_piece, bytes_of, size_of_piece, size_of, noted_piece, noted_after,
}
use forgectrl.Mp4.Growing.{box_open-Appends, write_piece-Appends, write-Appends, oom-box_close}

mutual
  unfolding bytes_of_piece bytes_of size_of_piece size_of

  length-bytes_of_piece : (p : Piece) → length (bytes_of_piece p) ≡ size_of_piece p
  length-bytes_of_piece (byte v) = refl
  length-bytes_of_piece (half v) = length-big_endian 2 v
  length-bytes_of_piece (word v) = length-big_endian 4 v
  length-bytes_of_piece (long v) = omega (
    arith,
    length-append (big_endian 4 (v / 2 ^ 32)) (big_endian 4 v),
    length-big_endian 4 (v / 2 ^ 32),
    length-big_endian 4 v,
  )
  length-bytes_of_piece (raw text) = refl
  length-bytes_of_piece note = refl
  length-bytes_of_piece (box t ps) =
      let body = bytes_of ps in
      let n = 4 + length t + length body in
      omega (
        arith,
        length-append (big_endian 4 n) (t ++ body),
        length-append t body,
        length-big_endian 4 n,
        length-bytes_of ps,
      )

  length-bytes_of : (ps : Pieces) → length (bytes_of ps) ≡ size_of ps
  length-bytes_of done = refl
  length-bytes_of (p ⨟ ps) = omega (
    arith,
    length-append (bytes_of_piece p) (bytes_of ps),
    length-bytes_of_piece p,
    length-bytes_of ps,
  )

-- Doubling reaches what is needed.
doubled_enough : (rounds nc need : ℕ) → 0 < nc → need ≤ nc + rounds → need ≤ doubled rounds nc need
unfolding doubled
doubled_enough zero nc need p h = omega arith
doubled_enough (suc rounds) nc need p h =
    ground (arith, doubled_enough rounds (nc * 2) need (omega arith) (omega arith))

grown_enough : (room need : ℕ) → need ≤ grown room need
grown_enough room need = ground (
  arith,
  doubled_enough need 1024 need (omega arith) (omega arith),
  λ (h : 0 < room). doubled_enough need (room * 2) need (omega arith) (omega arith),
)

abbrev pub Fits : Buffer → Type 0
Fits b = length b.bytes ≤ b.cap

module _ (grants : ℕ → Bool) where
  put-Fits : (text : Bytes) (b : Buffer) → Fits b → Fits (put grants text b)
  unfolding put
  put-Fits text b h =
      let need = length b.bytes + length text in
      ground (arith, grown_enough b.cap need, length-append b.bytes text)

  noted-put : (text : Bytes) (b : Buffer) → (put grants text b).noted ≡ b.noted
  unfolding put
  noted-put text b = ground arith

  -- With an allocator that grants all, nothing fails.
  pub put_fine :
      ((n : ℕ) → grants n ≡ true)
      → (text : Bytes) (b : Buffer) → b.oom ≡ false
      → (put grants text b).oom ≡ false
  unfolding put
  put_fine g text b h =
      let need = length b.bytes + length text in ground (arith, g (grown b.cap need))

  length-patch :
      (at v : ℕ) (b : Buffer)
      → at + 4 ≤ length b.bytes
      → length (patch at v b).bytes ≡ length b.bytes
  unfolding patch
  length-patch at v b h = omega (
    arith,
    length-append (take at b.bytes) (big_endian 4 v ++ drop (at + 4) b.bytes),
    length-append (big_endian 4 v) (drop (at + 4) b.bytes),
    length-take at b.bytes,
    length-drop (at + 4) b.bytes,
    length-big_endian 4 v,
  )

  box_close-Fits :
      (at : ℕ) (b : Buffer)
      → (b.oom ≡ false → at + 4 ≤ length b.bytes)
      → Fits b
      → Fits (box_close at b)
  unfolding box_close
  box_close-Fits at b h f = elim (Bool-cases b.oom) [
    | inl e ↦ ground arith
    | inr e ↦
        let q = length-patch at (length b.bytes - at) b (h e) in
        let c : (patch at (length b.bytes - at) b).cap ≡ b.cap = unfold patch in refl in
        ground (arith, q, c)
  ]

  -- What a box has written when it is closed, if the memory has lasted.
  box_filled :
      (t : Bytes) (ps : Pieces) (b : Buffer)
      → (write grants ps (box_open grants t b)).oom ≡ false
      → length b.bytes + 4 ≤ length (write grants ps (box_open grants t b)).bytes
  box_filled t ps b h =
      let o = box_open grants t b in
      let a = write-Appends grants ps o h in
      let k = box_open-Appends grants t b a.was_fine in
      omega (
        arith,
        ap length a.appended,
        ap length k.appended,
        length-append o.bytes (bytes_of ps),
        length-append b.bytes (big_endian 4 0 ++ t),
        length-append (big_endian 4 0) t,
        length-big_endian 4 0,
      )

  mutual
    unfolding write_piece write box_open

    write_piece-Fits : (p : Piece) (b : Buffer) → Fits b → Fits (write_piece grants p b)
    write_piece-Fits (byte v) b f = put-Fits _ b f
    write_piece-Fits (half v) b f = put-Fits _ b f
    write_piece-Fits (word v) b f = put-Fits _ b f
    write_piece-Fits (long v) b f = put-Fits _ _ (put-Fits _ b f)
    write_piece-Fits (raw text) b f = put-Fits _ b f
    write_piece-Fits note b f = f
    write_piece-Fits (box t ps) b f =
        box_close-Fits (length b.bytes) (write grants ps (box_open grants t b)) (box_filled t ps b)
          (write-Fits ps (box_open grants t b) (put-Fits _ _ (put-Fits _ b f)))

    write-Fits : (ps : Pieces) (b : Buffer) → Fits b → Fits (write grants ps b)
    write-Fits done b f = f
    write-Fits (p ⨟ ps) b f = write-Fits ps (write_piece grants p b) (write_piece-Fits p b f)

  mutual
    unfolding write_piece write box_open

    write_piece_fine :
        ((n : ℕ) → grants n ≡ true)
        → (p : Piece) (b : Buffer) → b.oom ≡ false
        → (write_piece grants p b).oom ≡ false
    write_piece_fine g (byte v) b f = put_fine g _ b f
    write_piece_fine g (half v) b f = put_fine g _ b f
    write_piece_fine g (word v) b f = put_fine g _ b f
    write_piece_fine g (long v) b f = put_fine g _ _ (put_fine g _ b f)
    write_piece_fine g (raw text) b f = put_fine g _ b f
    write_piece_fine g note b f = f
    write_piece_fine g (box t ps) b f =
        oom-box_close grants (length b.bytes) (write grants ps (box_open grants t b))
        ∙ write_fine g ps (box_open grants t b) (put_fine g _ _ (put_fine g _ b f))

    pub write_fine :
        ((n : ℕ) → grants n ≡ true)
        → (ps : Pieces) (b : Buffer) → b.oom ≡ false
        → (write grants ps b).oom ≡ false
    write_fine g done b f = f
    write_fine g (p ⨟ ps) b f = write_fine g ps (write_piece grants p b) (write_piece_fine g p b f)

  noted-box_close : (at : ℕ) (b : Buffer) → (box_close at b).noted ≡ b.noted
  unfolding box_close patch
  noted-box_close at b = ground arith

  mutual
    unfolding write_piece write box_open noted_piece noted_after

    noted-write_piece :
        (p : Piece) (b : Buffer)
        → (write_piece grants p b).oom ≡ false
        → (write_piece grants p b).noted ≡ noted_piece p (length b.bytes) b.noted
    noted-write_piece (byte v) b h = noted-put _ b
    noted-write_piece (half v) b h = noted-put _ b
    noted-write_piece (word v) b h = noted-put _ b
    noted-write_piece (long v) b h = noted-put _ _ ∙ noted-put _ b
    noted-write_piece (raw text) b h = noted-put _ b
    noted-write_piece note b h = refl
    noted-write_piece (box t ps) b h =
        let o = box_open grants t b in
        let c = write grants ps o in
        let fine : c.oom ≡ false = sym (oom-box_close grants (length b.bytes) c) ∙ h in
        let a = write-Appends grants ps o fine in
        let k = box_open-Appends grants t b a.was_fine in
        let n : length o.bytes ≡ length b.bytes + (4 + length t) = omega (
          arith,
          ap length k.appended,
          length-append b.bytes (big_endian 4 0 ++ t),
          length-append (big_endian 4 0) t,
          length-big_endian 4 0,
        ) in
        noted-box_close (length b.bytes) c
        ∙ noted-write ps o fine
        ∙ ap₂ (noted_after ps) n (noted-put _ _ ∙ noted-put _ b)

    pub noted-write :
        (ps : Pieces) (b : Buffer)
        → (write grants ps b).oom ≡ false
        → (write grants ps b).noted ≡ noted_after ps (length b.bytes) b.noted
    noted-write done b h = refl
    noted-write (p ⨟ ps) b h =
        let c = write_piece grants p b in
        let fine = (write-Appends grants ps c h).was_fine in
        let a = write_piece-Appends grants p b fine in
        let n : length c.bytes ≡ length b.bytes + size_of_piece p = omega (
          arith,
          ap length a.appended,
          length-append b.bytes (bytes_of_piece p),
          length-bytes_of_piece p,
        ) in
        noted-write ps c h ∙ ap₂ (noted_after ps) n (noted-write_piece p b fine)

-- The growable buffer holds exactly the bytes that the writes stand for, each box with its size,
-- within its capacity, unless the memory ran out; and it does not run out while every request is
-- granted.
pub write_refines :
    (grants : ℕ → Bool) (ps : Pieces) (b : Buffer)
    → Fits b
    → ((write grants ps b).oom ≡ false → (write grants ps b).bytes ≡ b.bytes ++ bytes_of ps)
      × Fits (write grants ps b)
      × (((n : ℕ) → grants n ≡ true) → b.oom ≡ false → (write grants ps b).oom ≡ false)
write_refines grants ps b f = (
  (λ h. (write-Appends grants ps b h).appended),
  write-Fits grants ps b f,
  (λ g h. write_fine grants g ps b h),
)
