-- ===== src/Mp4/Growing.antt =====
-- On the growable buffer of src/mp4mux.c against the plain bytes that are written.
use forgectrl.Prelude.{
  ℕ, suc, ◌+◌, ◌-◌, ◌/◌, ◌^◌, ◌≡◌, refl, sym, ap, ap₂, ◌∙◌, Bool, false, [], ◌∷◌, ◌++◌,
  append_assoc, append-nil, Bytes, length, length-append, take, drop, big_endian, length-big_endian,
  arith,
}
use forgectrl.Mp4.Buffer.{Buffer, put, box_open, patch, box_close}
use forgectrl.Mp4.Boxes.{
  Piece, Pieces, byte, half, word, long, raw, note, box, done, ◌⨟◌, write_piece, write,
  bytes_of_piece, bytes_of,
}

pub take-append : (xs ys : Bytes) → take (length xs) (xs ++ ys) ≡ xs
take-append [] ys = refl
take-append (x ∷ xs) ys = ap (λ r. x ∷ r) (take-append xs ys)

pub drop-append : (xs ys : Bytes) → drop (length xs) (xs ++ ys) ≡ ys
drop-append [] ys = refl
drop-append (x ∷ xs) ys = drop-append xs ys

pub drop-add : (a : ℕ) (xs ys : Bytes) → drop (length xs + a) (xs ++ ys) ≡ drop a ys
drop-add a [] ys = let e : 0 + a ≡ a = omega arith in ap (λ k. drop k ys) e
drop-add a (x ∷ xs) ys =
    let e : suc (length xs) + a ≡ suc (length xs + a) = omega arith in
    ap (λ k. drop k (x ∷ (xs ++ ys))) e ∙ drop-add a xs ys

-- Four bytes in the middle are replaced.
pub patch_lem :
    (pre w post : Bytes) (v : ℕ) (b : Buffer)
    → length w ≡ 4
    → b.bytes ≡ pre ++ (w ++ post)
    → (patch (length pre) v b).bytes ≡ pre ++ (big_endian 4 v ++ post)
unfolding patch
patch_lem pre w post v b h e =
    let d : drop (length pre + 4) b.bytes ≡ post =
      ap (drop (length pre + 4)) e
      ∙ drop-add 4 pre (w ++ post)
      ∙ ap (λ k. drop k (w ++ post)) (sym h)
      ∙ drop-append w post in
    ap₂ (λ x y. x ++ (big_endian 4 v ++ y)) (ap (take (length pre)) e ∙ take-append pre (w ++ post))
      d

-- A write that did not run out of memory has appended its bytes.
pub record Appends (b c : Buffer) (text : Bytes) : Type 0 where
  pub was_fine : b.oom ≡ false
  pub appended : c.bytes ≡ b.bytes ++ text

module _ (grants : ℕ → Bool) where
  pub put-Appends :
      (text : Bytes) (b : Buffer)
      → (put grants text b).oom ≡ false
      → Appends b (put grants text b) text
  unfolding put
  put-Appends text b h = ground arith

  pub Appends-trans :
      (b c d : Buffer) (x y : Bytes)
      → (d.oom ≡ false → Appends c d y)
      → (c.oom ≡ false → Appends b c x)
      → d.oom ≡ false
      → Appends b d (x ++ y)
  Appends-trans b c d x y q p h =
      let second = q h in
      let first = p second.was_fine in
      record {
        was_fine = first.was_fine;
        appended = second.appended ∙ ap (λ k. k ++ y) first.appended ∙ append_assoc b.bytes x y;
      }

  pub box_open-Appends :
      (t : Bytes) (b : Buffer)
      → (box_open grants t b).oom ≡ false
      → Appends b (box_open grants t b) (big_endian 4 0 ++ t)
  unfolding box_open
  box_open-Appends t b =
      let c = put grants (big_endian 4 0) b in
      Appends-trans b c (put grants t c) (big_endian 4 0) t (put-Appends t c)
        (put-Appends (big_endian 4 0) b)

  pub oom-box_close : (at : ℕ) (b : Buffer) → (box_close at b).oom ≡ b.oom
  unfolding box_close patch
  oom-box_close at b = ground arith

  -- Closing a box over its contents.
  box_close-Appends :
      (t body : Bytes) (b c : Buffer)
      → (c.oom ≡ false → Appends b c ((big_endian 4 0 ++ t) ++ body))
      → (box_close (length b.bytes) c).oom ≡ false
      → Appends b
          (box_close (length b.bytes) c)
          (big_endian 4 (4 + length t + length body) ++ (t ++ body))
  unfolding box_close patch
  box_close-Appends t body b c p h =
      let fine : c.oom ≡ false = sym (oom-box_close (length b.bytes) c) ∙ h in
      let a = p fine in
      let zeros = big_endian 4 0 in
      let e : c.bytes ≡ b.bytes ++ (zeros ++ (t ++ body)) =
        a.appended ∙ ap (λ k. b.bytes ++ k) (append_assoc zeros t body) in
      let n : length c.bytes - length b.bytes ≡ 4 + length t + length body = omega (
        arith,
        ap length e,
        length-append b.bytes (zeros ++ (t ++ body)),
        length-append zeros (t ++ body),
        length-append t body,
        length-big_endian 4 0,
      ) in
      rw fine (record {
        was_fine = a.was_fine;
        appended =
            patch_lem b.bytes zeros (t ++ body) (length c.bytes - length b.bytes) c
              (length-big_endian 4 0) e
            ∙ ap (λ k. b.bytes ++ (big_endian 4 k ++ (t ++ body))) n;
      })

  mutual
    unfolding write_piece write bytes_of_piece bytes_of

    pub write_piece-Appends :
        (p : Piece) (b : Buffer)
        → (write_piece grants p b).oom ≡ false
        → Appends b (write_piece grants p b) (bytes_of_piece p)
    write_piece-Appends (byte v) b = put-Appends _ b
    write_piece-Appends (half v) b = put-Appends _ b
    write_piece-Appends (word v) b = put-Appends _ b
    write_piece-Appends (raw text) b = put-Appends text b
    write_piece-Appends note b = λ h. record { was_fine = h; appended = sym (append-nil b.bytes) }
    write_piece-Appends (long v) b =
        let c = put grants (big_endian 4 (v / 2 ^ 32)) b in
        Appends-trans b c _ _ _ (put-Appends (big_endian 4 v) c) (put-Appends _ b)
    write_piece-Appends (box t ps) b =
        let o = box_open grants t b in
        let c = write grants ps o in
        box_close-Appends t (bytes_of ps) b c (
          Appends-trans b o c (big_endian 4 0 ++ t) (bytes_of ps) (write-Appends ps o)
            (box_open-Appends t b))

    pub write-Appends :
        (ps : Pieces) (b : Buffer)
        → (write grants ps b).oom ≡ false
        → Appends b (write grants ps b) (bytes_of ps)
    write-Appends done b = λ h. record { was_fine = h; appended = sym (append-nil b.bytes) }
    write-Appends (p ⨟ ps) b =
        let c = write_piece grants p b in
        Appends-trans b c (write grants ps c) (bytes_of_piece p) (bytes_of ps) (write-Appends ps c)
          (write_piece-Appends p b)
