-- ===== src/Mp4/Fragments.antt =====
-- On the fragments of src/mp4mux.c, read back box by box.
use forgectrl.Prelude.{
  ℕ, ◌+◌, ◌<◌, ◌≡◌, refl, sym, ap, ap₂, ◌∙◌, inl, inr, Bool, true, false, ◌||◌, List, [], ◌∷◌, ◌++◌,
  append_assoc, append-nil, Option, none, some, Bytes, codes, length, take, drop, big_endian, ◌==◌,
  if◌then◌else◌, arith, Bool-cases,
}
use forgectrl.Mp4.Buffer.{Buffer, empty, put, patch}
use forgectrl.Mp4.Boxes.{
  Piece, byte, half, word, long, raw, box, done, ◌⨟◌, write, bytes_of_piece, bytes_of,
  size_of_piece, size_of, noted_piece, noted_after,
}
use forgectrl.Mp4.Growing.{Appends, Appends-trans, put-Appends, write-Appends}
use forgectrl.Mp4.Refined.{put_fine, write_fine, noted-write}
use forgectrl.Mp4.Nals.{nals}
use forgectrl.Mp4.Muxer.{is_picture, payload, moof, with_data, result, mp4mux_fragment}

-- The length-prefixed pictures.
abbrev pub pictures : List Bytes → List Bytes
pictures [] = []
pictures (nal ∷ ns) = if is_picture nal then nal ∷ pictures ns else pictures ns

abbrev pub prefixed : List Bytes → Bytes
prefixed [] = []
prefixed (nal ∷ ns) = big_endian 4 (length nal) ++ (nal ++ prefixed ns)

-- The moof box with its data offset in place.
abbrev pub moof_at : ℕ → ℕ → ℕ → ℕ → Bool → ℕ → Piece
moof_at off seq pts dur key size = box (codes "moof") (
    box (codes "mfhd") (word 0 ⨟ word seq ⨟ done)
    ⨟ box (codes "traf") (
        box (codes "tfhd") (word 0x20000 ⨟ word 1 ⨟ done)
        ⨟ box (codes "tfdt") (byte 1 ⨟ byte 0 ⨟ half 0 ⨟ long pts ⨟ done)
        ⨟ box (codes "trun") (
            word 0x701
            ⨟ word 1
            ⨟ word off
            ⨟ word dur
            ⨟ word size
            ⨟ word (if key then 0x2000000 else 0x1010000)
            ⨟ done)
        ⨟ done)
    ⨟ done)

patched :
    (off seq pts dur size : ℕ) (key : Bool)
    → take 84 (bytes_of (moof seq pts dur key size ⨟ done))
        ++ (big_endian 4 off ++ drop 88 (bytes_of (moof seq pts dur key size ⨟ done)))
      ≡ bytes_of (moof_at off seq pts dur key size ⨟ done)
unfolding bytes_of bytes_of_piece big_endian
patched off seq pts dur size key = refl

moof_size :
    (seq pts dur size : ℕ) (key : Bool) → length (bytes_of (moof seq pts dur key size ⨟ done)) ≡ 100
unfolding bytes_of bytes_of_piece big_endian
moof_size seq pts dur size key = refl

moof_noted :
    (seq pts dur size : ℕ) (key : Bool) → noted_after (moof seq pts dur key size ⨟ done) 0 0 ≡ 84
unfolding noted_after noted_piece size_of_piece size_of
moof_noted seq pts dur size key = refl

abbrev pub pic_bytes : Bytes → Bytes
pic_bytes nal = big_endian 4 (length nal) ++ nal

prefixed_step :
    (nal : Bytes) (ns : List Bytes)
    → prefixed (pictures (nal ∷ ns))
      ≡ (if is_picture nal then pic_bytes nal else []) ++ prefixed (pictures ns)
prefixed_step nal ns = elim (Bool-cases (is_picture nal)) [
  | inl e ↦ rw e (sym (append_assoc (big_endian 4 (length nal)) nal (prefixed (pictures ns))))
  | inr e ↦ rw e
]

-- The whole of a fragment.
abbrev pub fragment_bytes : ℕ → ℕ → ℕ → Bool → Bytes → Bytes
fragment_bytes seq pts dur key text =
    bytes_of
      (moof_at 108 seq pts dur key (length text) ⨟ box (codes "mdat") (raw text ⨟ done) ⨟ done)

module _ (grants : ℕ → Bool) where
  one_nal : Bytes → Buffer → Buffer
  one_nal nal b =
      if is_picture nal then put grants nal (put grants (big_endian 4 (length nal)) b) else b

  one_nal-Appends :
      (nal : Bytes) (b : Buffer)
      → (one_nal nal b).oom ≡ false
      → Appends b (one_nal nal b) (if is_picture nal then pic_bytes nal else [])
  unfolding one_nal
  one_nal-Appends nal b = elim (Bool-cases (is_picture nal)) [
    | inl e ↦
        let c = put grants (big_endian 4 (length nal)) b in
        rw e (
          Appends-trans grants b c (put grants nal c) (big_endian 4 (length nal)) nal
            (put-Appends grants nal c) (put-Appends grants (big_endian 4 (length nal)) b))
    | inr e ↦ rw e (λ h. record { was_fine = h; appended = sym (append-nil b.bytes) })
  ]

  payload-Appends :
      (ns : List Bytes) (b : Buffer)
      → (payload grants ns b).oom ≡ false
      → Appends b (payload grants ns b) (prefixed (pictures ns))
  unfolding payload one_nal
  payload-Appends [] b h = record { was_fine = h; appended = sym (append-nil b.bytes) }
  payload-Appends (nal ∷ ns) b h =
      let c = one_nal nal b in
      rw (prefixed_step nal ns) (
        Appends-trans grants b c (payload grants ns c)
          (if is_picture nal then pic_bytes nal else []) (prefixed (pictures ns))
          (payload-Appends ns c) (one_nal-Appends nal b) h)

  one_nal_fine :
      ((n : ℕ) → grants n ≡ true)
      → (nal : Bytes) (b : Buffer) → b.oom ≡ false
      → (one_nal nal b).oom ≡ false
  unfolding one_nal
  one_nal_fine g nal b h = elim (Bool-cases (is_picture nal)) [
    | inl e ↦ rw e (put_fine grants g nal _ (put_fine grants g (big_endian 4 (length nal)) b h))
    | inr e ↦ rw e h
  ]

  payload_fine :
      ((n : ℕ) → grants n ≡ true)
      → (ns : List Bytes) (b : Buffer) → b.oom ≡ false
      → (payload grants ns b).oom ≡ false
  unfolding payload one_nal
  payload_fine g [] b h = h
  payload_fine g (nal ∷ ns) b h = payload_fine g ns (one_nal nal b) (one_nal_fine g nal b h)

  oom-patched : (at v : ℕ) (b : Buffer) → (if b.oom then b else patch at v b).oom ≡ b.oom
  unfolding patch
  oom-patched at v b = ground arith

  with_data_lem :
      (seq pts dur : ℕ) (key : Bool) (text : Bytes)
      → let b = write grants (moof seq pts dur key (length text) ⨟ done) empty in
        (with_data grants text b).oom ≡ false
        → (with_data grants text b).bytes ≡ fragment_bytes seq pts dur key text
  with_data_lem seq pts dur key text h =
      let ps = moof seq pts dur key (length text) ⨟ done in
      let b = write grants ps empty in
      let off = length b.bytes + 8 in
      let x = if b.oom then b else patch b.noted off b in
      let mdat = box (codes "mdat") (raw text ⨟ done) ⨟ done in
      let a = write-Appends grants mdat x h in
      let fine : b.oom ≡ false = sym (oom-patched b.noted off b) ∙ a.was_fine in
      let bytes : b.bytes ≡ bytes_of ps = (write-Appends grants ps empty fine).appended in
      let size : off ≡ 108 =
        omega (arith, ap length bytes, moof_size seq pts dur (length text) key) in
      let noted : b.noted ≡ 84 =
        noted-write grants ps empty fine ∙ moof_noted seq pts dur (length text) key in
      let m = moof_at 108 seq pts dur key (length text) in
      let whole : x.bytes ≡ bytes_of (m ⨟ done) =
        ap (λ k. (if k then b else patch b.noted off b).bytes) fine
        ∙ unfold patch in
          ap₂ (λ i k. take i b.bytes ++ (big_endian 4 k ++ drop (i + 4) b.bytes)) noted size
          ∙ ap (λ k. take 84 k ++ (big_endian 4 108 ++ drop 88 k)) bytes
          ∙ patched 108 seq pts dur (length text) key in
      a.appended
      ∙ ap (λ k. k ++ bytes_of mdat) whole
      ∙ unfold bytes_of in append_assoc (bytes_of_piece m) [] (bytes_of mdat)

  passed :
      (x y : Bool) (r : Option Bytes) (out : Bytes)
      → (if x || y then none else r) ≡ some out
      → (x ≡ false) × (y ≡ false) × (r ≡ some out)
  passed x y r out h = ground arith

  result_some : (b : Buffer) (out : Bytes) → result b ≡ some out → (b.oom ≡ false) × (out ≡ b.bytes)
  result_some b out h = ground arith

  pub fragment_is :
      (seq pts dur : ℕ) (key : Bool) (au out : Bytes)
      → mp4mux_fragment grants seq pts dur key au ≡ some out
      → (out ≡ fragment_bytes seq pts dur key (prefixed (pictures (nals au))))
        × (0 < length (prefixed (pictures (nals au))))
  unfolding mp4mux_fragment
  fragment_is seq pts dur key au out h =
      let p = payload grants (nals au) empty in
      let b =
        with_data grants p.bytes
          (write grants (moof seq pts dur key (length p.bytes) ⨟ done) empty) in
      let (fine, some_bytes, e) = passed p.oom (length p.bytes == 0) (result b) out h in
      let (kept, is) = result_some b out e in
      let bytes : p.bytes ≡ prefixed (pictures (nals au)) =
        (payload-Appends (nals au) empty fine).appended in
      (
        is ∙ with_data_lem seq pts dur key p.bytes kept ∙ ap (fragment_bytes seq pts dur key) bytes,
        ground (arith, ap length bytes),
      )

  pub fragment_given :
      ((n : ℕ) → grants n ≡ true)
      → (seq pts dur : ℕ) (key : Bool) (au : Bytes) → 0 < length (prefixed (pictures (nals au)))
      → (out : Bytes) × (mp4mux_fragment grants seq pts dur key au ≡ some out)
  unfolding mp4mux_fragment
  fragment_given g seq pts dur key au h =
      let p = payload grants (nals au) empty in
      let m = write grants (moof seq pts dur key (length p.bytes) ⨟ done) empty in
      let b = with_data grants p.bytes m in
      let fine = payload_fine g (nals au) empty refl in
      let bytes : p.bytes ≡ prefixed (pictures (nals au)) =
        (payload-Appends (nals au) empty fine).appended in
      let z : (length p.bytes == 0) ≡ false = ground (arith, ap length bytes) in
      let x = if m.oom then m else patch m.noted (length m.bytes + 8) m in
      let w : b.oom ≡ false =
        write_fine grants g (box (codes "mdat") (raw p.bytes ⨟ done) ⨟ done) x
          (oom-patched m.noted (length m.bytes + 8) m ∙ write_fine grants g _ empty refl) in
      (
        b.bytes,
        ap₂ (λ i j. if i || j then none else result b) fine z
            ∙ ap (λ i. if i then none else some b.bytes) w,
      )
