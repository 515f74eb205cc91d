-- ===== src/Mp4/Readback.antt =====
-- On the fragments of src/mp4mux.c as a reader of ISO/IEC 14496-12 boxes takes them apart.
use forgectrl.Prelude.{
  ℕ, zero, suc, ◌+◌, ◌^◌, ◌<◌, ◌≡◌, refl, sym, ap, ap₂, ◌∙◌, Bool, true, false, ◌&&◌, List, [], ◌∷◌,
  ◌++◌, append_assoc, append-nil, Option, none, some, Bytes, codes, length, length-append, take,
  drop, big_endian, length-big_endian, number_from, number-big_endian, leb, ◌==◌, if◌then◌else◌,
  arith,
}
use forgectrl.Mp4.Boxes.{Pieces, raw, box, done, ◌⨟◌, bytes_of_piece, bytes_of}
use forgectrl.Mp4.Growing.{take-append, drop-append, drop-add}
use forgectrl.Mp4.Nals.{nals}
use forgectrl.Mp4.Muxer.{mp4mux_fragment}
use forgectrl.Mp4.Fragments.{pictures, prefixed, fragment_bytes, fragment_is}

-- The number in the four bytes at an offset.
abbrev pub field : ℕ → Bytes → ℕ
field at s = number_from 0 (take 4 (drop at s))

-- A box at the front: its tag, its contents, and what is behind it.
abbrev pub box_of : ℕ → Bytes → Option (Bytes × Bytes × Bytes)
box_of n s =
    if leb 8 n && leb n (length s)
    then some (take 4 (drop 4 s), drop 8 (take n s), drop n s)
    else none

abbrev pub read_box : Bytes → Option (Bytes × Bytes × Bytes)
read_box s = box_of (field 0 s) s

abbrev pub in_front : Bytes → Option (List Bytes) → Option (List Bytes)
in_front nal none = none
in_front nal (some ns) = some (nal ∷ ns)

abbrev pub sample_of : ℕ → Bytes → Option (List Bytes) → Option (List Bytes)
sample_of n s rest =
    if length s == 0
    then some []
    else if leb (4 + n) (length s)
    then in_front (take n (drop 4 s)) rest
    else none

-- The samples of an mdat box, each behind its length, in at most so many rounds.
unfoldable pub read_samples : ℕ → Bytes → Option (List Bytes)
read_samples zero s = none
read_samples (suc rounds) s =
    let n = field 0 s in sample_of n s (read_samples rounds (drop (4 + n) s))

field_lem : (n : ℕ) (s : Bytes) → n < 2 ^ 32 → field 0 (big_endian 4 n ++ s) ≡ n
field_lem n s h =
    ap (λ k. number_from 0 (take k (big_endian 4 n ++ s))) (sym (length-big_endian 4 n))
    ∙ ap (number_from 0) (take-append (big_endian 4 n) s)
    ∙ number-big_endian n h

-- Taking a text apart that is four pieces, the first two of four bytes.
drop_first : (w s : Bytes) → length w ≡ 4 → drop 4 (w ++ s) ≡ s
drop_first w s h = ap (λ k. drop k (w ++ s)) (sym h) ∙ drop-append w s

take_first : (w s : Bytes) → length w ≡ 4 → take 4 (w ++ s) ≡ w
take_first w s h = ap (λ k. take k (w ++ s)) (sym h) ∙ take-append w s

drop_two : (w t s : Bytes) → length w ≡ 4 → length t ≡ 4 → drop 8 (w ++ (t ++ s)) ≡ s
drop_two w t s h k =
    let e : 8 ≡ length w + 4 = omega arith in
    ap (λ n. drop n (w ++ (t ++ s))) e ∙ drop-add 4 w (t ++ s) ∙ drop_first t s k

box_of_lem :
    (w t body r : Bytes) (n : ℕ)
    → length w ≡ 4
    → length t ≡ 4
    → n ≡ 8 + length body
    → box_of n ((w ++ (t ++ body)) ++ r) ≡ some (t, body, r)
box_of_lem w t body r n h k e =
    let b = w ++ (t ++ body) in
    let s = b ++ r in
    let l : length b ≡ n = omega (arith, length-append w (t ++ body), length-append t body) in
    let flat : s ≡ w ++ (t ++ (body ++ r)) =
      append_assoc w (t ++ body) r ∙ ap (λ x. w ++ x) (append_assoc t body r) in
    let fits : (leb 8 n && leb n (length s)) ≡ true = ground (arith, length-append b r) in
    let tag : take 4 (drop 4 s) ≡ t =
      ap (λ x. take 4 (drop 4 x)) flat
      ∙ ap (take 4) (drop_first w (t ++ (body ++ r)) h)
      ∙ take_first t (body ++ r) k in
    let inside : drop 8 (take n s) ≡ body =
      ap (λ m. drop 8 (take m s)) (sym l) ∙ ap (drop 8) (take-append b r) ∙ drop_two w t body h k in
    let behind : drop n s ≡ r = ap (λ m. drop m s) (sym l) ∙ drop-append b r in
    ap (λ x. if x then some (take 4 (drop 4 s), drop 8 (take n s), drop n s) else none) fits
    ∙ ap₂ (λ x y. some (x, y, drop n s)) tag inside
    ∙ ap (λ x. some (t, body, x)) behind

-- A box that was written is read back.
read_box-box :
    (t : Bytes) (ps : Pieces) (r : Bytes)
    → length t ≡ 4
    → 8 + length (bytes_of ps) < 2 ^ 32
    → read_box (bytes_of_piece (box t ps) ++ r) ≡ some (t, bytes_of ps, r)
unfolding bytes_of_piece
read_box-box t ps r h k =
    let body = bytes_of ps in
    let n = 4 + length t + length body in
    let w = big_endian 4 n in
    let s = (w ++ (t ++ body)) ++ r in
    let size : field 0 s ≡ n =
      ap (field 0) (append_assoc w (t ++ body) r) ∙ field_lem n ((t ++ body) ++ r) (omega arith) in
    ap (λ m. box_of m s) size ∙ box_of_lem w t body r n (length-big_endian 4 n) h (omega arith)

-- The length-prefixed samples are read back.
read_samples-prefixed :
    (rounds : ℕ) (ns : List Bytes)
    → length (prefixed ns) < rounds
    → length (prefixed ns) < 2 ^ 32
    → read_samples rounds (prefixed ns) ≡ some ns
unfolding read_samples
read_samples-prefixed zero ns h k = absurd (omega arith)
read_samples-prefixed (suc rounds) [] h k = refl
read_samples-prefixed (suc rounds) (nal ∷ ns) h k =
    let n = length nal in
    let w = big_endian 4 n in
    let more = prefixed ns in
    let s = w ++ (nal ++ more) in
    let l : length s ≡ 4 + n + length more =
      omega (arith, length-append w (nal ++ more), length-append nal more, length-big_endian 4 n) in
    let size : field 0 s ≡ n = field_lem n (nal ++ more) (omega arith) in
    let some_left : (length s == 0) ≡ false = ground (arith, l) in
    let fits : leb (4 + n) (length s) ≡ true = ground (arith, l) in
    let inside : drop 4 s ≡ nal ++ more = drop_first w (nal ++ more) (length-big_endian 4 n) in
    let e : 4 + n ≡ length w + n = omega (arith, length-big_endian 4 n) in
    let behind : drop (4 + n) s ≡ more =
      ap (λ m. drop m s) e ∙ drop-add n w (nal ++ more) ∙ drop-append nal more in
    ap (λ m. sample_of m s (read_samples rounds (drop (4 + m) s))) size
    ∙ ap₂
        (λ x y.
          if x
          then some []
          else if y
          then in_front (take n (drop 4 s)) (read_samples rounds (drop (4 + n) s))
          else none)
        some_left fits
    ∙ ap₂ (λ x y. in_front (take n x) (read_samples rounds y)) inside behind
    ∙ ap₂ in_front (take-append nal more)
        (read_samples-prefixed rounds ns (omega arith) (omega arith))

module _ (seq pts dur : ℕ) (key : Bool) (text : Bytes) where
  mdat_bytes : Bytes
  mdat_bytes = bytes_of (box (codes "mdat") (raw text ⨟ done) ⨟ done)

  whole : Bytes
  whole = fragment_bytes seq pts dur key text

  drop-whole : drop 100 whole ≡ mdat_bytes
  unfolding whole mdat_bytes bytes_of bytes_of_piece big_endian
  drop-whole = refl

  -- The contents of the mdat box, as far as they compute.
  data_of : drop 8 mdat_bytes ≡ text
  unfolding mdat_bytes bytes_of bytes_of_piece big_endian
  data_of = append-nil (text ++ []) ∙ append-nil text

  field-whole : (field 0 whole ≡ 100) × (field 84 whole ≡ 108)
  unfolding whole bytes_of bytes_of_piece big_endian number_from
  field-whole = (refl, refl)

  tag_whole : take 4 (drop 4 whole) ≡ codes "moof"
  unfolding whole bytes_of bytes_of_piece big_endian
  tag_whole = refl

  length-whole : length whole ≡ 108 + length text
  unfolding whole mdat_bytes bytes_of bytes_of_piece big_endian
  length-whole = omega (arith, ap length (append-nil (text ++ [])), ap length (append-nil text))

  mdat_read : length text + 8 < 2 ^ 32 → read_box mdat_bytes ≡ some (codes "mdat", text, [])
  unfolding mdat_bytes bytes_of
  mdat_read h =
      let e : bytes_of (raw text ⨟ done) ≡ text = unfold bytes_of_piece in append-nil text in
      read_box-box (codes "mdat") (raw text ⨟ done) [] refl (omega (arith, ap length e))
      ∙ ap (λ x. some (codes "mdat", x, [])) e

  contents_whole : drop 108 whole ≡ drop 8 mdat_bytes
  unfolding whole mdat_bytes bytes_of bytes_of_piece big_endian
  contents_whole = refl

  moof_read : read_box whole ≡ some (codes "moof", drop 8 (take 100 whole), drop 100 whole)
  moof_read =
      let fits : (leb 8 100 && leb 100 (length whole)) ≡ true = ground (arith, length-whole) in
      ap (λ n. box_of n whole) field-whole.0
      ∙ ap
          (λ x.
            if x
            then some (take 4 (drop 4 whole), drop 8 (take 100 whole), drop 100 whole)
            else none)
          fits
      ∙ ap (λ x. some (x, drop 8 (take 100 whole), drop 100 whole)) tag_whole

-- What `mp4mux_fragment` gives is a moof box and an mdat box with nothing behind them; the data
-- offset of the moof box, counted from its start, is where the contents of the mdat box begin; and
-- these are the pictures of the unit, each behind its length, for a fragment that is smaller than
-- 2^32 bytes.
pub fragment_reads :
    (grants : ℕ → Bool) (seq pts dur : ℕ) (key : Bool) (au out : Bytes)
    → mp4mux_fragment grants seq pts dur key au ≡ some out
    → length out < 2 ^ 32
    → let pics = prefixed (pictures (nals au)) in
      (read_box out ≡ some (codes "moof", drop 8 (take 100 out), drop 100 out))
      × (read_box (drop 100 out) ≡ some (codes "mdat", pics, []))
      × (drop (field 84 out) out ≡ pics)
      × (read_samples (suc (length pics)) pics ≡ some (pictures (nals au)))
unfolding whole
fragment_reads grants seq pts dur key au out h k =
    let pics = prefixed (pictures (nals au)) in
    let (e, some_left) = fragment_is grants seq pts dur key au out h in
    let n : length out ≡ 108 + length pics = ap length e ∙ length-whole seq pts dur key pics in
    let behind : drop 100 out ≡ mdat_bytes seq pts dur key pics =
      ap (drop 100) e ∙ drop-whole seq pts dur key pics in
    let at : field 84 out ≡ 108 = ap (field 84) e ∙ (field-whole seq pts dur key pics).1 in
    (
      rw e (moof_read seq pts dur key pics),
      ap read_box behind ∙ mdat_read seq pts dur key pics (omega arith),
      ap₂ drop at e ∙ contents_whole seq pts dur key pics ∙ data_of seq pts dur key pics,
      read_samples-prefixed (suc (length pics)) (pictures (nals au)) (omega arith) (omega arith),
    )
