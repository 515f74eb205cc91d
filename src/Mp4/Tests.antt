-- ===== src/Mp4/Tests.antt =====
-- The muxer at concrete units.
use forgectrl.Prelude.{
  ap, ◌∙◌, ℕ, suc, ◌≡◌, refl, Bool, true, false, [], ◌∷◌, ◌++◌, some, Bytes, codes, length, take,
  drop, arith, big_endian,
}
use forgectrl.Mp4.Buffer.{empty}
use forgectrl.Mp4.Boxes.{Pieces, done, word, ◌⨟◌, box, write, bytes_of, bytes_of_piece}
use forgectrl.Mp4.Nals.{nals}
use forgectrl.Mp4.Muxer.{
  Muxer, mp4mux_new, mp4mux_fragment, mp4mux_feed_params, mp4mux_params_annexb, codec_of,
}
use forgectrl.Mp4.Refined.{Fits, write_refines}
use forgectrl.Mp4.Fragments.{fragment_bytes, fragment_given, fragment_is, pictures, prefixed}
use forgectrl.Mp4.Readback.{field, read_box, read_samples, fragment_reads}
use forgectrl.Mp4.Splitting.{
  no_code, AllClean, annexb, nals-annexb, IsMuxer, feed_params-params_annexb,
}

abbrev all_granted : ℕ → Bool
all_granted n = true

abbrev sps : Bytes
sps = 0x67 ∷ 0x42 ∷ 0xe0 ∷ 0x1e ∷ 0xda ∷ []

abbrev pps : Bytes
pps = 0x68 ∷ 0xce ∷ 0x3c ∷ 0x80 ∷ []

abbrev idr : Bytes
idr = 0x65 ∷ 0x88 ∷ 0x84 ∷ 0x21 ∷ []

abbrev unit : Bytes
unit = annexb (sps ∷ pps ∷ idr ∷ [])

three-clean : AllClean (sps ∷ pps ∷ idr ∷ [])
unfolding no_code
three-clean = (refl, (refl, (refl, tt)))

two-clean : AllClean (sps ∷ pps ∷ [])
unfolding no_code
two-clean = (refl, (refl, tt))

nals-annexb_example : nals unit ≡ sps ∷ pps ∷ idr ∷ []
nals-annexb_example = nals-annexb (sps ∷ pps ∷ idr ∷ []) three-clean

abbrev two_boxes : Pieces
two_boxes = box (codes "moof") (box (codes "mfhd") (word 0 ⨟ word 7 ⨟ done) ⨟ done) ⨟ done

two_boxes_out : Bytes
two_boxes_out =
    0 ∷ 0 ∷ 0 ∷ 24 ∷ codes "moof"
    ++ (0 ∷ 0 ∷ 0 ∷ 16 ∷ codes "mfhd" ++ (0 ∷ 0 ∷ 0 ∷ 0 ∷ 0 ∷ 0 ∷ 0 ∷ 7 ∷ []))

two_boxes-bytes_of : bytes_of two_boxes ≡ two_boxes_out
unfolding bytes_of bytes_of_piece big_endian two_boxes_out
two_boxes-bytes_of = refl

write_refines_example :
    ((write all_granted two_boxes empty).oom ≡ false
      → (write all_granted two_boxes empty).bytes ≡ [] ++ bytes_of two_boxes)
    × Fits (write all_granted two_boxes empty)
    × (((n : ℕ) → all_granted n ≡ true)
        → empty.oom ≡ false
        → (write all_granted two_boxes empty).oom ≡ false)
write_refines_example = write_refines all_granted two_boxes empty (omega arith)

one_picture : prefixed (pictures (nals unit)) ≡ 0 ∷ 0 ∷ 0 ∷ 4 ∷ idr
unfolding big_endian
one_picture = ap (λ ns. prefixed (pictures ns)) nals-annexb_example

abbrev fragment_out : Bytes
fragment_out = fragment_bytes 1 3000 1500 true (0 ∷ 0 ∷ 0 ∷ 4 ∷ idr)

fragment-out : mp4mux_fragment all_granted 1 3000 1500 true unit ≡ some fragment_out
fragment-out =
    let (out, e) =
      fragment_given all_granted (λ n. refl) 1 3000 1500 true unit
        (omega (arith, ap length one_picture)) in
    let is = (fragment_is all_granted 1 3000 1500 true unit out e).0 in
    e ∙ ap some (is ∙ ap (fragment_bytes 1 3000 1500 true) one_picture)

length-fragment_out : length fragment_out ≡ 116
unfolding bytes_of bytes_of_piece big_endian
length-fragment_out = refl

fragment_reads_example :
    let pics = prefixed (pictures (nals unit)) in
    (read_box fragment_out
      ≡ some (codes "moof", drop 8 (take 100 fragment_out), drop 100 fragment_out))
    × (read_box (drop 100 fragment_out) ≡ some (codes "mdat", pics, []))
    × (drop (field 84 fragment_out) fragment_out ≡ pics)
    × (read_samples (suc (length pics)) pics ≡ some (pictures (nals unit)))
fragment_reads_example =
    fragment_reads all_granted 1 3000 1500 true unit fragment_out fragment-out
      (omega (arith, length-fragment_out))

abbrev new : Muxer
new = mp4mux_new 640 480

new-IsMuxer : IsMuxer new
new-IsMuxer = record { sps_fits = omega arith; pps_fits = omega arith; sps_read = ground arith }

abbrev known : Muxer
known = record new { sps = sps; pps = pps; codec = codec_of sps }

known-IsMuxer : IsMuxer known
known-IsMuxer = record { sps_fits = omega arith; pps_fits = omega arith; sps_read = ground arith }

feed_params-params_annexb_example :
    mp4mux_feed_params (mp4mux_params_annexb known 512) (mp4mux_new 320 240)
    ≡ (record known { w = 320; h = 240 }, true)
feed_params-params_annexb_example =
    feed_params-params_annexb known 320 240 512 known-IsMuxer two-clean.0 two-clean.1.0 refl refl
      refl (omega arith)
