-- ===== src/Mp4/Muxer.antt =====
-- The muxer of src/mp4mux.c: its parameter sets, the init segment and the fragments.
use forgectrl.Prelude.{
  ℕ, ◌+◌, ◌*◌, ◌%◌, ◌^◌, Bool, not, ◌&&◌, ◌||◌, List, [], ◌∷◌, ◌++◌, Option, none, some, Bytes,
  codes, length, get_or, big_endian, leb, ltb, ◌==◌, if◌then◌else◌,
}
use forgectrl.Sha256.Compare.{sha256_hex}
use forgectrl.Mp4.Buffer.{Buffer, empty, put, patch}
use forgectrl.Mp4.Boxes.{
  Piece, Pieces, byte, half, word, long, raw, note, box, done, ◌⨟◌, repeat, write,
}
use forgectrl.Mp4.Nals.{nals}

-- SPS_MAX, PPS_MAX and MP4MUX_TIMESCALE
abbrev pub sps_max : ℕ
sps_max = 256

abbrev pub pps_max : ℕ
pps_max = 64

abbrev pub timescale : ℕ
timescale = 90000

-- `struct mp4mux`: a parameter set is the filled part of its array.
pub record Muxer : Type 0 where
  pub w : ℕ
  pub h : ℕ
  pub sps : Bytes
  pub pps : Bytes
  pub codec : Bytes

-- `mp4mux_new`
abbrev pub mp4mux_new : ℕ → ℕ → Muxer
mp4mux_new w h = record { w = w; h = h; sps = []; pps = []; codec = [] }

-- `nal[0] & 0x1F`
abbrev pub nal_type : Bytes → ℕ
nal_type nal = get_or nal 0 0 % 32

-- "avc1." and the three bytes behind the NAL's header in hex
abbrev pub codec_of : Bytes → Bytes
codec_of nal = codes "avc1." ++ sha256_hex (get_or nal 1 0 ∷ get_or nal 2 0 ∷ get_or nal 3 0 ∷ [])

-- `scan_cb`
unfoldable pub scan_cb : Bytes → Muxer → Muxer
scan_cb nal m =
    if nal_type nal == 7
    then (if leb 4 (length nal) && leb (length nal) sps_max
        then record m { sps = nal; codec = codec_of nal }
        else m)
    else if nal_type nal == 8
    then (if leb (length nal) pps_max then record m { pps = nal } else m)
    else m

unfoldable pub scan : List Bytes → Muxer → Muxer
scan [] m = m
scan (nal ∷ ns) m = scan ns (scan_cb nal m)

abbrev pub has_params : Muxer → Bool
has_params m = ltb 0 (length m.sps) && ltb 0 (length m.pps)

-- `mp4mux_feed_params`
unfoldable pub mp4mux_feed_params : Bytes → Muxer → Muxer × Bool
mp4mux_feed_params au m = let m' = scan (nals au) m in (m', has_params m')

abbrev pub start_code : Bytes
start_code = 0 ∷ 0 ∷ 0 ∷ 1 ∷ []

-- `mp4mux_params_annexb`, into a buffer of so many bytes: 0 is no bytes.
unfoldable pub mp4mux_params_annexb : Muxer → ℕ → Bytes
mp4mux_params_annexb m room =
    if not (has_params m) || ltb room (8 + length m.sps + length m.pps)
    then []
    else start_code ++ (m.sps ++ (start_code ++ m.pps))

abbrev pub matrix : Pieces → Pieces
matrix ps =
    word 0x10000
    ⨟ word 0
    ⨟ word 0
    ⨟ word 0
    ⨟ word 0x10000
    ⨟ word 0
    ⨟ word 0
    ⨟ word 0
    ⨟ word 0x40000000
    ⨟ ps

abbrev pub ftyp : Piece
ftyp = box (codes "ftyp") (
    raw (codes "isom")
    ⨟ word 0x200
    ⨟ raw (codes "isom")
    ⨟ raw (codes "iso5")
    ⨟ raw (codes "iso2")
    ⨟ raw (codes "avc1")
    ⨟ raw (codes "mp41")
    ⨟ done)

abbrev pub mvhd : Piece
mvhd = box (codes "mvhd") (
    word 0
    ⨟ word 0
    ⨟ word 0
    ⨟ word timescale
    ⨟ word 0
    ⨟ word 0x10000
    ⨟ half 0x100
    ⨟ half 0
    ⨟ word 0
    ⨟ word 0
    ⨟ matrix (repeat 6 (word 0) (word 2 ⨟ done)))

abbrev pub tkhd : Muxer → Piece
tkhd m = box (codes "tkhd") (
    word 3
    ⨟ word 0
    ⨟ word 0
    ⨟ word 1
    ⨟ word 0
    ⨟ word 0
    ⨟ word 0
    ⨟ word 0
    ⨟ half 0
    ⨟ half 0
    ⨟ half 0
    ⨟ half 0
    ⨟ matrix (word (m.w * 2 ^ 16) ⨟ word (m.h * 2 ^ 16) ⨟ done))

abbrev pub mdhd : Piece
mdhd =
    box (codes "mdhd")
      (word 0 ⨟ word 0 ⨟ word 0 ⨟ word timescale ⨟ word 0 ⨟ half 0x55c4 ⨟ half 0 ⨟ done)

abbrev pub hdlr : Piece
hdlr = box (codes "hdlr") (
    word 0
    ⨟ word 0
    ⨟ raw (codes "vide")
    ⨟ word 0
    ⨟ word 0
    ⨟ word 0
    ⨟ raw (codes "forgectrl" ++ (0 ∷ []))
    ⨟ done)

abbrev pub vmhd : Piece
vmhd = box (codes "vmhd") (word 1 ⨟ half 0 ⨟ half 0 ⨟ half 0 ⨟ half 0 ⨟ done)

abbrev pub dinf : Piece
dinf =
    box (codes "dinf")
      (box (codes "dref") (word 0 ⨟ word 1 ⨟ box (codes "url ") (word 1 ⨟ done) ⨟ done) ⨟ done)

abbrev pub avc_c : Muxer → Piece
avc_c m = box (codes "avcC") (
    byte 1
    ⨟ byte (get_or m.sps 1 0)
    ⨟ byte (get_or m.sps 2 0)
    ⨟ byte (get_or m.sps 3 0)
    ⨟ byte 0xff
    ⨟ byte 0xe1
    ⨟ half (length m.sps)
    ⨟ raw m.sps
    ⨟ byte 1
    ⨟ half (length m.pps)
    ⨟ raw m.pps
    ⨟ done)

abbrev pub stsd : Muxer → Piece
stsd m = box (codes "stsd") (
    word 0
    ⨟ word 1
    ⨟ box (codes "avc1") (
        repeat 6 (byte 0) (
          half 1
          ⨟ half 0
          ⨟ half 0
          ⨟ word 0
          ⨟ word 0
          ⨟ word 0
          ⨟ half m.w
          ⨟ half m.h
          ⨟ word 0x480000
          ⨟ word 0x480000
          ⨟ word 0
          ⨟ half 1
          ⨟ repeat 32 (byte 0) (half 0x18 ⨟ half 0xffff ⨟ avc_c m ⨟ done)))
    ⨟ done)

abbrev pub stbl : Muxer → Piece
stbl m = box (codes "stbl") (
    stsd m
    ⨟ box (codes "stts") (word 0 ⨟ word 0 ⨟ done)
    ⨟ box (codes "stsc") (word 0 ⨟ word 0 ⨟ done)
    ⨟ box (codes "stsz") (word 0 ⨟ word 0 ⨟ word 0 ⨟ done)
    ⨟ box (codes "stco") (word 0 ⨟ word 0 ⨟ done)
    ⨟ done)

abbrev pub mvex : Piece
mvex =
    box (codes "mvex")
      (box (codes "trex") (word 0 ⨟ word 1 ⨟ word 1 ⨟ word 0 ⨟ word 0 ⨟ word 0 ⨟ done) ⨟ done)

abbrev pub moov : Muxer → Piece
moov m = box (codes "moov") (
    mvhd
    ⨟ box (codes "trak") (
        tkhd m
        ⨟ box (codes "mdia") (mdhd ⨟ hdlr ⨟ box (codes "minf") (vmhd ⨟ dinf ⨟ stbl m ⨟ done) ⨟ done)
        ⨟ done)
    ⨟ mvex
    ⨟ done)

-- The writes of `mp4mux_init_segment`.
abbrev pub init_pieces : Muxer → Pieces
init_pieces m = ftyp ⨟ moov m ⨟ done

abbrev pub result : Buffer → Option Bytes
result b = if b.oom then none else some b.bytes

-- A picture NAL: not a parameter set, and no access unit delimiter.
abbrev pub is_picture : Bytes → Bool
is_picture nal = not (nal_type nal == 7 || nal_type nal == 8 || nal_type nal == 9)

-- The writes of the moof box, with the place of the data offset noted.
abbrev pub moof : ℕ → ℕ → ℕ → Bool → ℕ → Piece
moof seq pts dur key size = box (codes "moof") (
    box (codes "mfhd") (word 0 ⨟ word seq ⨟ done)
    ⨟ box (codes "traf") (
        box (codes "tfhd") (word 0x20000 ⨟ word 1 ⨟ done)
        ⨟ box (codes "tfdt") (byte 1 ⨟ byte 0 ⨟ half 0 ⨟ long pts ⨟ done)
        ⨟ box (codes "trun") (
            word 0x701
            ⨟ word 1
            ⨟ note
            ⨟ word 0
            ⨟ word dur
            ⨟ word size
            ⨟ word (if key then 0x2000000 else 0x1010000)
            ⨟ done)
        ⨟ done)
    ⨟ done)

module _ (grants : ℕ → Bool) where
  -- `mp4mux_init_segment`: `none` is its NULL.
  unfoldable pub mp4mux_init_segment : Muxer → Option Bytes
  mp4mux_init_segment m = if has_params m then result (write grants (init_pieces m) empty) else none

  -- `payload_cb` for each NAL
  unfoldable pub payload : List Bytes → Buffer → Buffer
  payload [] b = b
  payload (nal ∷ ns) b =
      payload ns
        (if is_picture nal then put grants nal (put grants (big_endian 4 (length nal)) b) else b)

  -- The data offset is patched, and the mdat box written behind it.
  abbrev pub with_data : Bytes → Buffer → Buffer
  with_data text b =
      write grants (box (codes "mdat") (raw text ⨟ done) ⨟ done)
        (if b.oom then b else patch b.noted (length b.bytes + 8) b)

  -- `mp4mux_fragment`: `none` is its NULL.
  unfoldable pub mp4mux_fragment : ℕ → ℕ → ℕ → Bool → Bytes → Option Bytes
  mp4mux_fragment seq pts dur key au =
      let p = payload (nals au) empty in
      if p.oom || length p.bytes == 0
      then none
      else result
          (with_data p.bytes (write grants (moof seq pts dur key (length p.bytes) ⨟ done) empty))
