-- ===== src/Mp4/Splitting.antt =====
-- On `each_nal` of src/mp4mux.c over units that are well formed, and on the parameter sets.
use forgectrl.Prelude.{
  ℕ, zero, suc, ◌+◌, ◌≤◌, ◌<◌, ◌≡◌, refl, sym, ap, ◌∙◌, Bool, true, false, not, ◌&&◌, ◌||◌, List,
  [], ◌∷◌, ◌++◌, append-nil, Bytes, length, length-append, ltb, leb, ◌==◌, if◌then◌else◌, arith,
}
use forgectrl.Mp4.Nals.{ends_nal, nal_end, call_with, each_nal, nals}
use forgectrl.Mp4.Muxer.{
  Muxer, mp4mux_new, nal_type, codec_of, scan_cb, scan, has_params, mp4mux_feed_params, start_code,
  mp4mux_params_annexb, sps_max, pps_max,
}

-- A NAL as H.264 has it: no start code inside, and no zero at its end.
unfoldable pub no_code : Bytes → Bool
no_code [] = false
no_code (a ∷ []) = not (a == 0)
no_code (a ∷ b ∷ []) = not (b == 0)
no_code (a ∷ b ∷ c ∷ r) = not (a == 0 && b == 0 && leb c 1) && no_code (b ∷ c ∷ r)

abbrev pub AllClean : List Bytes → Type 0
AllClean [] = Unit
AllClean (nal ∷ ns) = (no_code nal ≡ true) × AllClean ns

-- The NALs as an Annex B unit.
abbrev pub annexb : List Bytes → Bytes
annexb [] = []
annexb (nal ∷ ns) = start_code ++ (nal ++ annexb ns)

nal_end_last : (nal : Bytes) → no_code nal ≡ true → nal_end nal ≡ (nal, [])
unfolding nal_end no_code
nal_end_last [] h = refl
nal_end_last (a ∷ []) h = refl
nal_end_last (a ∷ b ∷ []) h = refl
nal_end_last (a ∷ b ∷ c ∷ []) h = refl
nal_end_last (a ∷ b ∷ c ∷ d ∷ r) h =
    let e : ends_nal a b c d ≡ false = ground arith in
    rw (e, nal_end_last (b ∷ c ∷ d ∷ r) (ground arith)) refl

nal_end_code :
    (nal r : Bytes)
    → no_code nal ≡ true
    → nal_end (nal ++ (0 ∷ 0 ∷ 0 ∷ 1 ∷ r)) ≡ (nal, 0 ∷ 0 ∷ 0 ∷ 1 ∷ r)
unfolding nal_end no_code
nal_end_code [] r h = absurd (ground arith)
nal_end_code (a ∷ []) r h = ground arith
nal_end_code (a ∷ b ∷ []) r h = ground arith
nal_end_code (a ∷ b ∷ c ∷ []) r h =
    let e : ends_nal a b c 0 ≡ false = ground arith in
    rw (e, nal_end_code (b ∷ c ∷ []) r (ground arith)) refl
nal_end_code (a ∷ b ∷ c ∷ d ∷ nal) r h =
    let e : ends_nal a b c d ≡ false = ground arith in
    rw (e, nal_end_code (b ∷ c ∷ d ∷ nal) r (ground arith)) refl

-- The end of a NAL that others follow.
nal_end-annexb :
    (nal : Bytes) (ns : List Bytes)
    → no_code nal ≡ true
    → nal_end (nal ++ annexb ns) ≡ (nal, annexb ns)
nal_end-annexb nal [] h = rw (append-nil nal) (nal_end_last nal h)
nal_end-annexb nal (n ∷ ns) h = nal_end_code nal (n ++ annexb ns) h

each_nal-code :
    (rounds : ℕ) (nal : Bytes) (ns : List Bytes)
    → no_code nal ≡ true
    → each_nal (suc rounds) (start_code ++ (nal ++ annexb ns)) ≡ nal ∷ each_nal rounds (annexb ns)
unfolding each_nal
each_nal-code rounds [] ns h = unfold no_code in absurd (ground arith)
each_nal-code rounds (c ∷ nal) ns h =
    ap (λ x. call_with x.0 (each_nal rounds x.1)) (nal_end-annexb (c ∷ nal) ns h)

each_nal-annexb :
    (rounds : ℕ) (ns : List Bytes)
    → AllClean ns
    → length (annexb ns) ≤ rounds
    → each_nal rounds (annexb ns) ≡ ns
each_nal-annexb zero [] v h = unfold each_nal in refl
each_nal-annexb zero (nal ∷ ns) v h = absurd (omega arith)
each_nal-annexb (suc rounds) [] v h = unfold each_nal in refl
each_nal-annexb (suc rounds) (nal ∷ ns) v h =
    each_nal-code rounds nal ns v.0
    ∙ ap (λ r. nal ∷ r)
        (each_nal-annexb rounds ns v.1 (omega (arith, length-append nal (annexb ns))))

-- `each_nal` finds exactly the NALs of an Annex B unit of four-byte start codes, in their order,
-- whose NALs have no start code inside and no zero at their ends.
pub nals-annexb : (ns : List Bytes) → AllClean ns → nals (annexb ns) ≡ ns
nals-annexb ns v = each_nal-annexb (length (annexb ns)) ns v (omega arith)

-- What the muxer knows is within its arrays: an SPS has the four bytes that the init segment and
-- the codec string read.
pub record IsMuxer (m : Muxer) : Type 0 where
  pub sps_fits : length m.sps ≤ sps_max
  pub pps_fits : length m.pps ≤ pps_max
  pub sps_read : 0 < length m.sps → 4 ≤ length m.sps

scan_cb-IsMuxer : (nal : Bytes) (m : Muxer) → IsMuxer m → IsMuxer (scan_cb nal m)
unfolding scan_cb
scan_cb-IsMuxer nal m v = ground arith

scan-IsMuxer : (ns : List Bytes) (m : Muxer) → IsMuxer m → IsMuxer (scan ns m)
unfolding scan
scan-IsMuxer [] m v = v
scan-IsMuxer (nal ∷ ns) m v = scan-IsMuxer ns (scan_cb nal m) (scan_cb-IsMuxer nal m v)

-- Whatever unit is fed, the parameter sets stay within their arrays, and an SPS that is known has
-- the bytes that are read of it.
pub feed_params-IsMuxer : (au : Bytes) (m : Muxer) → IsMuxer m → IsMuxer (mp4mux_feed_params au m).0
unfolding mp4mux_feed_params
feed_params-IsMuxer au m v = scan-IsMuxer (nals au) m v

clean_pos : (nal : Bytes) → no_code nal ≡ true → 0 < length nal
unfolding no_code
clean_pos [] h = absurd (ground arith)
clean_pos (c ∷ nal) h = omega arith

scan_sps :
    (nal : Bytes) (m : Muxer)
    → nal_type nal ≡ 7
    → 4 ≤ length nal
    → length nal ≤ 256
    → scan_cb nal m ≡ record m { sps = nal; codec = codec_of nal }
unfolding scan_cb
scan_sps nal m t a b =
    let k : (leb 4 (length nal) && leb (length nal) 256) ≡ true = ground arith in rw (t, k)

scan_pps :
    (nal : Bytes) (m : Muxer)
    → nal_type nal ≡ 8
    → length nal ≤ 64
    → scan_cb nal m ≡ record m { pps = nal }
unfolding scan_cb
scan_pps nal m t b = let k : leb (length nal) 64 ≡ true = ground arith in rw (t, k)

params_annexb-annexb :
    (m : Muxer) (room : ℕ)
    → 0 < length m.sps
    → 0 < length m.pps
    → 8 + length m.sps + length m.pps ≤ room
    → mp4mux_params_annexb m room ≡ annexb (m.sps ∷ m.pps ∷ [])
unfolding mp4mux_params_annexb
params_annexb-annexb m room a b h =
    let k : (not (has_params m) || ltb room (8 + length m.sps + length m.pps)) ≡ false =
      ground arith in
    ap (λ x. if x then [] else start_code ++ (m.sps ++ (start_code ++ m.pps))) k
    ∙ ap (λ x. start_code ++ (m.sps ++ (start_code ++ x))) (sym (append-nil m.pps))

-- What `mp4mux_params_annexb` gives, fed to a new muxer, gives it the same parameter sets and
-- codec, where these are clean NALs of their types, within their arrays, and the buffer takes
-- them.
pub feed_params-params_annexb :
    (m : Muxer) (w h room : ℕ)
    → IsMuxer m
    → no_code m.sps ≡ true
    → no_code m.pps ≡ true
    → nal_type m.sps ≡ 7
    → nal_type m.pps ≡ 8
    → m.codec ≡ codec_of m.sps
    → 8 + length m.sps + length m.pps ≤ room
    → mp4mux_feed_params (mp4mux_params_annexb m room) (mp4mux_new w h)
      ≡ (record m { w = w; h = h }, true)
unfolding mp4mux_feed_params scan
feed_params-params_annexb m w h room v cs cp ts tp e fits =
    let a = clean_pos m.sps cs in
    let b = clean_pos m.pps cp in
    let new = mp4mux_new w h in
    let found : nals (mp4mux_params_annexb m room) ≡ m.sps ∷ m.pps ∷ [] =
      ap nals (params_annexb-annexb m room a b fits)
      ∙ nals-annexb (m.sps ∷ m.pps ∷ []) (cs, (cp, tt)) in
    let first = scan_sps m.sps new ts (v.sps_read a) v.sps_fits in
    let second =
      scan_pps m.pps (record new { sps = m.sps; codec = codec_of m.sps }) tp v.pps_fits in
    let known : scan (nals (mp4mux_params_annexb m room)) new ≡ record m { w = w; h = h } =
      ap (λ ns. scan ns new) found
      ∙ ap (scan_cb m.pps) first
      ∙ second
      ∙ ap (λ c. record m { w = w; h = h; codec = c }) (sym e) in
    let both : has_params m ≡ true = ground arith in
    ap (λ x. (x, has_params x)) known ∙ ap (λ x. (record m { w = w; h = h }, x)) both
