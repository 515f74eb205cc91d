-- ===== src/Holds/Verdict.antt =====
-- `judge` and `holds_read`, behind the library's parsing of a file.
use forgectrl.Prelude.{
  ℕ, zero, suc, ◌+◌, ◌-◌, Bool, true, false, not, ◌&&◌, ◌||◌, List, [], ◌∷◌, ◌++◌, Option, none,
  some, Bytes, codes, same, length, take, ltb, leb, ◌==◌, if◌then◌else◌,
}

-- HOLDS_MAX and, in milliseconds, HOLDS_FRESH_S
abbrev pub holds_max : ℕ
holds_max = 32

abbrev pub fresh_ms : ℕ
fresh_ms = 2000

-- What the parser gives for a file whose members are all there and of their types.
pub record Hold : Type 0 where
  pub id : Bytes
  pub required : Bool
  pub raised : Bool
  pub reason : Bytes
  pub at : ℕ

-- A hold file: its name without `.json`, and what it holds; `none` cannot be read or parsed.
pub record File : Type 0 where
  pub stem : Bytes
  pub content : Option Hold

-- `holds_t`
pub record Holds : Type 0 where
  pub standing : Bool
  pub files : ℕ
  pub raised_holds : ℕ
  pub stale_required : ℕ
  pub stale_advisory : ℕ
  pub unreadable : ℕ
  pub reason : Bytes

abbrev pub no_holds : Holds
no_holds = record {
  standing = false;
  files = 0;
  raised_holds = 0;
  stale_required = 0;
  stale_advisory = 0;
  unreadable = 0;
  reason = [];
}

-- `plain`: printable ASCII without a quote or a backslash.
abbrev pub is_plain : ℕ → Bool
is_plain c = leb 32 c && leb c 126 && not (c == 34) && not (c == 92)

unfoldable pub plain : Bytes → Bytes
plain [] = []
plain (c ∷ s) = (if is_plain c then c else b'?') ∷ plain s

-- `stand`, into a reason of 112 bytes
unfoldable pub stand : Bytes → Holds → Holds
stand text h = record h { standing = true; reason = if h.standing then h.reason else take 111 text }

unfoldable pub not_answering : Bytes → Bytes
not_answering id = take 64 id ++ codes ": the extension host is not answering"

abbrev pub or_hold : Bytes → Bytes
or_hold [] = codes "hold"
or_hold why = why

abbrev pub is_stale : ℕ → Hold → Bool
is_stale now j = ltb fresh_ms (now - j.at) || ltb fresh_ms (j.at - now)

-- The part of `judge` behind the checks of the file.
unfoldable pub weigh : ℕ → Hold → Holds → Holds
weigh now j h =
    let id = plain j.id in
    if is_stale now j
    then (if j.required
        then stand (not_answering id) (record h { stale_required = h.stale_required + 1 })
        else record h { stale_advisory = h.stale_advisory + 1 })
    else if j.raised
    then stand (take 64 id ++ codes ": " ++ take 44 (or_hold (plain (take 111 j.reason))))
        (record h { raised_holds = h.raised_holds + 1 })
    else h

-- The file is named after the package it speaks for, and the name fits.
abbrev pub speaks_for : Bytes → Hold → Bool
speaks_for stem j = same j.id stem && ltb (length stem) 72

abbrev pub judge_content : ℕ → Bytes → Option Hold → Holds → Holds × Bool
judge_content now stem none h = (h, false)
judge_content now stem (some j) h = if speaks_for stem j then (weigh now j h, true) else (h, false)

-- `judge`: false is its -1.
unfoldable pub judge : ℕ → File → Holds → Holds × Bool
judge now f h = judge_content now f.stem f.content h

abbrev pub unread : Bytes → Holds → Holds
unread stem h =
    stand (codes "hold file " ++ plain (take 64 (stem ++ codes ".json")) ++ codes " cannot be read")
      (record h { unreadable = h.unreadable + 1 })

-- One of the files that are read.
unfoldable pub read_file : ℕ → File → Holds → Holds
read_file now f h =
    let (h', read) = judge now f (record h { files = h.files + 1 }) in
    if read then h' else unread f.stem h'

-- The loop over the files, of which the first HOLDS_MAX are read.
unfoldable pub read_files : ℕ → ℕ → List File → Holds → Holds
read_files now i [] h = h
read_files now i (f ∷ fs) h =
    read_files now (suc i) fs (if ltb i holds_max then read_file now f h else h)

-- What `scandir` gives: the sorted entries, no such directory, or an error.
pub data Scan (A : Type 0) : Type 0 where
  entries : List A → Scan A
  missing broken : Scan A

abbrev pub too_many : ℕ → Holds → Holds
too_many n h =
    if ltb holds_max n
    then stand (codes "more hold files than there are package accounts")
        (record h { unreadable = h.unreadable + (n - holds_max) })
    else h

unfoldable pub read_holds : ℕ → Scan File → Holds
read_holds now missing = no_holds
read_holds now broken =
    stand (codes "the hold files cannot be read") (record no_holds { unreadable = 1 })
read_holds now (entries fs) = too_many (length fs) (read_files now 0 fs no_holds)

-- The packages that the files read speak for, cut to 71 bytes.
unfoldable pub spoken : ℕ → Scan File → List Bytes
spoken n missing = []
spoken n broken = []
spoken zero (entries fs) = []
spoken (suc n) (entries []) = []
spoken (suc n) (entries (f ∷ fs)) = take 71 (f.stem) ∷ spoken n (entries fs)

abbrev pub any_same : Bytes → List Bytes → Bool
any_same name [] = false
any_same name (s ∷ ss) = same s name || any_same name ss

-- The loop over the markers of required holds.
unfoldable pub read_markers : ℕ → List Bytes → List Bytes → Holds → Holds
read_markers i said [] h = h
read_markers i said (m ∷ ms) h = read_markers (suc i) said ms (
    if not (any_same m said) && ltb i holds_max
    then stand (not_answering m) (record h { stale_required = h.stale_required + 1 })
    else h)

unfoldable pub read_required : List Bytes → Scan Bytes → Holds → Holds
read_required said missing h = h
read_required said broken h =
    stand (codes "the required holds cannot be read") (record h { unreadable = h.unreadable + 1 })
read_required said (entries ms) h = read_markers 0 said ms h

-- `holds_read`, with a directory of markers.
unfoldable pub holds_read : ℕ → Scan File → Scan Bytes → Holds
holds_read now fs ms = read_required (spoken holds_max fs) ms (read_holds now fs)
