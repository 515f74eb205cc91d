-- ===== src/Tokens/File.antt =====
-- The file of src/tokens.c: the lines that `save_locked` writes and `load_locked` reads.
use forgectrl.Prelude.{
  ℕ, zero, suc, ◌+◌, ◌*◌, Bool, true, false, ◌&&◌, ◌||◌, List, [], ◌∷◌, ◌++◌, Option, none, some,
  Bytes, length, ltb, ◌==◌, if◌then◌else◌,
}
use forgectrl.Sha256.Compare.{sha256_hex}
use forgectrl.Tokens.Caps.{Caps, Parsed, parsed, bad_cap, caps_parse, caps_text}
use forgectrl.Tokens.Checks.{Token, tokens_max, id_hex, hash_len, hex_ok, name_ok}
use forgectrl.Tokens.Numbers.{print_ld, atol, unhex}

-- A line of the file, without its newline.
unfoldable pub line_of : Token → Bytes
line_of t =
    t.id
    ++ (b':' ∷ sha256_hex t.hash
        ++ (b':' ∷ print_ld t.created
            ++ (b':' ∷ print_ld t.last_used ++ (b':' ∷ caps_text t.caps ++ (b':' ∷ t.name)))))

-- `n < (int)sizeof(line)`, with the newline
abbrev pub fits : Token → Bool
fits t = ltb (length (line_of t) + 1) 512

unfoldable pub all_fit : List Token → Bool
all_fit [] = true
all_fit (t ∷ ts) = fits t && all_fit ts

-- What a save writes.
unfoldable pub file_of : List Token → Bytes
file_of [] = []
file_of (t ∷ ts) = line_of t ++ (10 ∷ file_of ts)

-- `fgets` of at most so many bytes: the line, and what is behind it.
unfoldable pub fgets : ℕ → Bytes → Bytes × Bytes
fgets zero s = ([], s)
fgets (suc n) [] = ([], [])
fgets (suc n) (c ∷ s) =
    let (line, rest) = fgets n s in if c == 10 then (c ∷ [], s) else (c ∷ line, rest)

-- `line[strcspn(line, "\r\n")] = '\0'`; a NUL ends a text too.
abbrev pub ends_line : ℕ → Bool
ends_line c = c == 10 || (c == 13 || c == 0)

unfoldable pub first_line : Bytes → Bytes
first_line [] = []
first_line (c ∷ s) = let rest = first_line s in if ends_line c then [] else c ∷ rest

abbrev pub in_front : ℕ → Option (Bytes × Bytes) → Option (Bytes × Bytes)
in_front c none = none
in_front c (some (a, b)) = some (c ∷ a, b)

-- `strchr(p, ':')`: what is in front of a colon and behind it.
unfoldable pub cut : Bytes → Option (Bytes × Bytes)
cut [] = none
cut (c ∷ s) = let rest = cut s in if c == b':' then some ([], s) else in_front c rest

abbrev pub has_cap : Caps → Bool
has_cap [] = false
has_cap (b ∷ bs) = b || has_cap bs

-- The tests of `load_locked` on the six fields, and the token they make.
abbrev pub token_with : Bytes → Bytes → Bytes → Bytes → Bytes → Parsed → Option Token
token_with id hash created used name (bad_cap word) = none
token_with id hash created used name (parsed s) =
    if length id == id_hex
      && (hex_ok id
          && (length hash == 2 * hash_len && (hex_ok hash && (has_cap s && name_ok name))))
    then some record {
      id = id;
      hash = unhex hash;
      name = name;
      caps = s;
      created = atol created;
      last_used = atol used;
    }
    else none

-- The five cuts of a line, and what they make.
abbrev pub then_cut {ℓ} :
    {A : Type ℓ} → Option (Bytes × Bytes) → (Bytes → Bytes → Option A) → Option A
then_cut none more = none
then_cut (some (field, rest)) more = more field rest

unfoldable pub token_of : Bytes → Option Token
token_of line = then_cut (cut line) (λ id r. then_cut (cut r) (λ hash r.
    then_cut (cut r) (λ created r. then_cut (cut r) (λ used r.
      then_cut (cut r) (λ caps name. token_with id hash created used name (caps_parse caps))))))

abbrev pub kept : Option Token → List Token → List Token
kept none ts = ts
kept (some t) ts = t ∷ ts

abbrev pub room_left : Option Token → ℕ → ℕ → ℕ
room_left none room less = room
room_left (some t) room less = less

-- The loop of `load_locked` with room for so many tokens, for at most so many lines.
unfoldable pub load_from : ℕ → ℕ → Bytes → List Token
load_from zero room s = []
load_from (suc lines) zero s = []
load_from (suc lines) (suc room) [] = []
load_from (suc lines) (suc room) (c ∷ s) =
    let x = fgets 511 (c ∷ s) in
    let t = token_of (first_line x.0) in kept t (load_from lines (room_left t (suc room) room) x.1)

-- `load_locked`; no file holds no tokens.
abbrev pub load : Option Bytes → List Token
load none = []
load (some text) = load_from (length text) tokens_max text
