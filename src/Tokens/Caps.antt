-- ===== src/Tokens/Caps.antt =====
-- The capabilities of src/tokens.c: the closed list, and `caps_parse` and `caps_text` of a set.
use forgectrl.Prelude.{
  ℕ, zero, suc, ◌-◌, Bool, true, false, ◌&&◌, ◌||◌, List, [], ◌∷◌, ◌++◌, Option, none, some, Bytes,
  codes, same, strip_prefix, length, set, take, drop, ltb, ◌==◌, if◌then◌else◌,
}

-- `CAPS`
abbrev pub all_caps : List Bytes
all_caps =
    codes "machine.read"
    ∷ codes "events"
    ∷ codes "camera.lid"
    ∷ codes "camera.head"
    ∷ codes "motion.jog"
    ∷ codes "motion.job"
    ∷ []

-- The `unsigned` set of capabilities as its bits, bit 0 first.
abbrev pub Caps : Type 0
Caps = List Bool

abbrev pub no_caps : Caps
no_caps = false ∷ false ∷ false ∷ false ∷ false ∷ false ∷ []

-- `cap_index`, from the capability with the number `i` on: -1 is `none`.
unfoldable pub index_from : ℕ → List Bytes → Bytes → Option ℕ
index_from i [] cap = none
index_from i (c ∷ cs) cap = if same c cap then some i else index_from (suc i) cs cap

abbrev pub cap_index : Bytes → Option ℕ
cap_index cap = index_from 0 all_caps cap

abbrev pub is_some {ℓ} : {A : Type ℓ} → Option A → Bool
is_some none = false
is_some (some a) = true

-- `tokens_cap_known`
abbrev pub tokens_cap_known : Bytes → Bool
tokens_cap_known cap = is_some (cap_index cap)

abbrev pub is_sep : ℕ → Bool
is_sep c = c == b' ' || c == b','

-- `while (*p == ' ' || *p == ',') p++`
unfoldable pub skip_seps : Bytes → Bytes
skip_seps [] = []
skip_seps (c ∷ p) = if is_sep c then skip_seps p else c ∷ p

-- `strcspn(p, ", ")`: the word, and what is behind it.
unfoldable pub word_of : Bytes → Bytes × Bytes
word_of [] = ([], [])
word_of (c ∷ p) = let (word, rest) = word_of p in if is_sep c then ([], c ∷ p) else (c ∷ word, rest)

-- The set, or the word that is no capability.
pub data Parsed : Type 0 where
  parsed : Caps → Parsed
  bad_cap : Bytes → Parsed

abbrev pub with_cap : Caps → Option ℕ → Bytes → (Caps → Parsed) → Parsed
with_cap s none word more = bad_cap (take 40 word)
with_cap s (some i) word more = more (set s i true)

abbrev pub parse_word : Caps → Bytes × Bytes → (Caps → Parsed) → Parsed
parse_word s ([], rest) more = parsed s
parse_word s (c ∷ word, rest) more = with_cap s (cap_index (c ∷ word)) (c ∷ word) more

-- The loop of `caps_parse`, for at most so many rounds.
unfoldable pub caps_from : ℕ → Caps → Bytes → Parsed
caps_from zero s p = parsed s
caps_from (suc rounds) s p =
    let x = word_of (skip_seps p) in parse_word s x (λ s'. caps_from rounds s' x.1)

-- `caps_parse`
abbrev pub caps_parse : Bytes → Parsed
caps_parse csv = caps_from (suc (length csv)) no_caps csv

-- The names of the capabilities of a set, in the order of the list.
unfoldable pub names_of : Caps → List Bytes → List Bytes
names_of [] cs = []
names_of (b ∷ bs) [] = []
names_of (b ∷ bs) (c ∷ cs) = let rest = names_of bs cs in if b then c ∷ rest else rest

unfoldable pub comma_joined : List Bytes → Bytes
comma_joined [] = []
comma_joined (c ∷ []) = c
comma_joined (c ∷ d ∷ cs) = c ++ (b',' ∷ comma_joined (d ∷ cs))

-- `caps_text` without a quote; every buffer given to it takes all six.
abbrev pub caps_text : Caps → Bytes
caps_text s = comma_joined (names_of s all_caps)

-- `!strcmp(cap + n - 4, ".any")`, where there is something in front.
abbrev pub is_any : Bytes → Bool
is_any cap = ltb 4 (length cap) && same (drop (length cap - 4) cap) (codes ".any")

-- A capability that is held against the one that is asked for.
abbrev pub covers : Bytes → Bytes → Bool
covers cap c =
    if is_any cap then is_some (strip_prefix (take (length cap - 3) cap) c) else same c cap

-- The loop over the bits of a token's set.
unfoldable pub holds : Bytes → Caps → List Bytes → Bool
holds cap [] cs = false
holds cap (b ∷ bs) [] = false
holds cap (b ∷ bs) (c ∷ cs) = b && covers cap c || holds cap bs cs
