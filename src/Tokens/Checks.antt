-- ===== src/Tokens/Checks.antt =====
-- The tests on texts in src/tokens.c, and the token as its table keeps it.
use forgectrl.Prelude.{
  ℕ, ◌-◌, Bool, true, false, ◌&&◌, ◌||◌, [], ◌∷◌, Bytes, codes, strip_prefix, length, get_or, drop,
  leb, ltb, ◌==◌, if◌then◌else◌,
}
use forgectrl.Tokens.Caps.{Caps, is_some}

-- TOKENS_MAX, TOKENS_NAME_MAX, TOKENS_PREFIX, TOKENS_TEXT_LEN, TOKENS_ID_HEX and SHA256_LEN
abbrev pub tokens_max : ℕ
tokens_max = 16

abbrev pub name_max : ℕ
name_max = 40

abbrev pub prefix : Bytes
prefix = codes "fft_"

abbrev pub text_len : ℕ
text_len = 36

abbrev pub id_hex : ℕ
id_hex = 8

abbrev pub hash_len : ℕ
hash_len = 32

abbrev pub is_digit : ℕ → Bool
is_digit c = leb b'0' c && leb c b'9'

-- `isalnum` of the C locale
abbrev pub is_alnum : ℕ → Bool
is_alnum c = is_digit c || (leb b'A' c && leb c b'Z' || leb b'a' c && leb c b'z')

-- `isxdigit`, and not `isupper`
abbrev pub is_hex : ℕ → Bool
is_hex c = is_digit c || leb b'a' c && leb c b'f'

-- `hex_ok` over the whole of a text
unfoldable pub hex_ok : Bytes → Bool
hex_ok [] = true
hex_ok (c ∷ s) = is_hex c && hex_ok s

abbrev pub name_char : ℕ → Bool
name_char c = is_alnum c || (c == b' ' || (c == b'.' || (c == b'_' || c == b'-')))

unfoldable pub name_chars : Bytes → Bool
name_chars [] = true
name_chars (c ∷ s) = name_char c && name_chars s

-- `name_ok`
unfoldable pub name_ok : Bytes → Bool
name_ok name =
    if length name == 0
      || ltb name_max (length name)
      || get_or name 0 0 == b' '
      || get_or name (length name - 1) 0 == b' '
    then false
    else name_chars name

-- `tokens_looks_scoped`
abbrev pub tokens_looks_scoped : Bytes → Bool
tokens_looks_scoped presented = is_some (strip_prefix prefix presented)

-- What `tokens_check` asks of a text before it hashes it.
abbrev pub is_token_text : Bytes → Bool
is_token_text presented =
    tokens_looks_scoped presented && length presented == text_len && hex_ok (drop 4 presented)

-- A C `long`.
pub data ℤ : Type 0 where
  pos negsuc : ℕ → ℤ

-- `token_t`
pub record Token : Type 0 where
  pub id : Bytes
  pub hash : Bytes
  pub name : Bytes
  pub caps : Caps
  pub created : ℤ
  pub last_used : ℤ
