-- ===== src/Tokens/Lines.antt =====
-- On one line of the file of src/tokens.c, written and read.
use forgectrl.Prelude.{
  ℕ, zero, suc, ◌+◌, ◌≤◌, ◌<◌, ◌≡◌, refl, ap, ◌∙◌, Bool, true, false, not, ◌&&◌, [], ◌∷◌, ◌++◌,
  some, Bytes, length, length-append, leb, ◌==◌, arith,
}
use forgectrl.Sha256.Compare.{sha256_hex}
use forgectrl.Tokens.Caps.{
  Caps, Parsed, parsed, bad_cap, caps_parse, caps_text, caps_from, word_of, skip_seps, index_from,
  names_of, comma_joined,
}
use forgectrl.Tokens.Checks.{Token, ℤ, pos, negsuc, id_hex, hash_len, hex_ok, name_ok, name_chars}
use forgectrl.Tokens.Numbers.{
  print_ld, decimal, decimal-AllDigits, length-decimal, AllDigits, IsLong, AllBytes, atol-print_ld,
  hex_ok-sha256_hex, length-sha256_hex, unhex-sha256_hex,
}
use forgectrl.Tokens.File.{
  line_of, fits, cut, ends_line, first_line, fgets, token_of, token_with, has_cap,
}

-- A text without a colon and without the end of a line.
unfoldable pub plain : Bytes → Bool
plain [] = true
plain (c ∷ s) = not (c == b':') && (not (ends_line c) && plain s)

hex_ok-plain : (s : Bytes) → hex_ok s ≡ true → plain s ≡ true
unfolding plain hex_ok
hex_ok-plain [] h = refl
hex_ok-plain (c ∷ s) h = ground (arith, hex_ok-plain s)

digits-plain : (s : Bytes) → AllDigits s → plain s ≡ true
unfolding plain
digits-plain [] h = refl
digits-plain (c ∷ s) h = ground (arith, h.0, digits-plain s h.1)

name_chars-plain : (s : Bytes) → name_chars s ≡ true → plain s ≡ true
unfolding plain name_chars
name_chars-plain [] h = refl
name_chars-plain (c ∷ s) h = ground (arith, name_chars-plain s)

print_ld-plain : (z : ℤ) → plain (print_ld z) ≡ true
unfolding print_ld
print_ld-plain (pos n) = digits-plain (decimal 20 n) (decimal-AllDigits 20 n)
print_ld-plain (negsuc n) =
    unfold plain in digits-plain (decimal 20 (suc n)) (decimal-AllDigits 20 (suc n))

length-print_ld : (z : ℤ) → length (print_ld z) ≤ 21
unfolding print_ld
length-print_ld (pos n) = omega (arith, length-decimal 20 n)
length-print_ld (negsuc n) = omega (arith, length-decimal 20 (suc n))

-- A test that holds of every set of so many bits.
all_sets : ℕ → (Caps → Bool) → Bool
all_sets zero p = p []
all_sets (suc n) p = all_sets n (λ s. p (true ∷ s)) && all_sets n (λ s. p (false ∷ s))

all_sets_hold :
    (n : ℕ) (p : Caps → Bool) → all_sets n p ≡ true → (s : Caps) → length s ≡ n → p s ≡ true
unfolding all_sets
all_sets_hold zero p h [] k = h
all_sets_hold zero p h (b ∷ s) k = absurd (omega arith)
all_sets_hold (suc n) p h [] k = absurd (omega arith)
all_sets_hold (suc n) p h (true ∷ s) k =
    all_sets_hold n (λ s. p (true ∷ s)) (ground arith) s (omega arith)
all_sets_hold (suc n) p h (false ∷ s) k =
    all_sets_hold n (λ s. p (false ∷ s)) (ground arith) s (omega arith)

same_bits : Caps → Caps → Bool
same_bits [] [] = true
same_bits (true ∷ s) (true ∷ r) = same_bits s r
same_bits (false ∷ s) (false ∷ r) = same_bits s r
same_bits s r = false

same_bits→eq : (s r : Caps) → same_bits s r ≡ true → s ≡ r
unfolding same_bits
same_bits→eq [] [] h = refl
same_bits→eq (true ∷ s) (true ∷ r) h = ap (λ x. true ∷ x) (same_bits→eq s r h)
same_bits→eq (false ∷ s) (false ∷ r) h = ap (λ x. false ∷ x) (same_bits→eq s r h)
same_bits→eq [] (b ∷ r) h = ground arith
same_bits→eq (b ∷ s) [] h = ground arith
same_bits→eq (true ∷ s) (false ∷ r) h = ground arith
same_bits→eq (false ∷ s) (true ∷ r) h = ground arith

is_parsed : Parsed → Caps → Bool
is_parsed (parsed s) r = same_bits s r
is_parsed (bad_cap word) r = false

is_parsed→eq : (p : Parsed) (r : Caps) → is_parsed p r ≡ true → p ≡ parsed r
unfolding is_parsed
is_parsed→eq (parsed s) r h = ap parsed (same_bits→eq s r h)
is_parsed→eq (bad_cap word) r h = ground arith

-- Any of the 64 sets: its text is plain, short, and parsed to the set.
set_is_read : Caps → Bool
set_is_read s =
    is_parsed (caps_parse (caps_text s)) s && (plain (caps_text s) && leb (length (caps_text s)) 64)

sets_are_read : all_sets 6 set_is_read ≡ true
unfolding all_sets set_is_read is_parsed same_bits plain caps_from word_of skip_seps index_from
    names_of comma_joined
sets_are_read = refl

-- `caps_parse` reads back what `caps_text` writes, for every set of capabilities.
pub caps_parse-caps_text : (s : Caps) → length s ≡ 6 → caps_parse (caps_text s) ≡ parsed s
unfolding set_is_read
caps_parse-caps_text s h =
    let k = all_sets_hold 6 set_is_read sets_are_read s h in
    is_parsed→eq (caps_parse (caps_text s)) s (ground arith)

caps_text-plain : (s : Caps) → length s ≡ 6 → plain (caps_text s) ≡ true
unfolding set_is_read
caps_text-plain s h = let k = all_sets_hold 6 set_is_read sets_are_read s h in ground arith

length-caps_text : (s : Caps) → length s ≡ 6 → length (caps_text s) ≤ 64
unfolding set_is_read
length-caps_text s h = let k = all_sets_hold 6 set_is_read sets_are_read s h in ground arith

-- A token as every operation keeps it: the bounds and the characters of its fields.
pub record IsToken (t : Token) : Type 0 where
  pub id_length : length t.id ≡ id_hex
  pub id_chars : hex_ok t.id ≡ true
  pub hash_length : length t.hash ≡ hash_len
  pub hash_bytes : AllBytes t.hash
  pub name_fine : name_ok t.name ≡ true
  pub caps_length : length t.caps ≡ 6
  pub some_cap : has_cap t.caps ≡ true
  pub created_long : IsLong t.created
  pub used_long : IsLong t.last_used

name_ok-chars : (s : Bytes) → name_ok s ≡ true → (name_chars s ≡ true) × (length s ≤ 40)
unfolding name_ok
name_ok-chars s h = ground arith

pub plain-append : (s r : Bytes) → plain s ≡ true → plain r ≡ true → plain (s ++ r) ≡ true
unfolding plain
plain-append [] r p q = q
plain-append (c ∷ s) r p q = ground (arith, plain-append s r)

cut_lem : (s r : Bytes) → plain s ≡ true → cut (s ++ (b':' ∷ r)) ≡ some (s, r)
unfolding cut plain
cut_lem [] r h = refl
cut_lem (c ∷ s) r h =
    let e : (c == b':') ≡ false = ground arith in rw (e, cut_lem s r (ground arith)) refl

-- What is read in front of the end of a line.
unfoldable pub ended : Bytes → Bool
ended [] = true
ended (c ∷ s) = not (ends_line c) && ended s

ended-append : (s r : Bytes) → ended s ≡ true → ended r ≡ true → ended (s ++ r) ≡ true
unfolding ended
ended-append [] r p q = q
ended-append (c ∷ s) r p q = ground (arith, ended-append s r)

plain-ended : (s : Bytes) → plain s ≡ true → ended s ≡ true
unfolding ended plain
plain-ended [] h = refl
plain-ended (c ∷ s) h = ground (arith, plain-ended s)

field-ended : (s r : Bytes) → plain s ≡ true → ended r ≡ true → ended (s ++ (b':' ∷ r)) ≡ true
field-ended s r p q = ended-append s (b':' ∷ r) (plain-ended s p) (unfold ended in q)

pub fgets_lem :
    (n : ℕ) (s r : Bytes)
    → ended s ≡ true
    → length s < n
    → fgets n (s ++ (10 ∷ r)) ≡ (s ++ (10 ∷ []), r)
unfolding fgets ended
fgets_lem zero s r h k = absurd (omega arith)
fgets_lem (suc n) [] r h k = refl
fgets_lem (suc n) (c ∷ s) r h k =
    let e : (c == 10) ≡ false = ground arith in
    rw (e, fgets_lem n s r (ground arith) (omega arith)) refl

pub first_line_lem : (s : Bytes) → ended s ≡ true → first_line (s ++ (10 ∷ [])) ≡ s
unfolding first_line ended
first_line_lem [] h = refl
first_line_lem (c ∷ s) h =
    let e : ends_line c ≡ false = ground arith in
    rw e (ap (λ r. c ∷ r) (first_line_lem s (ground arith)))

token_of_fields :
    (id hash created used caps name : Bytes)
    → plain id ≡ true
    → plain hash ≡ true
    → plain created ≡ true
    → plain used ≡ true
    → plain caps ≡ true
    → token_of
        (id ++ (b':' ∷ hash ++ (b':' ∷ created ++ (b':' ∷ used ++ (b':' ∷ caps ++ (b':' ∷ name))))))
      ≡ token_with id hash created used name (caps_parse caps)
unfolding token_of
token_of_fields id hash created used caps name a b c d e =
    rw
      (
        cut_lem id (hash ++ (b':' ∷ created ++ (b':' ∷ used ++ (b':' ∷ caps ++ (b':' ∷ name))))) a,
        cut_lem hash (created ++ (b':' ∷ used ++ (b':' ∷ caps ++ (b':' ∷ name)))) b,
        cut_lem created (used ++ (b':' ∷ caps ++ (b':' ∷ name))) c,
        cut_lem used (caps ++ (b':' ∷ name)) d,
        cut_lem caps name e,
      )
      refl

module _ (t : Token) (v : IsToken t) where
  id-plain : plain t.id ≡ true
  id-plain = hex_ok-plain t.id v.id_chars

  hash-plain : plain (sha256_hex t.hash) ≡ true
  hash-plain = hex_ok-plain (sha256_hex t.hash) (hex_ok-sha256_hex t.hash v.hash_bytes)

  pub line_of-ended : ended (line_of t) ≡ true
  unfolding line_of
  line_of-ended = field-ended t.id _ id-plain (
      field-ended (sha256_hex t.hash) _ hash-plain (
        field-ended (print_ld t.created) _ (print_ld-plain t.created) (
          field-ended (print_ld t.last_used) _ (print_ld-plain t.last_used) (
            field-ended (caps_text t.caps) t.name (caps_text-plain t.caps v.caps_length) (
              plain-ended t.name (name_chars-plain t.name (name_ok-chars t.name v.name_fine).0))))))

  -- Every token fits the buffer of a line.
  pub fits_lem : fits t ≡ true
  unfolding line_of
  fits_lem =
      let caps = caps_text t.caps ++ (b':' ∷ t.name) in
      let used = print_ld t.last_used ++ (b':' ∷ caps) in
      let created = print_ld t.created ++ (b':' ∷ used) in
      let hash = sha256_hex t.hash ++ (b':' ∷ created) in
      let whole : length (t.id ++ (b':' ∷ hash)) + 1 < 512 = omega (
        arith,
        length-append t.id (b':' ∷ hash),
        length-append (sha256_hex t.hash) (b':' ∷ created),
        length-append (print_ld t.created) (b':' ∷ used),
        length-append (print_ld t.last_used) (b':' ∷ caps),
        length-append (caps_text t.caps) (b':' ∷ t.name),
        length-sha256_hex t.hash,
        v.id_length,
        v.hash_length,
        length-print_ld t.created,
        length-print_ld t.last_used,
        length-caps_text t.caps v.caps_length,
        (name_ok-chars t.name v.name_fine).1,
      ) in
      ground (arith, whole)

  -- A line that is written is read as the token it was written for.
  pub token_of-line_of : token_of (line_of t) ≡ some t
  unfolding line_of
  token_of-line_of =
      let fields =
        token_of_fields t.id (sha256_hex t.hash) (print_ld t.created) (print_ld t.last_used)
          (caps_text t.caps) t.name id-plain hash-plain (print_ld-plain t.created)
          (print_ld-plain t.last_used) (caps_text-plain t.caps v.caps_length) in
      let hex = hex_ok-sha256_hex t.hash v.hash_bytes in
      let n : (length (sha256_hex t.hash) == 64) ≡ true =
        ground (arith, length-sha256_hex t.hash, v.hash_length) in
      fields
      ∙ ap (token_with t.id (sha256_hex t.hash) (print_ld t.created) (print_ld t.last_used) t.name)
          (caps_parse-caps_text t.caps v.caps_length)
      ∙ rw
          (
            v.id_length,
            v.id_chars,
            n,
            hex,
            v.some_cap,
            v.name_fine,
            unhex-sha256_hex t.hash v.hash_bytes,
            atol-print_ld t.created v.created_long,
            atol-print_ld t.last_used v.used_long,
          )
          refl
