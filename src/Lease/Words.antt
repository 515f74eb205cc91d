-- ===== src/Lease/Words.antt =====
-- On the lengths of what `lease_words` of src/lease.c prints, and the buffers of its callers.
use forgectrl.Prelude.{
  ◌+◌, ◌≤◌, ◌<◌, ◌≡◌, ap, inl, inr, true, List, [], ◌∷◌, ◌++◌, some, Bytes, codes, strip_prefix,
  strip_prefix-append, length, length-append, arith, Option-cases,
}
use forgectrl.Lease.{words, words_from, what, owner_max, usable_name}

-- The rows' words are at most 14 bytes long.
abbrev Short : List (Bytes × Bytes) → Type 0
Short [] = Unit
Short ((p, t) ∷ rows) = (length t ≤ 14) × Short rows

-- One row's text around what follows its prefix.
length-row :
    (p t owner rest : Bytes)
    → length t ≤ 14
    → strip_prefix p owner ≡ some rest
    → length (t ++ codes " (" ++ rest ++ codes ")") ≤ length owner + 23
length-row p t owner rest s e = omega (
  arith,
  length-append (t ++ codes " (" ++ rest) (codes ")"),
  length-append (t ++ codes " (") rest,
  length-append t (codes " ("),
  length-append p rest,
  ap (length {0}) (strip_prefix-append p owner rest e),
)

length-words_from :
    (rows : List (Bytes × Bytes)) (owner : Bytes)
    → Short rows
    → length (words_from rows owner) ≤ length owner + 23
unfolding words_from
length-words_from [] owner s = ground arith
length-words_from ((p, t) ∷ rows) owner s = elim (Option-cases (strip_prefix p owner)) [
  | inl e ↦ rw (e, words_from) (length-words_from rows owner s.1)
  | inr (rest, e) ↦ rw (e, words_from) (length-row p t owner rest s.0 e)
]

length-usable : (owner : Bytes) → usable_name (some owner) ≡ true → length owner < owner_max
unfolding usable_name
length-usable [] u = omega arith
length-usable (c ∷ s) u = ground arith

-- A usable name in words is shorter than the buffer of LEASE_OWNER_MAX + 32 bytes that takes it,
-- its NUL included, so no holder is cut.
pub words_fit :
    (owner : Bytes) → usable_name (some owner) ≡ true → length (words owner) + 1 ≤ owner_max + 32
unfolding words
words_fit owner u = omega (arith, length-words_from what owner (omega arith), length-usable owner u)
