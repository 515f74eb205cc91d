-- ===== src/Tokens/Reload.antt =====
-- On the file of src/tokens.c as a whole, saved and loaded.
use forgectrl.Prelude.{
  ℕ, zero, suc, ◌≤◌, ◌<◌, ◌≡◌, refl, ap, ◌∙◌, true, List, [], ◌∷◌, ◌++◌, Bytes, length,
  length-append, arith,
}
use forgectrl.Tokens.Checks.{Token, tokens_max}
use forgectrl.Tokens.File.{
  line_of, all_fit, file_of, fgets, first_line, token_of, load_from, kept, room_left,
}
use forgectrl.Tokens.Lines.{
  IsToken, ended, line_of-ended, fits_lem, token_of-line_of, fgets_lem, first_line_lem,
}
use forgectrl.Tokens.Store.{Store, World, save, tokens_init}

abbrev pub AllTokens : List Token → Type 0
AllTokens [] = Unit
AllTokens (t ∷ ts) = IsToken t × AllTokens ts

pub all_fit_lem : (ts : List Token) → AllTokens ts → all_fit ts ≡ true
unfolding all_fit
all_fit_lem [] v = refl
all_fit_lem (t ∷ ts) v = rw (fits_lem t v.0) (all_fit_lem ts v.1)

abbrev after_line : ℕ → ℕ → Bytes → Bytes → List Token
after_line lines room line rest =
    kept (token_of line) (load_from lines (room_left (token_of line) (suc room) room) rest)

first_step :
    (lines room : ℕ) (text rest : Bytes)
    → load_from (suc lines) (suc room) (text ++ (10 ∷ rest))
      ≡ (let x = fgets 511 (text ++ (10 ∷ rest)) in after_line lines room (first_line x.0) x.1)
unfolding load_from
first_step lines room [] rest = refl
first_step lines room (c ∷ s) rest = refl

load_line :
    (lines room : ℕ) (text rest : Bytes)
    → ended text ≡ true
    → length text < 511
    → load_from (suc lines) (suc room) (text ++ (10 ∷ rest)) ≡ after_line lines room text rest
load_line lines room text rest h k =
    first_step lines room text rest
    ∙ ap (λ x. after_line lines room (first_line x.0) x.1) (fgets_lem 511 text rest h k)
    ∙ ap (λ l. after_line lines room l rest) (first_line_lem text h)

load_from-file_of :
    (lines room : ℕ) (ts : List Token)
    → AllTokens ts
    → length ts ≤ room
    → length (file_of ts) ≤ lines
    → load_from lines room (file_of ts) ≡ ts
unfolding file_of
load_from-file_of zero room [] v h k = unfold load_from in refl
load_from-file_of (suc lines) zero [] v h k = unfold load_from in refl
load_from-file_of (suc lines) (suc room) [] v h k = unfold load_from in refl
load_from-file_of zero room (t ∷ ts) v h k =
    absurd (omega (arith, length-append (line_of t) (10 ∷ file_of ts)))
load_from-file_of (suc lines) zero (t ∷ ts) v h k = absurd (omega arith)
load_from-file_of (suc lines) (suc room) (t ∷ ts) v h k =
    let n : length (line_of t) < 511 = let f = fits_lem t v.0 in ground arith in
    load_line lines room (line_of t) (file_of ts) (line_of-ended t v.0) n
    ∙ ap (λ o. kept o (load_from lines (room_left o (suc room) room) (file_of ts)))
        (token_of-line_of t v.0)
    ∙ ap (λ r. t ∷ r)
        (load_from-file_of lines room ts v.1 (omega arith)
          (omega (arith, length-append (line_of t) (10 ∷ file_of ts))))

-- A save of at most 16 well-formed tokens on a disk that takes it is done, and a daemon that
-- starts on its file has the same tokens.
pub tokens_init-save :
    (w later : World) (s : Store)
    → AllTokens s.tokens
    → length s.tokens ≤ tokens_max
    → w.disk ≡ true
    → ((save w s).1 ≡ true) × ((tokens_init later (save w s).0).tokens ≡ s.tokens)
unfolding save
tokens_init-save w later s v h d =
    let f = all_fit_lem s.tokens v in
    rw (d, f)
      (refl, load_from-file_of (length (file_of s.tokens)) tokens_max s.tokens v h (omega arith))
