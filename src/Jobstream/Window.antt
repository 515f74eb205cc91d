-- ===== src/Jobstream/Window.antt =====
-- On the ring of line lengths in `jobstream_run` of src/jobstream.c, and the bytes in flight.
use forgectrl.Prelude.{
  ℕ, zero, suc, ◌+◌, ◌-◌, ◌%◌, ◌≤◌, ◌<◌, ◌≡◌, refl, ◌≢◌, ap, true, List, [], ◌∷◌, length, set,
  get_or, arith,
}
use forgectrl.Jobstream.State.{Stream, inflight_bytes, inflight_lines}
use forgectrl.Jobstream.Answers.{acknowledge}

-- The lengths of `n` lines from the `k`-th on, added up.
abbrev pub total : List ℕ → ℕ → ℕ → ℕ
total lens k zero = 0
total lens k (suc n) = get_or lens (k % 32) 0 + total lens (k + 1) n

get_or-set_self : (xs : List ℕ) (i v d : ℕ) → i < length xs → get_or (set xs i v) i d ≡ v
get_or-set_self [] i v d h = absurd (omega arith)
get_or-set_self (x ∷ xs) zero v d h = refl
get_or-set_self (x ∷ xs) (suc i) v d h = get_or-set_self xs i v d (omega arith)

get_or-set_ne : (xs : List ℕ) (i j v d : ℕ) → i ≢ j → get_or (set xs i v) j d ≡ get_or xs j d
get_or-set_ne [] i j v d h = refl
get_or-set_ne (x ∷ xs) zero zero v d h = absurd (h refl)
get_or-set_ne (x ∷ xs) zero (suc j) v d h = refl
get_or-set_ne (x ∷ xs) (suc i) zero v d h = refl
get_or-set_ne (x ∷ xs) (suc i) (suc j) v d h = get_or-set_ne xs i j v d (λ e. h (ap suc e))

-- One more line at the end, in a ring of 32 that has room for it.
pub total-set :
    (lens : List ℕ) (n k e v : ℕ)
    → length lens ≡ 32
    → n < 32
    → e ≡ k + n
    → total (set lens (e % 32) v) k (suc n) ≡ total lens k n + v
total-set lens zero k e v l h q =
    let f : e % 32 ≡ k % 32 = omega arith in
    rw f (omega (arith, get_or-set_self lens (k % 32) v 0 (omega arith)))
total-set lens (suc n) k e v l h q =
    let ne : e % 32 ≢ k % 32 = omega arith in
    omega (
      arith,
      get_or-set_ne lens (e % 32) (k % 32) v 0 ne,
      total-set lens n (k + 1) e v l (omega arith) (omega arith),
    )

-- Lines and bytes that are out are counted rightly and within their bounds, and a barrier is alone.
pub record IsValid (s : Stream) : Type 0 where
  pub order : s.acked ≤ s.sent
  pub lines : s.sent ≤ s.acked + inflight_lines
  pub bytes : s.inflight ≤ inflight_bytes
  pub exact : s.inflight ≡ total s.sent_len s.acked (s.sent - s.acked)
  pub ring : length s.sent_len ≡ inflight_lines
  pub alone : s.barrier ≡ true → s.sent ≡ s.acked + 1

total_step :
    (lens : List ℕ) (k n : ℕ)
    → n ≢ 0
    → total lens k n ≡ get_or lens (k % 32) 0 + total lens (k + 1) (n - 1)
total_step lens k zero h = absurd (h refl)
total_step lens k (suc n) h = ap (λ m. get_or lens (k % 32) 0 + total lens (k + 1) m) (omega arith)

pub acknowledge-IsValid :
    (now : ℕ) (s : Stream) → IsValid s → s.acked < s.sent → IsValid (acknowledge now s)
unfolding acknowledge
acknowledge-IsValid now s v h =
    let e : s.sent - s.acked - 1 ≡ s.sent - (s.acked + 1) = omega arith in
    ground (
      arith,
      total_step s.sent_len s.acked (s.sent - s.acked),
      ap (total s.sent_len (s.acked + 1)) e,
    )
