-- ===== src/Session/Brake.antt =====
-- On the brake of src/session.c: the slot of one address under its failures.
use forgectrl.Prelude.{
  ℕ, zero, suc, ◌+◌, ◌-◌, ◌≤◌, ◌<◌, ◌≡◌, refl, sym, subst, ap, ◌∙◌, true, false, inl, inr, List, [],
  ◌∷◌, none, some, Bytes, same_refl, length, set, get_or, take, arith, Option-cases,
}
use forgectrl.Session.Login.{
  Addr, Addrs, blank, is_for, find_addr, find_free, made, fail, login_failed, login_locked, fail_at,
}

-- The slot of an address.
pub record Has (name : Bytes) (slots : Addrs) (i : ℕ) (a : Addr) : Type 0 where
  pub found : find_addr name slots ≡ some i
  pub slot : get_or slots i blank ≡ a
  pub mine : is_for name a ≡ true

Has_set :
    (name : Bytes) (slots : Addrs) (i : ℕ) (b : Addr)
    → find_addr name slots ≡ some i
    → is_for name b ≡ true
    → (find_addr name (set slots i b) ≡ some i) × (get_or (set slots i b) i blank ≡ b)
unfolding find_addr
Has_set name [] i b h m = absurd (ground arith)
Has_set name (a ∷ slots) zero b h m = rw m (refl, refl)
Has_set name (a ∷ slots) (suc i) b h m =
    let e : is_for name a ≡ false = ground arith in
    let (p, q) = Has_set name slots i b (ground arith) m in rw (e, p) (refl, q)

is_for-fail :
    (t : ℕ) (name : Bytes) (a : Addr) → is_for name a ≡ true → is_for name (fail t a) ≡ true
unfolding fail
is_for-fail t name a h = ground arith

login_failed-Has :
    (t : ℕ) (name : Bytes) (slots : Addrs) (i : ℕ) (a : Addr)
    → Has name slots i a
    → Has name (login_failed t name slots) i (fail t a)
unfolding login_failed
login_failed-Has t name slots i a h =
    let m = is_for-fail t name a h.mine in
    rw (h.found, h.slot)
      (let (p, q) = Has_set name slots i (fail t a) h.found m in
        record { found = p; slot = q; mine = m })

-- All of the failures in the slot.
abbrev pub fail_all : List ℕ → Addr → Addr
fail_all [] a = a
fail_all (t ∷ ts) a = fail_all ts (fail t a)

fail_at-Has :
    (ts : List ℕ) (name : Bytes) (slots : Addrs) (i : ℕ) (a : Addr)
    → Has name slots i a
    → Has name (fail_at ts name slots) i (fail_all ts a)
unfolding fail_at
fail_at-Has [] name slots i a h = h
fail_at-Has (t ∷ ts) name slots i a h =
    fail_at-Has ts name (login_failed t name slots) i (fail t a)
      (login_failed-Has t name slots i a h)

login_locked-Has :
    (t : ℕ) (name : Bytes) (slots : Addrs) (i : ℕ) (a : Addr)
    → Has name slots i a
    → login_locked t name slots ≡ a.until - t
unfolding login_locked
login_locked-Has t name slots i a h = rw (h.found, h.slot) refl

-- Failures behind the end of a lock.
abbrev pub AllFrom : ℕ → List ℕ → Type 0
AllFrom u [] = Unit
AllFrom u (t ∷ ts) = (u ≤ t) × AllFrom u ts

fail_expired : (t : ℕ) (a : Addr) → 0 < a.until → a.until ≤ t → (fail t a).until ≡ a.until
unfolding fail
fail_expired t a h k = ground arith

until-fail_all :
    (ts : List ℕ) (a : Addr) → 0 < a.until → AllFrom a.until ts → (fail_all ts a).until ≡ a.until
until-fail_all [] a h k = refl
until-fail_all (t ∷ ts) a h (k, ks) =
    let e = fail_expired t a h k in
    let later : AllFrom (fail t a).until ts = subst (λ u. AllFrom u ts) (sym e) ks in
    until-fail_all ts (fail t a) (omega arith) later ∙ e

-- Once the first lock of an address has expired, no number of further failures locks it again:
-- every failure finds the old end of the lock, which is never cleared, and starts the count over.
pub login_never_locks_again :
    (t : ℕ) (ts : List ℕ) (name : Bytes) (slots : Addrs) (i : ℕ) (a : Addr)
    → Has name slots i a
    → 0 < a.until
    → AllFrom a.until ts
    → a.until ≤ t
    → login_locked t name (fail_at ts name slots) ≡ 0
login_never_locks_again t ts name slots i a h p k q =
    let e = until-fail_all ts a p k in
    omega (
      arith,
      login_locked-Has t name (fail_at ts name slots) i (fail_all ts a)
          (fail_at-Has ts name slots i a h),
      e,
    )

new_Has :
    (name : Bytes) (slots : Addrs) (j : ℕ) (b : Addr)
    → find_addr name slots ≡ none
    → find_free slots ≡ some j
    → is_for name b ≡ true
    → (find_addr name (set slots j b) ≡ some j) × (get_or (set slots j b) j blank ≡ b)
unfolding find_addr find_free
new_Has name [] j b h f m = absurd (ground arith)
new_Has name (a ∷ slots) zero b h f m = rw m (refl, refl)
new_Has name (a ∷ slots) (suc j) b h f m =
    let e : is_for name a ≡ false = ground arith in
    let n : find_addr name slots ≡ none = elim (Option-cases (find_addr name slots)) [
      | inl p ↦ p
      | inr (k, p) ↦ absurd (ground arith)
    ] in
    let (p, q) = new_Has name slots j b n (ground arith) m in rw (e, p) (refl, q)

take_all : (n : ℕ) (name : Bytes) → length name ≤ n → take n name ≡ name
take_all zero [] h = refl
take_all zero (c ∷ cs) h = absurd (omega arith)
take_all (suc n) [] h = refl
take_all (suc n) (c ∷ cs) h = ap (λ r. c ∷ r) (take_all n cs (omega arith))

first_failure :
    (t : ℕ) (name : Bytes) (slots : Addrs) (j : ℕ)
    → find_addr name slots ≡ none
    → find_free slots ≡ some j
    → length name ≤ 63
    → Has name (login_failed t name slots) j (fail t (made name))
unfolding login_failed fail
first_failure t name slots j h f l =
    let m : is_for name (made name) ≡ true = rw (take_all 63 name l) (same_refl name) in
    let (p, q) = new_Has name slots j (fail t (made name)) h f m in
    rw (h, f) (record { found = p; slot = q; mine = m })

five_fails :
    (t1 t2 t3 t4 t5 : ℕ) (name : Bytes)
    → (fail_all (t1 ∷ t2 ∷ t3 ∷ t4 ∷ t5 ∷ []) (made name)).until ≡ t5 + 30
unfolding fail
five_fails t1 t2 t3 t4 t5 name = ground arith

four_fails :
    (t1 t2 t3 t4 : ℕ) (name : Bytes) → (fail_all (t1 ∷ t2 ∷ t3 ∷ t4 ∷ []) (made name)).until ≡ 0
unfolding fail
four_fails t1 t2 t3 t4 name = ground arith

-- An address of at most 63 characters that has no slot yet, while one is free, is not locked by
-- four failures at any times, and the fifth locks it for 30 seconds from then on.
pub login_locks_at_five :
    (t t1 t2 t3 t4 t5 : ℕ) (name : Bytes) (slots : Addrs) (j : ℕ)
    → find_addr name slots ≡ none
    → find_free slots ≡ some j
    → length name ≤ 63
    → (login_locked t name (fail_at (t1 ∷ t2 ∷ t3 ∷ t4 ∷ []) name slots) ≡ 0)
      × (login_locked t name (fail_at (t1 ∷ t2 ∷ t3 ∷ t4 ∷ t5 ∷ []) name slots) ≡ t5 + 30 - t)
unfolding fail_at
login_locks_at_five t t1 t2 t3 t4 t5 name slots j h f l =
    let p = first_failure t1 name slots j h f l in
    let slots' = login_failed t1 name slots in
    let a = fail t1 (made name) in
    let four = fail_at-Has (t2 ∷ t3 ∷ t4 ∷ []) name slots' j a p in
    let five = fail_at-Has (t2 ∷ t3 ∷ t4 ∷ t5 ∷ []) name slots' j a p in
    (
      omega (arith, login_locked-Has t name _ j _ four, four_fails t1 t2 t3 t4 name),
      omega (arith, login_locked-Has t name _ j _ five, five_fails t1 t2 t3 t4 t5 name),
    )
