-- ===== src/Session/Login.antt =====
-- The brake on login failures in src/session.c: `addr_t` and its operations.
use forgectrl.Prelude.{
  ℕ, suc, ◌+◌, ◌-◌, Bool, true, false, not, ◌&&◌, List, [], ◌∷◌, Option, none, some, Bytes, same,
  set, get_or, take, replicate, ltb, leb, if◌then◌else◌,
}

-- MAX_ADDRS, LOGIN_FAILS and LOGIN_LOCK_S
abbrev pub max_addrs : ℕ
max_addrs = 32

abbrev pub login_fails : ℕ
login_fails = 5

abbrev pub login_lock_seconds : ℕ
login_lock_seconds = 30

-- `addr_t`
pub record Addr : Type 0 where
  pub addr : Bytes
  pub fails : ℕ
  pub until : ℕ
  pub used : Bool

-- A slot that is wiped.
abbrev pub blank : Addr
blank = record { addr = []; fails = 0; until = 0; used = false }

abbrev pub Addrs : Type 0
Addrs = List Addr

abbrev pub is_for : Bytes → Addr → Bool
is_for name a = a.used && same a.addr name

-- The loop of `addr_slot_locked`: the first slot of the address, the first free one, and the used
-- one whose lock ends first.
unfoldable pub find_addr : Bytes → Addrs → Option ℕ
find_addr name [] = none
find_addr name (a ∷ slots) =
    let rest = find_addr name slots in
    if is_for name a then some 0 else elim rest [ none ↦ none | some i ↦ some (suc i) ]

unfoldable pub find_free : Addrs → Option ℕ
find_free [] = none
find_free (a ∷ slots) =
    let rest = find_free slots in
    if not a.used then some 0 else elim rest [ none ↦ none | some i ↦ some (suc i) ]

abbrev pub ends_first : Addr → Option (ℕ × Addr) → Bool
ends_first a none = true
ends_first a (some (i, o)) = ltb a.until o.until

abbrev pub place_of : Option (ℕ × Addr) → ℕ
place_of none = 0
place_of (some (i, o)) = i

unfoldable pub find_oldest : ℕ → Option (ℕ × Addr) → Addrs → ℕ
find_oldest i oldest [] = place_of oldest
find_oldest i oldest (a ∷ slots) =
    find_oldest (suc i) (if a.used && ends_first a oldest then some (i, a) else oldest) slots

-- Where a new address goes: `free_slot ? free_slot : oldest`.
abbrev pub free_or_oldest : Option ℕ → Addrs → ℕ
free_or_oldest none slots = find_oldest 0 none slots
free_or_oldest (some i) slots = i

-- The slot that is made, with the name as far as its 64 bytes take it.
abbrev pub made : Bytes → Addr
made name = record { addr = take 63 name; fails = 0; until = 0; used = true }

-- A failure at a time, in the slot of its address: a lock that expired starts over.
unfoldable pub fail : ℕ → Addr → Addr
fail t a =
    let b = if ltb 0 a.until && leb a.until t then record a { fails = 0 } else a in
    let n = b.fails + 1 in
    if leb login_fails n
    then record b { fails = 0; until = t + login_lock_seconds }
    else record b { fails = n }

abbrev pub fail_in : ℕ → Bytes → Addrs → Option ℕ → Addrs
fail_in t name slots (some i) = set slots i (fail t (get_or slots i blank))
fail_in t name slots none = set slots (free_or_oldest (find_free slots) slots) (fail t (made name))

-- `login_failed`
unfoldable pub login_failed : ℕ → Bytes → Addrs → Addrs
login_failed t name slots = fail_in t name slots (find_addr name slots)

abbrev pub wipe : Addrs → Option ℕ → Addrs
wipe slots none = slots
wipe slots (some i) = set slots i blank

-- `login_succeeded`
unfoldable pub login_succeeded : Bytes → Addrs → Addrs
login_succeeded name slots = wipe slots (find_addr name slots)

abbrev pub lock_left : ℕ → Addrs → Option ℕ → ℕ
lock_left t slots none = 0
lock_left t slots (some i) = (get_or slots i blank).until - t

-- The seconds that `login_locked` says are left: it answers 1 exactly when there are some.
unfoldable pub login_locked : ℕ → Bytes → Addrs → ℕ
login_locked t name slots = lock_left t slots (find_addr name slots)

abbrev pub no_addrs : Addrs
no_addrs = replicate max_addrs blank

-- Failures of one address at the given times, one behind the other.
unfoldable pub fail_at : List ℕ → Bytes → Addrs → Addrs
fail_at [] name slots = slots
fail_at (t ∷ ts) name slots = fail_at ts name (login_failed t name slots)
