-- ===== src/Lease.antt =====
-- The machine lease, src/lease.c and src/lease.h: who has the machine.
pub mod Laws
pub mod Words
mod Tests
use forgectrl.Prelude.{
  ℕ, ◌+◌, ◌<◌, Bool, true, false, not, ◌&&◌, ◌||◌, List, [], ◌∷◌, ◌++◌, Option, none, some, Bytes,
  codes, same, strip_prefix, length, ltb, ◌==◌, if◌then◌else◌,
}

-- `lease_kind_t`
pub data Kind : Type 0 where
  hardware sender system export extension : Kind

-- One row of `held`.
pub record Hold : Type 0 where
  pub owner : Bytes
  pub kind : Kind
  pub since : ℕ

-- `held[0 .. depth)`, the innermost owner first; rows from `depth` on are never read.
abbrev pub Held : Type 0
Held = List Hold

-- DEPTH
abbrev pub max_depth : ℕ
max_depth = 2

-- LEASE_OWNER_MAX, the size of a row's name with its NUL
abbrev pub owner_max : ℕ
owner_max = 72

-- The texts of `why`: what a refusal says.
pub data Refusal : Type 0 where
  no_usable_name : Refusal
  not_holder : Bytes → Refusal
  held_by : Bytes → Refusal
  sender_connected : Refusal

-- `kind == LEASE_SENDER`
abbrev pub is_sender : Kind → Bool
is_sender sender = true
is_sender _ = false

-- `kind == LEASE_EXPORT`
abbrev pub is_export : Kind → Bool
is_export export = true
is_export _ = false

-- A byte of `strpbrk(owner, "\"\\\n")`.
abbrev pub breaks_json : ℕ → Bool
breaks_json c = c == 34 || c == 92 || c == 10

abbrev pub any_breaks : Bytes → Bool
any_breaks [] = false
any_breaks (c ∷ s) = breaks_json c || any_breaks s

-- The test on the owner's name; `none` is NULL.
pub usable_name : Option Bytes → Bool
usable_name none = false
usable_name (some []) = false
usable_name (some (c ∷ s)) = ltb (length (c ∷ s)) owner_max && not (any_breaks (c ∷ s))

-- The table of `lease_words`.
abbrev pub what : List (Bytes × Bytes)
what =
    (codes "diag:", codes "a diagnostic")
    ∷ (codes "wizard:", codes "a setup wizard")
    ∷ (codes "update:", codes "an update job")
    ∷ (codes "job:", codes "a job")
    ∷ (codes "ext:", codes "an extension")
    ∷ []

-- What follows the loop of `lease_words`.
abbrev pub plain_words : Bytes → Bytes
plain_words owner =
    if same owner (codes "recorder")
    then codes "the dose-curve recorder"
    else if same owner (codes "logs.export")
    then codes "a log export"
    else owner

-- The loop of `lease_words` over the rows left.
pub words_from : List (Bytes × Bytes) → Bytes → Bytes
words_from [] owner = plain_words owner
words_from ((prefix, text) ∷ rows) owner = elim (strip_prefix prefix owner) [
  | some rest ↦ text ++ codes " (" ++ rest ++ codes ")"
  | none ↦ words_from rows owner
]

-- `lease_words`
pub words : Bytes → Bytes
unfolding words_from
words owner = words_from what owner

-- `refusal_locked`: the innermost holder in words; called with `depth > 0`.
abbrev pub refusal_locked : Hold → Refusal
refusal_locked h = held_by (words h.owner)

-- `under` names the only holder.
abbrev pub runs_under : Option Bytes → Hold → Bool
runs_under none h = false
runs_under (some u) h = same u h.owner

abbrev pub name_of : Option Bytes → Bytes
name_of none = []
name_of (some o) = o

-- The last two arms of the ladder in `lease_take`: a client on the socket, or the hold is made.
abbrev pub grant : Bytes → Kind → Bool → ℕ → Held → Held × Option Refusal
grant owner kind client now held =
    if client
    then (held, some sender_connected)
    else (record { owner = owner; kind = kind; since = now } ∷ held, none)

-- The ladder under the lock. The first two arms need `depth` 0 and 1, the third `depth >= DEPTH`.
pub take_locked : Bytes → Kind → Option Bytes → Bool → ℕ → Held → Held × Option Refusal
take_locked owner kind none client now [] = grant owner kind client now []
take_locked owner kind (some u) client now [] = ([], some (not_holder u))
take_locked owner kind under client now (h ∷ []) =
    if runs_under under h
    then grant owner kind client now (h ∷ [])
    else (h ∷ [], some (refusal_locked h))
take_locked owner kind under client now (h ∷ g ∷ rest) = (h ∷ g ∷ rest, some (refusal_locked h))

-- `lease_sender_connected && lease_sender_connected()`; `none` is a hook that is not set.
abbrev pub hook : Option Bool → Bool
hook none = false
hook (some b) = b

-- `lease_take`: the holds after it, and the reason of a refusal (`none` is its 0).
pub take : Option Bytes → Kind → Option Bytes → Option Bool → ℕ → Held → Held × Option Refusal
unfolding usable_name take_locked
take owner kind under connected now held =
    if usable_name owner
    then take_locked (name_of owner) kind under (is_sender kind && hook connected) now held
    else (held, some no_usable_name)

-- `lease_release`
pub release : Option Bytes → Held → Held
release none held = held
release (some o) [] = []
release (some o) (h ∷ rest) = if same h.owner o then rest else h ∷ rest

-- `lease_refusal`
pub refusal : Held → Option Refusal
refusal [] = none
refusal (h ∷ rest) = some (refusal_locked h)

-- The loop of `lease_refusal_for`: `as` holds the machine at some level.
abbrev pub holds_any : Option Bytes → Held → Bool
holds_any none held = false
holds_any (some as_owner) [] = false
holds_any (some as_owner) (h ∷ rest) = same h.owner as_owner || holds_any (some as_owner) rest

-- `lease_refusal_for`
pub refusal_for : Option Bytes → Held → Option Refusal
refusal_for as_owner [] = none
refusal_for as_owner (h ∷ rest) =
    if holds_any as_owner (h ∷ rest) then none else some (refusal_locked h)

-- `lease_refusal_locks`
pub refusal_locks : Held → Option Refusal
refusal_locks [] = none
refusal_locks (h ∷ rest) = if is_export h.kind then none else some (refusal_locked h)

-- `lease_refusal_locks_for`
pub refusal_locks_for : Option Bytes → Held → Option Refusal
refusal_locks_for as_owner [] = none
refusal_locks_for as_owner (h ∷ rest) =
    if is_export h.kind || holds_any as_owner (h ∷ rest) then none else some (refusal_locked h)

-- `lease_holder`
pub holder : Held → Option Bytes
holder [] = none
holder (h ∷ rest) = some h.owner

-- The calls that change the lease, with what each reads outside it.
pub data Op : Type 0 where
  take_op : Option Bytes → Kind → Option Bytes → Option Bool → ℕ → Op
  release_op : Option Bytes → Op

-- Each call holds the mutex over all that it does to the lease, so threads interleave by calls.
pub step : Op → Held → Held
unfolding take release
step (take_op owner kind under connected now) held = (take owner kind under connected now held).0
step (release_op owner) held = release owner held

pub run : List Op → Held → Held
unfolding step
run [] held = held
run (o ∷ ops) held = run ops (step o held)
