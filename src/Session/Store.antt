-- ===== src/Session/Store.antt =====
-- The operations of src/session.c on the sessions.
use forgectrl.Prelude.{
  ℕ, zero, suc, ◌+◌, ◌-◌, Bool, true, false, not, ◌&&◌, ◌||◌, List, [], ◌∷◌, Option, none, some,
  Bytes, set, take, replicate, ltb, leb, if◌then◌else◌,
}
use forgectrl.Sha256.Compare.{ct_equal}
use forgectrl.Session.State.{
  Session, Sessions, Table, Saving, max_sessions, save_seconds, id_hex, save, id_well_formed,
  is_idle, expire, expires,
}

abbrev pub is_older : Session → Option (ℕ × Session) → Bool
is_older e none = true
is_older e (some (i, o)) = ltb e.seen o.seen

abbrev pub slot_of : Option (ℕ × Session) → ℕ
slot_of none = 0
slot_of (some (i, o)) = i

-- The slot of a new session, from slot `i` on: the first free one, or else the one seen longest
-- ago.
unfoldable pub pick : ℕ → Option (ℕ × Session) → Table → ℕ
pick i oldest [] = slot_of oldest
pick i oldest (none ∷ es) = i
pick i oldest (some e ∷ es) = pick (suc i) (if is_older e oldest then some (i, e) else oldest) es

-- `session_create`, where `id` is what /dev/urandom gave, and `len` the size of the caller's
-- buffer: -1 is `none`.
unfoldable pub session_create :
    ℕ → Saving → Option Bytes → Bytes → ℕ → Sessions → Sessions × Option Bytes
session_create t w none name len s = (s, none)
session_create t w (some id) name len s =
    if ltb len (id_hex + 1)
    then (s, none)
    else (let fresh = expire t s.table in
        let e : Session = record { id = id; name = take 39 name; created = t; seen = t } in
        (save t w (record s { table = set fresh (pick 0 none fresh) (some e) }), some id))

-- The loop of `session_valid`: each session in use is compared, and those that match are seen.
unfoldable pub touch : ℕ → Bytes → Table → Table
touch t id [] = []
touch t id (none ∷ es) = none ∷ touch t id es
touch t id (some e ∷ es) =
    let rest = touch t id es in some (if ct_equal e.id id then record e { seen = t } else e) ∷ rest

unfoldable pub matches : Bytes → Table → Bool
matches id [] = false
matches id (none ∷ es) = matches id es
matches id (some e ∷ es) = ct_equal e.id id || matches id es

-- `session_valid`
unfoldable pub session_valid : ℕ → Saving → Bytes → Sessions → Sessions × Bool
session_valid t w id s =
    if id_well_formed id
    then (let fresh = expire t s.table in
        let found = matches id fresh in
        let seen_now = record s { table = touch t id fresh } in
        (
          if expires t s.table || found && leb save_seconds (t - s.saved_at)
              then save t w seen_now
              else seen_now,
          found,
        ))
    else (s, false)

abbrev pub is_ended : Option Bytes → Session → Bool
is_ended none e = true
is_ended (some id) e = id_well_formed id && ct_equal e.id id

unfoldable pub drop_ended : Option Bytes → Table → Table
drop_ended id [] = []
drop_ended id (none ∷ es) = none ∷ drop_ended id es
drop_ended id (some e ∷ es) =
    let rest = drop_ended id es in (if is_ended id e then none else some e) ∷ rest

-- `session_end`; no id ends them all.
unfoldable pub session_end : ℕ → Saving → Option Bytes → Sessions → Sessions
session_end t w id s = save t w (record s { table = drop_ended id s.table })

-- The lines of the file that `load_locked` takes, for at most so many slots.
unfoldable pub load_into : ℕ → ℕ → List Session → Table
load_into zero t es = []
load_into (suc n) t [] = none ∷ load_into n t []
load_into (suc n) t (e ∷ es) =
    let skip = load_into (suc n) t es in
    let next = load_into n t es in
    if not (id_well_formed e.id) || is_idle t e then skip else some e ∷ next

-- `session_set_store` of a path whose file holds the sessions; `none` is a file that cannot be
-- opened.
unfoldable pub session_set_store : ℕ → Option (List Session) → Sessions → Sessions
session_set_store t none s = record s { table = replicate max_sessions none; has_store = true }
session_set_store t (some es) s = record s {
  table = load_into max_sessions t es;
  has_store = true;
  file = es;
}
