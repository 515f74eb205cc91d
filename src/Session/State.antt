-- ===== src/Session/State.antt =====
-- The sessions of src/session.c: `session_t`, its table and the store on disk.
use forgectrl.Prelude.{
  ℕ, ◌-◌, Bool, true, false, ◌&&◌, ◌||◌, List, [], ◌∷◌, Option, none, some, Bytes, length, ltb, leb,
  ◌==◌, if◌then◌else◌,
}

-- MAX_SESSIONS, SESSION_SAVE_S, SESSION_ID_HEX and SESSION_IDLE_S
abbrev pub max_sessions : ℕ
max_sessions = 16

abbrev pub save_seconds : ℕ
save_seconds = 300

abbrev pub id_hex : ℕ
id_hex = 64

abbrev pub idle_seconds : ℕ
idle_seconds = 43200

-- `session_t`: a slot that is not used is `none` in the table.
pub record Session : Type 0 where
  pub id : Bytes
  pub name : Bytes
  pub created : ℕ
  pub seen : ℕ

abbrev pub Table : Type 0
Table = List (Option Session)

-- The table, whether a store path is set, the sessions of the file, and when it was written.
pub record Sessions : Type 0 where
  pub table : Table
  pub has_store : Bool
  pub file : List Session
  pub saved_at : ℕ

-- How the writing of the file goes: it cannot be opened, it is not renamed into place, it is.
pub data Saving : Type 0 where
  unopened unwritten written : Saving

-- The sessions in use, in the order of the slots.
unfoldable pub live : Table → List Session
live [] = []
live (none ∷ es) = live es
live (some e ∷ es) = e ∷ live es

abbrev pub save_as : ℕ → Saving → Sessions → Sessions
save_as t unopened s = s
save_as t unwritten s = record s { saved_at = t }
save_as t written s = record s { file = live s.table; saved_at = t }

-- `save_locked`
unfoldable pub save : ℕ → Saving → Sessions → Sessions
save t w s = if s.has_store then save_as t w s else s

-- A character of `"0123456789abcdef"`
abbrev pub is_hex : ℕ → Bool
is_hex c = leb b'0' c && leb c b'9' || leb b'a' c && leb c b'f'

unfoldable pub all_hex : Bytes → Bool
all_hex [] = true
all_hex (c ∷ cs) = is_hex c && all_hex cs

-- `id_well_formed`
unfoldable pub id_well_formed : Bytes → Bool
id_well_formed id = length id == id_hex && all_hex id

abbrev pub is_idle : ℕ → Session → Bool
is_idle t e = ltb idle_seconds (t - e.seen)

abbrev pub expire_one : ℕ → Option Session → Option Session
expire_one t none = none
expire_one t (some e) = if is_idle t e then none else some e

-- `expire_locked`: the table, and whether a session was dropped.
unfoldable pub expire : ℕ → Table → Table
expire t [] = []
expire t (e ∷ es) = expire_one t e ∷ expire t es

unfoldable pub expires : ℕ → Table → Bool
expires t [] = false
expires t (none ∷ es) = expires t es
expires t (some e ∷ es) = is_idle t e || expires t es
