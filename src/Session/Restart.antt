-- ===== src/Session/Restart.antt =====
-- On `save_locked` and `load_locked` of src/session.c: a restart of the daemon between them.
use forgectrl.Prelude.{ℕ, ◌+◌, ◌<◌, ◌≡◌, ◌⊎◌, true, List, [], ◌∷◌, none, some, Bytes}
use forgectrl.Session.State.{Session, Table, id_well_formed}
use forgectrl.Session.Validity.{Fresh}

-- Every id in the table is well formed, as `session_create` and `load_locked` leave it.
abbrev pub AllIds : Table → Type 0
AllIds [] = Unit
AllIds (none ∷ es) = AllIds es
AllIds (some e ∷ es) = (id_well_formed e.id ≡ true) × AllIds es

abbrev pub Listed : ℕ → Bytes → List Session → Type 0
Listed t id [] = ⊥
Listed t id (e ∷ es) = Fresh t id e ⊎ Listed t id es

abbrev ListIds : List Session → Type 0
ListIds [] = Unit
ListIds (e ∷ es) = (id_well_formed e.id ≡ true) × ListIds es

-- A session that a restart loses: its id's last use is within the twelve hours, but fell in the
-- five minutes behind the last writing of the file, at `w`, and the use before, which the file has,
-- is too long ago.
pub record IsLost (w t : ℕ) (id : Bytes) (o e : Session) : Type 0 where
  pub fresh : Fresh t id e
  pub unsaved : e.seen < w + 300
  pub filed : o.id ≡ id
  pub stale : o.seen + 43200 < t

abbrev pub AnyLost : ℕ → ℕ → Bytes → List Session → List Session → Type 0
AnyLost w t id (o ∷ os) (e ∷ es) = IsLost w t id o e ⊎ AnyLost w t id os es
AnyLost w t id _ _ = ⊥
