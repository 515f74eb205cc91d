-- ===== src/Events/Slots.antt =====
-- The table of addresses of src/events.c: `events_admit` and `events_release`.
use forgectrl.Prelude.{
  ℕ, suc, Bool, true, false, List, [], ◌∷◌, Option, none, some, Bytes, codes, same, set, take, ltb,
  if◌then◌else◌,
}

-- EVENTS_MAX_STREAMS, and EVENTS_HOST_SLOT behind them
abbrev pub max_streams : ℕ
max_streams = 3

abbrev pub host_slot : ℕ
host_slot = 3

-- A slot that is free has no address.
abbrev pub Slots : Type 0
Slots = List Bytes

abbrev pub first_of : Option ℕ → ℕ → Option ℕ
first_of none i = some i
first_of (some f) i = some f

-- The loop: the slot of the address, or else the first free one.
pub data Place : Type 0 where
  taken : ℕ → Place
  free : Option ℕ → Place

unfoldable pub place_from : ℕ → Option ℕ → Bytes → Slots → Place
place_from i f peer [] = free f
place_from i f peer ([] ∷ ps) = place_from (suc i) (first_of f i) peer ps
place_from i f peer ((c ∷ p) ∷ ps) =
    let more = place_from (suc i) f peer ps in if same (c ∷ p) peer then taken i else more

-- `if (!peer[0]) peer = "?"`
abbrev pub named : Bytes → Bytes
named [] = codes "?"
named (c ∷ p) = c ∷ p

-- The slot, or `none` for EVENTS_ADMIT_FULL; and whether an older stream is replaced.
pub record Admitted : Type 0 where
  pub slots : Slots
  pub slot : Option ℕ
  pub replaced : Bool

abbrev pub admit_at : Bytes → Slots → Place → Admitted
admit_at peer ps (taken i) = record { slots = ps; slot = some i; replaced = true }
admit_at peer ps (free none) = record { slots = ps; slot = none; replaced = false }
admit_at peer ps (free (some i)) = record {
  slots = set ps i (take 63 peer);
  slot = some i;
  replaced = false;
}

-- `events_admit`
unfoldable pub events_admit : Bytes → Slots → Admitted
events_admit peer ps = admit_at (named peer) ps (place_from 0 none (named peer) ps)

-- `events_release`
abbrev pub events_release : ℕ → Slots → Slots
events_release slot ps = if ltb slot max_streams then set ps slot [] else ps
