-- ===== src/Events/Ring.antt =====
-- The ring of src/events.c and the streams' own records.
use forgectrl.Prelude.{
  ℕ, suc, ◌+◌, ◌-◌, ◌%◌, ◌^◌, Bool, true, false, List, [], ◌∷◌, ◌++◌, Option, none, some, Bytes,
  get_or, set, ltb, ◌==◌, if◌then◌else◌,
}
use forgectrl.Events.Slots.{Slots, events_admit, events_release, host_slot}

-- RING
abbrev pub ring_size : ℕ
ring_size = 64

-- An event's sequence number, name and data, which its text is made of.
pub record Event : Type 0 where
  pub id : ℕ
  pub name : Bytes
  pub data_json : Bytes

abbrev pub no_event : Event
no_event = record { id = 0; name = []; data_json = [] }

-- What `mu` guards. The log is of every event that was published, the first first: the program
-- keeps the ring alone.
pub record Ring : Type 0 where
  pub cells : List Event
  pub head : ℕ
  pub slots : Slots
  pub slot_gen : List ℕ
  pub listeners : ℕ
  pub stopping : Bool
  pub host_open : Bool
  pub log : List Event

-- `struct events_client`
pub record Client : Type 0 where
  pub slot : ℕ
  pub gen : ℕ
  pub next : ℕ
  pub greeted : Bool
  pub farewelled : Bool

-- `publish_locked`
unfoldable pub publish_locked : Bytes → Bytes → Ring → Ring
publish_locked name data_json r =
    let e : Event = record { id = r.head; name = name; data_json = data_json } in
    record r {
      cells = set r.cells (r.head % ring_size) e;
      head = suc r.head;
      log = r.log ++ (e ∷ []);
    }

-- `events_publish`
unfoldable pub events_publish : Bytes → Bytes → Ring → Ring
events_publish name data_json r = if ltb 0 r.listeners then publish_locked name data_json r else r

-- The slot that a stream gets: its client's record and the ring.
abbrev pub seated : Option ℕ → Ring → Ring × Option Client
seated none r = (r, none)
seated (some slot) r =
    let gen = (get_or r.slot_gen slot 0 + 1) % 2 ^ 32 in
    (
      record r { slot_gen = set r.slot_gen slot gen; listeners = suc r.listeners },
      some record { slot = slot; gen = gen; next = r.head; greeted = false; farewelled = false },
    )

-- `events_open`; there is no memory for the record, or there is.
unfoldable pub events_open : Bool → Bytes → Ring → Ring × Option Client
events_open false peer r = (r, none)
events_open true peer r =
    let a = events_admit peer r.slots in
    let got = seated a.slot (record r { slots = a.slots }) in if r.stopping then (r, none) else got

-- `events_open_host`
unfoldable pub events_open_host : Bool → Ring → Ring × Option Client
events_open_host false r = (r, none)
events_open_host true r =
    let got = seated (some host_slot) (record r { host_open = true }) in
    if r.stopping then (record r { host_open = false }, none) else got

abbrev pub is_current : Client → Ring → Bool
is_current c r = get_or r.slot_gen c.slot 0 == c.gen

-- `events_close`
unfoldable pub events_close : Client → Ring → Ring
events_close c r =
    let left =
      if is_current c r
      then (if c.slot == host_slot
          then record r { host_open = false }
          else record r { slots = events_release c.slot r.slots })
      else r in
    record left { listeners = left.listeners - 1 }

-- `events_shutdown`
abbrev pub events_shutdown : Ring → Ring
events_shutdown r = record r { stopping = true }
