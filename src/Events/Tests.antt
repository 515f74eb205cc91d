-- ===== src/Events/Tests.antt =====
-- The streams of src/events.c at concrete calls.
use forgectrl.Prelude.{
  ◌≡◌, ◌≢◌, ◌↔◌, refl, true, false, List, [], ◌∷◌, some, Bytes, codes, replicate, get_elem?, arith,
}
use forgectrl.Events.Slots.{events_admit, place_from, named}
use forgectrl.Events.Ring.{no_event, Ring, Client, events_open, is_current}
use forgectrl.Events.Streams.{Step, sampled, opened, follow}
use forgectrl.Events.Delivery.{IsRing}
use forgectrl.Events.Accounts.{Accounts, Stands, follow-Accounts}
use forgectrl.Events.Admission.{IsTable, holds_none, open_replaces}

abbrev start : Ring
start = record {
  cells = replicate 64 no_event;
  head = 1;
  slots = [] ∷ [] ∷ [] ∷ [];
  slot_gen = 0 ∷ 0 ∷ 0 ∷ 0 ∷ [];
  listeners = 0;
  stopping = false;
  host_open = false;
  log = [];
}

start-IsRing : IsRing start
start-IsRing = record {
  numbered = refl;
  cells_length = refl;
  kept = λ k a b. absurd (omega (arith, a));
}

abbrev a_client : Client
a_client = record { slot = 0; gen = 0; next = 1; greeted = false; farewelled = false }

abbrev lid : Step
lid = sampled (codes "lid") (codes "{}")

abbrev calls : List (List Step × List (List Step))
calls =
    ([], [])
    ∷ ([], (lid ∷ []) ∷ [])
    ∷ (replicate 66 lid, [])
    ∷ ([], [])
    ∷ (opened true (codes "10.0.0.2") ∷ [], [])
    ∷ []

follow-Accounts_example :
    let x = follow calls a_client start in
    IsRing x.0 × (Accounts x.0.log 1 x.2 x.1.next × Stands x.1 x.0)
follow-Accounts_example =
    follow-Accounts calls a_client start start-IsRing (omega arith, omega arith)

abbrev peer : Bytes
peer = codes "10.0.0.2"

abbrev before : Ring
before = record start { slots = [] ∷ peer ∷ [] ∷ []; slot_gen = 3 ∷ 7 ∷ 0 ∷ 0 ∷ []; listeners = 1 }

abbrev behind : Ring
behind = record before { slot_gen = 3 ∷ 8 ∷ 0 ∷ 0 ∷ []; listeners = 2 }

abbrev newer : Client
newer = record { slot = 1; gen = 8; next = 1; greeted = false; farewelled = false }

before-IsTable : IsTable before
unfolding holds_none
before-IsTable = record { three = refl; gens = refl; alone = (refl, tt) }

opened_behind : events_open true peer before ≡ (behind, some newer)
unfolding events_open events_admit place_from
opened_behind = refl

open_replaces_example :
    IsTable behind
    × (get_elem? behind.slots newer.slot ≡ some (named peer))
    × (is_current newer behind ≡ true)
    × ((c : Client)
        → is_current c before ≡ true
        → (is_current c behind ≡ true) ↔ (c.slot ≢ newer.slot))
open_replaces_example =
    open_replaces peer before behind newer (omega arith) before-IsTable opened_behind
