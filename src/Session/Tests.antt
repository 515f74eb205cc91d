-- ===== src/Session/Tests.antt =====
-- The sessions and the brake at concrete inputs.
use forgectrl.Prelude.{
  ◌≡◌, ◌≢◌, ◌↔◌, refl, true, List, [], ◌∷◌, none, some, Bytes, codes, replicate, set, arith,
}
use forgectrl.Session.State.{Sessions, written, id_well_formed, all_hex, max_sessions}
use forgectrl.Session.Store.{session_create, session_valid, session_end}
use forgectrl.Session.Login.{Addr, Addrs, find_addr, fail_at, login_locked, no_addrs}
use forgectrl.Session.Brake.{Has, login_never_locks_again}
use forgectrl.Session.Validity.{Holds, session_valid_iff}
use forgectrl.Session.Making.{session_create_valid, session_end_valid}
use forgectrl.Session.Kept.{Call, checking}

abbrev an_id : Bytes
an_id = replicate 64 b'a'

abbrev other_id : Bytes
other_id = replicate 64 b'b'

abbrev one : Sessions
one = record {
  table =
      set (replicate max_sessions none) 0
        (some (record { id = an_id; name = codes "op"; created = 100; seen = 100 }));
  has_store = true;
  file = [];
  saved_at = 0;
}

an_id-formed : id_well_formed an_id ≡ true
unfolding id_well_formed all_hex
an_id-formed = refl

session_valid_iff_example :
    ((session_valid 200 written an_id one).1 ≡ true)
    ↔ ((id_well_formed an_id ≡ true) × Holds 200 an_id one.table)
session_valid_iff_example = session_valid_iff 200 written an_id one (refl, tt)

session_create_valid_example :
    (session_valid 43700 written an_id
      (session_create 500 written (some an_id) (codes "op") 65 one).0).1
    ≡ true
session_create_valid_example =
    session_create_valid 500 43700 written written an_id (codes "op") 65 one (refl, tt)
      (omega arith) an_id-formed (omega arith) (omega arith)

session_end_valid_example :
    ((session_valid 200 written other_id (session_end 150 written (some an_id) one)).1 ≡ true)
    ↔ ((other_id ≢ an_id) × ((session_valid 200 written other_id one).1 ≡ true))
session_end_valid_example =
    session_end_valid 200 150 written written written an_id other_id one (refl, tt) an_id-formed

abbrev checks : List Call
checks = checking 200 an_id ∷ checking 600 other_id ∷ []

abbrev addr : Bytes
addr = codes "10.0.0.7"

-- An address whose lock ran out at 35.
abbrev worn : Addr
worn = record { addr = addr; fails = 0; until = 35; used = true }

abbrev worn_addrs : Addrs
worn_addrs = set no_addrs 0 worn

worn-Has : Has addr worn_addrs 0 worn
unfolding find_addr
worn-Has = record { found = refl; slot = refl; mine = refl }

login_never_locks_again_example :
    login_locked 60 addr (fail_at (40 ∷ 41 ∷ 42 ∷ 43 ∷ 44 ∷ 45 ∷ []) addr worn_addrs) ≡ 0
login_never_locks_again_example =
    login_never_locks_again 60 (40 ∷ 41 ∷ 42 ∷ 43 ∷ 44 ∷ 45 ∷ []) addr worn_addrs 0 worn worn-Has
      (omega arith)
      (omega arith, (omega arith, (omega arith, (omega arith, (omega arith, (omega arith, tt))))))
      (omega arith)
