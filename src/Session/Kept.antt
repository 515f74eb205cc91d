-- ===== src/Session/Kept.antt =====
-- On the file of src/session.c behind its table, over the calls that change the sessions.
use forgectrl.Prelude.{
  ℕ, ◌+◌, ◌-◌, ◌≤◌, ◌≡◌, sym, ap, subst, ◌∙◌, true, false, ◌&&◌, ◌||◌, inl, inr, List, [], ◌∷◌,
  Option, none, some, Bytes, length, set, length-set, take, ltb, leb, if◌then◌else◌, arith,
  Bool-cases,
}
use forgectrl.Session.State.{
  Session, Sessions, written, save, id_hex, id_well_formed, expire, expires, live,
}
use forgectrl.Session.Store.{
  pick, session_create, touch, matches, session_valid, drop_ended, session_end,
}
use forgectrl.Session.Stamps.{
  AllSessions, Behind, Behind-refl, AllSessions-later, AllSessions-expire, AllSessions-set,
  AllSessions-touch, AllSessions-drop_ended, length-expire, length-touch, length-drop_ended,
  expire_none, touch_none, Behind-touch,
}

-- A call that changes the sessions, with the clock's time.
pub data Call : Type 0 where
  creating : ℕ → Option Bytes → Bytes → ℕ → Call
  checking : ℕ → Bytes → Call
  ending : ℕ → Option Bytes → Call

abbrev pub at : Call → ℕ
at (creating t id name len) = t
at (checking t id) = t
at (ending t id) = t

-- The call, where a file that it writes is written.
abbrev pub call : Call → Sessions → Sessions
call (creating t id name len) s = (session_create t written id name len s).0
call (checking t id) s = (session_valid t written id s).0
call (ending t id) s = session_end t written id s

unfoldable pub calls : List Call → Sessions → Sessions
calls [] s = s
calls (c ∷ cs) s = calls cs (call c s)

-- The id that a call makes is one of 64 hex digits, as `random_hex` gives it.
abbrev pub MakesId : Call → Type 0
MakesId (creating t none name len) = Unit
MakesId (creating t (some id) name len) = id_well_formed id ≡ true
MakesId (checking t id) = Unit
MakesId (ending t id) = Unit

-- The clock does not go back from one call to the next.
abbrev pub Follow : ℕ → List Call → Type 0
Follow n [] = Unit
Follow n (c ∷ cs) = (n ≤ at c) × MakesId c × Follow (at c) cs

pub record IsKept (n : ℕ) (s : Sessions) : Type 0 where
  pub sessions : AllSessions n s.table
  pub slots : length s.table ≤ 16
  pub stored : s.has_store ≡ true
  pub behind : Behind s.saved_at s.file (live s.table)

save_lem :
    (t : ℕ) (s : Sessions)
    → s.has_store ≡ true
    → save t written s ≡ record s { file = live s.table; saved_at = t }
unfolding save
save_lem t s h = ap (λ b. if b then record s { file = live s.table; saved_at = t } else s) h

-- A state that has just been written.
pub save-IsKept :
    (n t : ℕ) (s : Sessions)
    → AllSessions n s.table
    → length s.table ≤ 16
    → s.has_store ≡ true
    → IsKept n (save t written s)
save-IsKept n t s v l h =
    subst (IsKept n) (sym (save_lem t s h))
      (record { sessions = v; slots = l; stored = h; behind = Behind-refl t (live s.table) })

later-IsKept : (n t : ℕ) (s : Sessions) → n ≤ t → IsKept n s → IsKept t s
later-IsKept n t s h v = record {
  sessions = AllSessions-later n t s.table h v.sessions;
  slots = v.slots;
  stored = v.stored;
  behind = v.behind;
}

create-IsKept :
    (n t : ℕ) (id : Option Bytes) (name : Bytes) (len : ℕ) (s : Sessions)
    → n ≤ t
    → MakesId (creating t id name len)
    → IsKept n s
    → IsKept t (session_create t written id name len s).0
unfolding session_create
create-IsKept n t none name len s h m v = later-IsKept n t s h v
create-IsKept n t (some id) name len s h m v =
    let fresh = expire t s.table in
    let e : Session = record { id = id; name = take 39 name; created = t; seen = t } in
    let i = pick 0 none fresh in
    let made : IsKept t (save t written (record s { table = set fresh i (some e) })) =
      save-IsKept t t (record s { table = set fresh i (some e) })
        (AllSessions-set t i e fresh (record { formed = m; past = omega arith })
          (AllSessions-expire t t s.table (AllSessions-later n t s.table h v.sessions)))
        (let l = v.slots in omega (arith, length-set {0} fresh i (some e), length-expire t s.table))
        v.stored in
    elim (Bool-cases (ltb len (id_hex + 1))) [
      | inl k ↦ rw k (later-IsKept n t s h v)
      | inr k ↦ rw k made
    ]

-- `session_valid` without a write: a use falls in the five minutes behind the last one.
unsaved-IsKept :
    (t : ℕ) (id : Bytes) (s : Sessions)
    → IsKept t s
    → expires t s.table ≡ false
    → (matches id (expire t s.table) && leb 300 (t - s.saved_at)) ≡ false
    → IsKept t (record s { table = touch t id (expire t s.table) })
unsaved-IsKept t id s v x k =
    let q = expire_none t s.table x in
    let r : touch t id (expire t s.table) ≡ touch t id s.table = ap (touch t id) q in
    let b : Behind s.saved_at s.file (live (touch t id s.table)) =
      elim (Bool-cases (matches id s.table)) [
        | inl m ↦
            Behind-touch s.saved_at t id s.file s.table v.sessions
              (let j : matches id (expire t s.table) ≡ true = ap (matches id) q ∙ m in
                ground (arith, j, k))
              v.behind
        | inr m ↦
            subst (λ z. Behind s.saved_at s.file (live z)) (sym (touch_none t id s.table m))
              v.behind
      ] in
    record {
      sessions = subst (AllSessions t) (sym r) (AllSessions-touch t id s.table v.sessions);
      slots =
          let l = v.slots in
          omega (arith, length-touch t id (expire t s.table), length-expire t s.table);
      stored = v.stored;
      behind = subst (λ z. Behind s.saved_at s.file (live z)) (sym r) b;
    }

valid-IsKept :
    (n t : ℕ) (id : Bytes) (s : Sessions)
    → n ≤ t
    → IsKept n s
    → IsKept t (session_valid t written id s).0
unfolding session_valid
valid-IsKept n t id s h v0 =
    let v = later-IsKept n t s h v0 in
    let fresh = expire t s.table in
    let u : Sessions = record s { table = touch t id fresh } in
    let b = expires t s.table || matches id fresh && leb 300 (t - s.saved_at) in
    let used : IsKept t (if b then save t written u else u) = elim (Bool-cases b) [
      | inl k ↦
          subst (λ z. IsKept t (if z then save t written u else u)) (sym k)
            (save-IsKept t t u
              (AllSessions-touch t id fresh (AllSessions-expire t t s.table v.sessions))
              (let l = v.slots in omega (arith, length-touch t id fresh, length-expire t s.table))
              v.stored)
      | inr k ↦
          subst (λ z. IsKept t (if z then save t written u else u)) (sym k)
            (unsaved-IsKept t id s v (ground (arith, k)) (ground (arith, k)))
    ] in
    elim (Bool-cases (id_well_formed id)) [ inl k ↦ rw k used | inr k ↦ rw k v ]

end-IsKept :
    (n t : ℕ) (id : Option Bytes) (s : Sessions)
    → n ≤ t
    → IsKept n s
    → IsKept t (session_end t written id s)
unfolding session_end
end-IsKept n t id s h v =
    save-IsKept t t (record s { table = drop_ended id s.table })
      (AllSessions-drop_ended t id s.table (AllSessions-later n t s.table h v.sessions))
      (let l = v.slots in omega (arith, length-drop_ended id s.table)) v.stored

call-IsKept :
    (n : ℕ) (c : Call) (s : Sessions) → n ≤ at c → MakesId c → IsKept n s → IsKept (at c) (call c s)
call-IsKept n (creating t id name len) s h m v = create-IsKept n t id name len s h m v
call-IsKept n (checking t id) s h m v = valid-IsKept n t id s h v
call-IsKept n (ending t id) s h m v = end-IsKept n t id s h v

-- The time of the last call.
abbrev pub last_at : ℕ → List Call → ℕ
last_at n [] = n
last_at n (c ∷ cs) = last_at (at c) cs

pub calls-IsKept :
    (n : ℕ) (cs : List Call) (s : Sessions)
    → Follow n cs
    → IsKept n s
    → IsKept (last_at n cs) (calls cs s)
unfolding calls
calls-IsKept n [] s f v = v
calls-IsKept n (c ∷ cs) s f v = calls-IsKept (at c) cs (call c s) f.2 (call-IsKept n c s f.0 f.1 v)
