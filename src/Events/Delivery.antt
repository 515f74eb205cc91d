-- ===== src/Events/Delivery.antt =====
-- On what a stream of src/events.c is handed, in the order of what was published.
use forgectrl.Prelude.{
  subst, ℕ, zero, suc, ◌+◌, ◌%◌, ◌≤◌, ◌<◌, ◌≡◌, ◌≢◌, refl, sym, ap, ◌∙◌, inl, inr, Bool, true,
  false, not, ◌&&◌, List, [], ◌∷◌, ◌++◌, append-nil, append_assoc, Option, none, some, Bytes,
  length, length-append, length-set, get_elem?, get_or, set, ltb, ◌==◌, if◌then◌else◌, arith,
  Bool-cases,
}
use forgectrl.Events.Slots.{events_admit, host_slot}
use forgectrl.Events.Ring.{
  Event, Ring, Client, ring_size, publish_locked, events_publish, seated, events_open,
  events_open_host, is_current, events_close, events_shutdown,
}
use forgectrl.Events.Streams.{
  Step, sampled, published, opened, host_opened, closed, shut, step, steps, await,
}

module _ {ℓ} {A : Type ℓ} where
  get_elem?-set : (xs : List A) (i : ℕ) (a : A) → i < length xs → get_elem? (set xs i a) i ≡ some a
  get_elem?-set [] i a h = absurd (omega arith)
  get_elem?-set (x ∷ xs) zero a h = refl
  get_elem?-set (x ∷ xs) (suc i) a h = get_elem?-set xs i a (omega arith)

  get_elem?-set_other :
      (xs : List A) (i j : ℕ) (a : A) → (i ≢ j) → get_elem? (set xs i a) j ≡ get_elem? xs j
  get_elem?-set_other [] i j a h = refl
  get_elem?-set_other (x ∷ xs) zero zero a h = absurd (h refl)
  get_elem?-set_other (x ∷ xs) zero (suc j) a h = refl
  get_elem?-set_other (x ∷ xs) (suc i) zero a h = refl
  get_elem?-set_other (x ∷ xs) (suc i) (suc j) a h =
      get_elem?-set_other xs i j a (λ e. h (ap suc e))

  pub get_elem?-append :
      (xs ys : List A) (i : ℕ) → i < length xs → get_elem? (xs ++ ys) i ≡ get_elem? xs i
  get_elem?-append [] ys i h = absurd (omega arith)
  get_elem?-append (x ∷ xs) ys zero h = refl
  get_elem?-append (x ∷ xs) ys (suc i) h = get_elem?-append xs ys i (omega arith)

  get_elem?-last : (xs : List A) (a : A) → get_elem? (xs ++ (a ∷ [])) (length xs) ≡ some a
  get_elem?-last [] a = refl
  get_elem?-last (x ∷ xs) a = get_elem?-last xs a

  pub get_elem?-some :
      (xs : List A) (i : ℕ) (d : A) → i < length xs → get_elem? xs i ≡ some (get_or xs i d)
  get_elem?-some [] i d h = absurd (omega arith)
  get_elem?-some (x ∷ xs) zero d h = refl
  get_elem?-some (x ∷ xs) (suc i) d h = get_elem?-some xs i d (omega arith)

-- The ring has the last 64 events that were published, each in its cell.
pub record IsRing (r : Ring) : Type 0 where
  pub numbered : r.head ≡ suc (length r.log)
  pub cells_length : length r.cells ≡ ring_size
  pub kept :
      (k : ℕ)
      → k < length r.log
      → length r.log ≤ k + ring_size
      → get_elem? r.cells (suc k % ring_size) ≡ get_elem? r.log k

pub record Grows (r r' : Ring) : Type 0 where
  pub more : List Event
  pub grown : r'.log ≡ r.log ++ more

same-Grows : (r r' : Ring) → r'.log ≡ r.log → Grows r r'
same-Grows r r' e = record { more = []; grown = e ∙ sym (append-nil r.log) }

pub Grows-trans : (a b c : Ring) → Grows a b → Grows b c → Grows a c
Grows-trans a b c p q = record {
  more = p.more ++ q.more;
  grown = q.grown ∙ ap (λ l. l ++ q.more) p.grown ∙ append_assoc a.log p.more q.more;
}

-- What a section leaves: a ring, with nothing of the log lost.
abbrev pub Goes : Ring → Ring → Type 0
Goes r r' = IsRing r' × Grows r r'

-- A section that publishes nothing.
still-Goes :
    (r r' : Ring) → IsRing r → r'.cells ≡ r.cells → r'.head ≡ r.head → r'.log ≡ r.log → Goes r r'
still-Goes r r' v c h l = (
  record {
    numbered = h ∙ v.numbered ∙ ap (λ x. suc (length x)) (sym l);
    cells_length = ap length c ∙ v.cells_length;
    kept = λ k a b.
        ap (λ x. get_elem? x (suc k % ring_size)) c
        ∙ v.kept k (omega (arith, a, ap length l)) (omega (arith, b, ap length l))
        ∙ ap (λ x. get_elem? x k) (sym l);
  },
  same-Grows r r' l,
)

publish_locked-Goes :
    (name data_json : Bytes) (r : Ring) → IsRing r → Goes r (publish_locked name data_json r)
unfolding publish_locked
publish_locked-Goes name data_json r v =
    let e : Event = record { id = r.head; name = name; data_json = data_json } in
    let n = length-append r.log (e ∷ []) in
    let first = v.numbered in
    let size = v.cells_length in
    (
      record {
        numbered = omega (arith, n, first);
        cells_length = length-set r.cells (r.head % ring_size) e ∙ size;
        kept = λ k a b. elim (Bool-cases (k == length r.log)) [
          | inl q ↦
              let at : k ≡ length r.log = ground arith in
              let cell : suc k % ring_size ≡ r.head % ring_size = omega (arith, at, first) in
              ap (get_elem? (set r.cells (r.head % ring_size) e)) cell
              ∙ get_elem?-set r.cells (r.head % ring_size) e (omega (arith, size))
              ∙ sym (ap (get_elem? (r.log ++ (e ∷ []))) at ∙ get_elem?-last r.log e)
          | inr q ↦
              let before : k < length r.log = ground (arith, n, a) in
              get_elem?-set_other r.cells (r.head % ring_size) (suc k % ring_size) e
                (λ same. absurd (omega (arith, same, before, first, b, n)))
              ∙ v.kept k before (omega (arith, b, n))
              ∙ sym (get_elem?-append r.log (e ∷ []) k before)
        ];
      },
      record { more = e ∷ []; grown = refl },
    )

pub self-Goes : (r : Ring) → IsRing r → Goes r r
self-Goes r v = (v, same-Grows r r refl)

if-Goes : (b : Bool) (r x y : Ring) → Goes r x → Goes r y → Goes r (if b then x else y)
if-Goes true r x y p q = p
if-Goes false r x y p q = q

seated-Goes : (o : Option ℕ) (r r' : Ring) → Goes r r' → Goes r (seated o r').0
seated-Goes none r r' g = g
seated-Goes (some slot) r r' g =
    let q = still-Goes r' (seated (some slot) r').0 g.0 refl refl refl in
    (q.0, Grows-trans r r' (seated (some slot) r').0 g.1 q.1)

open-Goes :
    (memory : Bool) (peer : Bytes) (r : Ring) → IsRing r → Goes r (events_open memory peer r).0
unfolding events_open
open-Goes false peer r v = self-Goes r v
open-Goes true peer r v =
    let a = events_admit peer r.slots in
    let admitted = record r { slots = a.slots } in
    elim (Bool-cases r.stopping) [
      | inl e ↦
          subst (λ b. Goes r (if b then (r, none) else seated a.slot admitted).0) (sym e)
            (self-Goes r v)
      | inr e ↦
          subst (λ b. Goes r (if b then (r, none) else seated a.slot admitted).0) (sym e)
            (seated-Goes a.slot r admitted (still-Goes r admitted v refl refl refl))
    ]

open_host-Goes : (memory : Bool) (r : Ring) → IsRing r → Goes r (events_open_host memory r).0
unfolding events_open_host
open_host-Goes false r v = self-Goes r v
open_host-Goes true r v =
    let held = record r { host_open = true } in
    let family : Bool → Type 0 = λ b.
      Goes r
        (if b then (record r { host_open = false }, none) else seated (some host_slot) held).0 in
    elim (Bool-cases r.stopping) [
      | inl e ↦
          subst family (sym e) (still-Goes r (record r { host_open = false }) v refl refl refl)
      | inr e ↦
          subst family (sym e)
            (seated-Goes (some host_slot) r held (still-Goes r held v refl refl refl))
    ]

close-Goes : (c : Client) (r : Ring) → IsRing r → Goes r (events_close c r)
unfolding events_close
close-Goes c r v = still-Goes r (events_close c r) v (ground arith) (ground arith) (ground arith)

publish-Goes :
    (name data_json : Bytes) (r : Ring) → IsRing r → Goes r (events_publish name data_json r)
unfolding events_publish
publish-Goes name data_json r v =
    if-Goes (ltb 0 r.listeners) r (publish_locked name data_json r) r
      (publish_locked-Goes name data_json r v) (self-Goes r v)

step-Goes : (s : Step) (r : Ring) → IsRing r → Goes r (step s r)
unfolding step
step-Goes (sampled name data_json) r v = publish_locked-Goes name data_json r v
step-Goes (published name data_json) r v = publish-Goes name data_json r v
step-Goes (opened memory peer) r v = open-Goes memory peer r v
step-Goes (host_opened memory) r v = open_host-Goes memory r v
step-Goes (closed c) r v = close-Goes c r v
step-Goes shut r v = still-Goes r (events_shutdown r) v refl refl refl

pub steps-Goes : (ss : List Step) (r : Ring) → IsRing r → Goes r (steps ss r)
unfolding steps
steps-Goes [] r v = self-Goes r v
steps-Goes (s ∷ ss) r v =
    let p = step-Goes s r v in
    let q = steps-Goes ss (step s r) p.0 in
    (q.0, Grows-trans r (step s r) (steps ss (step s r)) p.1 q.1)

pub await-Goes :
    (wakes : List (List Step)) (c : Client) (r : Ring) → IsRing r → Goes r (await wakes c r)
unfolding await
await-Goes [] c r v = self-Goes r v
await-Goes (ss ∷ wakes) c r v =
    let p = steps-Goes ss r v in
    let q = await-Goes wakes c (steps ss r) p.0 in
    if-Goes (not r.stopping && (is_current c r && c.next == r.head)) r (await wakes c (steps ss r))
      r (q.0, Grows-trans r (steps ss r) (await wakes c (steps ss r)) p.1 q.1) (self-Goes r v)
