-- ===== src/Events/Admission.antt =====
-- On the addresses of src/events.c and the streams that hold them.
use forgectrl.Prelude.{
  ℕ, zero, suc, ◌+◌, ◌%◌, ◌≤◌, ◌<◌, ◌^◌, ◌≡◌, ◌≢◌, ◌↔◌, ◌⊎◌, refl, sym, ap, ◌∙◌, inl, inr, Bool,
  true, false, not, ◌&&◌, List, [], ◌∷◌, Option, none, some, Bytes, same, same_refl, same→eq,
  length, length-set, take, get_elem?, get_or, set, if◌then◌else◌, arith, Bool-cases, ==_iff, subst,
  if_holds,
}
use forgectrl.Events.Slots.{
  Slots, Place, taken, free, place_from, first_of, named, Admitted, admit_at, events_admit,
}
use forgectrl.Events.Ring.{Ring, Client, seated, events_open, is_current}

-- No address holds two slots.
unfoldable pub holds_none : Bytes → Slots → Bool
holds_none peer [] = true
holds_none peer (p ∷ ps) = not (same p peer) && holds_none peer ps

abbrev pub Alone : Slots → Type 0
Alone [] = Unit
Alone ([] ∷ ps) = Alone ps
Alone ((c ∷ p) ∷ ps) = (holds_none (c ∷ p) ps ≡ true) × Alone ps

same_sym : (a b : Bytes) → same a b ≡ false → same b a ≡ false
same_sym a b h = elim (Bool-cases (same b a)) [
  | inl e ↦
      let q : b ≡ a = same→eq b a e in
      absurd (let t = sym (ap (same a) q ∙ same_refl a) ∙ h in ground (arith, t))
  | inr e ↦ e
]

-- What the loop has found: the slot of the address, or that none has it, and a free one.
abbrev Finds : ℕ → Option ℕ → Bytes → Slots → Place → Type 0
Finds i f peer ps (taken j) = (d : ℕ) × ((j ≡ i + d) × (get_elem? ps d ≡ some peer))
Finds i f peer ps (free none) = (holds_none peer ps ≡ true) × (f ≡ none)
Finds i f peer ps (free (some j)) =
    (holds_none peer ps ≡ true)
    × ((f ≡ some j) ⊎ ((d : ℕ) × ((j ≡ i + d) × (get_elem? ps d ≡ some []))))

Finds-free :
    (i : ℕ) (f : Option ℕ) (peer : Bytes) (ps : Slots) (x : Place)
    → same [] peer ≡ false
    → Finds (suc i) (first_of f i) peer ps x
    → Finds i f peer ([] ∷ ps) x
unfolding holds_none
Finds-free i f peer ps (taken j) n (d, (a, b)) = (suc d, (omega (arith, a), b))
Finds-free i none peer ps (free none) n h = absurd (let q = h.1 in ground (arith, q))
Finds-free i (some k) peer ps (free none) n h = absurd (let q = h.1 in ground (arith, q))
Finds-free i none peer ps (free (some j)) n (h, inl e) =
    (rw n h, inr (0, (let q : i ≡ j = ground (arith, e) in omega (arith, q), refl)))
Finds-free i none peer ps (free (some j)) n (h, inr (d, (a, b))) =
    (rw n h, inr (suc d, (omega (arith, a), b)))
Finds-free i (some k) peer ps (free (some j)) n (h, inl e) = (rw n h, inl e)
Finds-free i (some k) peer ps (free (some j)) n (h, inr (d, (a, b))) =
    (rw n h, inr (suc d, (omega (arith, a), b)))

Finds-other :
    (i : ℕ) (f : Option ℕ) (peer q : Bytes) (ps : Slots) (x : Place)
    → same q peer ≡ false
    → Finds (suc i) f peer ps x
    → Finds i f peer (q ∷ ps) x
unfolding holds_none
Finds-other i f peer q ps (taken j) n (d, (a, b)) = (suc d, (omega (arith, a), b))
Finds-other i f peer q ps (free none) n (h, e) = (rw n h, e)
Finds-other i f peer q ps (free (some j)) n (h, inl e) = (rw n h, inl e)
Finds-other i f peer q ps (free (some j)) n (h, inr (d, (a, b))) =
    (rw n h, inr (suc d, (omega (arith, a), b)))

place_from-Finds :
    (i : ℕ) (f : Option ℕ) (peer : Bytes) (ps : Slots)
    → same [] peer ≡ false
    → Finds i f peer ps (place_from i f peer ps)
unfolding place_from
place_from-Finds i none peer [] n = unfold holds_none in (refl, refl)
place_from-Finds i (some k) peer [] n = unfold holds_none in (refl, inl refl)
place_from-Finds i f peer ([] ∷ ps) n =
    Finds-free i f peer ps (place_from (suc i) (first_of f i) peer ps) n
      (place_from-Finds (suc i) (first_of f i) peer ps n)
place_from-Finds i f peer ((c ∷ p) ∷ ps) n =
    let ih = place_from-Finds (suc i) f peer ps n in
    if_holds (Finds i f peer ((c ∷ p) ∷ ps)) (same (c ∷ p) peer) _ _
      (λ e. (0, (omega arith, ap some (same→eq (c ∷ p) peer e))))
      (λ e. Finds-other i f peer (c ∷ p) ps (place_from (suc i) f peer ps) e ih)

holds_none-set :
    (q peer : Bytes) (ps : Slots) (d : ℕ)
    → same peer q ≡ false
    → holds_none q ps ≡ true
    → holds_none q (set ps d peer) ≡ true
unfolding holds_none
holds_none-set q peer [] d n h = refl
holds_none-set q peer (p ∷ ps) zero n h = ground (arith, n)
holds_none-set q peer (p ∷ ps) (suc d) n h = ground (arith, holds_none-set q peer ps d n)

Alone-set :
    (peer : Bytes) (ps : Slots) (d : ℕ)
    → same [] peer ≡ false
    → holds_none peer ps ≡ true
    → Alone ps
    → get_elem? ps d ≡ some []
    → Alone (set ps d peer)
unfolding holds_none
Alone-set peer [] d n h a e = tt
Alone-set [] ([] ∷ ps) zero n h a e = a
Alone-set (c ∷ peer) ([] ∷ ps) zero n h a e = (ground arith, a)
Alone-set peer ((c ∷ p) ∷ ps) zero n h a e = absurd (ground (arith, e))
Alone-set peer ([] ∷ ps) (suc d) n h a e = Alone-set peer ps d n (ground arith) a e
Alone-set peer ((c ∷ p) ∷ ps) (suc d) n h a e = (
  holds_none-set (c ∷ p) peer ps d (same_sym (c ∷ p) peer (ground arith)) a.0,
  Alone-set peer ps d n (ground arith) a.1 e,
)

take_all : (n : ℕ) (p : Bytes) → length p ≤ n → take n p ≡ p
take_all zero [] h = refl
take_all zero (c ∷ p) h = absurd (omega arith)
take_all (suc n) [] h = refl
take_all (suc n) (c ∷ p) h = ap (λ r. c ∷ r) (take_all n p (omega arith))

get_elem?-set_at :
    (ps : Slots) (d : ℕ) (p q : Bytes) → get_elem? ps d ≡ some q → get_elem? (set ps d p) d ≡ some p
get_elem?-set_at [] d p q e = absurd (ground (arith, e))
get_elem?-set_at (x ∷ ps) zero p q e = refl
get_elem?-set_at (x ∷ ps) (suc d) p q e = get_elem?-set_at ps d p q e

-- What an admission leaves: the addresses still alone, and the slot with the address.
abbrev Admits : Bytes → Admitted → Type 0
Admits peer a = Alone a.slots × ((i : ℕ) → a.slot ≡ some i → get_elem? a.slots i ≡ some peer)

admit_at-Admits :
    (peer : Bytes) (ps : Slots) (x : Place)
    → same [] peer ≡ false
    → length peer ≤ 63
    → Alone ps
    → Finds 0 none peer ps x
    → Admits peer (admit_at peer ps x)
admit_at-Admits peer ps (taken j) n l a (d, (e, h)) =
    (a, λ i q. (let k : i ≡ d = ground (arith, q, e) in ap (get_elem? ps) k ∙ h))
admit_at-Admits peer ps (free none) n l a h = (a, λ i q. absurd (ground (arith, q)))
admit_at-Admits peer ps (free (some j)) n l a (h, inl e) = absurd (ground (arith, e))
admit_at-Admits peer ps (free (some j)) n l a (h, inr (d, (e, k))) =
    let cut = take_all 63 peer l in
    let at : j ≡ d = omega (arith, e) in
    let same_set : set ps j (take 63 peer) ≡ set ps d peer =
      ap (λ i. set ps i (take 63 peer)) at ∙ ap (set ps d) cut in
    (
      subst Alone (sym same_set) (Alone-set peer ps d n h a k),
      λ i q.
          (let m : i ≡ d = ground (arith, q, at) in
            ap (λ x. get_elem? x i) same_set
            ∙ ap (get_elem? (set ps d peer)) m
            ∙ get_elem?-set_at ps d peer [] k),
    )

length-admit_at :
    (peer : Bytes) (ps : Slots) (x : Place) → length (admit_at peer ps x).slots ≡ length ps
length-admit_at peer ps (taken j) = refl
length-admit_at peer ps (free none) = refl
length-admit_at peer ps (free (some j)) = length-set ps j (take 63 peer)

elem_below : (ps : Slots) (i : ℕ) (p : Bytes) → get_elem? ps i ≡ some p → i < length ps
elem_below [] i p h = absurd (ground (arith, h))
elem_below (x ∷ ps) zero p h = omega arith
elem_below (x ∷ ps) (suc i) p h = omega (arith, elem_below ps i p h)

get_or-set : (gs : List ℕ) (i g : ℕ) → i < length gs → get_or (set gs i g) i 0 ≡ g
get_or-set [] i g h = absurd (omega arith)
get_or-set (x ∷ gs) zero g h = refl
get_or-set (x ∷ gs) (suc i) g h = get_or-set gs i g (omega arith)

get_or-set_other : (gs : List ℕ) (i j g : ℕ) → (j ≢ i) → get_or (set gs i g) j 0 ≡ get_or gs j 0
get_or-set_other [] i j g h = refl
get_or-set_other (x ∷ gs) zero zero g h = absurd (h refl)
get_or-set_other (x ∷ gs) zero (suc j) g h = refl
get_or-set_other (x ∷ gs) (suc i) zero g h = refl
get_or-set_other (x ∷ gs) (suc i) (suc j) g h = get_or-set_other gs i j g (λ e. h (ap suc e))

slot_or : Option Client → ℕ
slot_or none = 0
slot_or (some c) = c.slot

gen_or : Option Client → ℕ
gen_or none = 0
gen_or (some c) = c.gen

next_gen : ℕ → Ring → ℕ
next_gen i r = (get_or r.slot_gen i 0 + 1) % 2 ^ 32

-- What a stream that got a slot has.
record Seated (o : Option ℕ) (r r' : Ring) (c : Client) : Type 0 where
  slot_is : o ≡ some c.slot
  slots_same : r'.slots ≡ r.slots
  gens_are : r'.slot_gen ≡ set r.slot_gen c.slot (next_gen c.slot r)
  gen_is : c.gen ≡ next_gen c.slot r

seated-Seated :
    (o : Option ℕ) (r r' : Ring) (c : Client) → seated o r ≡ (r', some c) → Seated o r r' c
unfolding slot_or gen_or next_gen
seated-Seated none r r' c e = absurd (let q = ap (λ x. x.1) e in ground (arith, q))
seated-Seated (some i) r r' c e =
    let at : i ≡ c.slot = ap (λ x. slot_or x.1) e in
    record {
      slot_is = ap some at;
      slots_same = sym (ap (λ x. x.0.slots) e);
      gens_are =
          sym (ap (λ x. x.0.slot_gen) e)
          ∙ ap (λ i. set r.slot_gen i ((get_or r.slot_gen i 0 + 1) % 2 ^ 32)) at;
      gen_is = sym (ap (λ x. gen_or x.1) e) ∙ ap (λ i. (get_or r.slot_gen i 0 + 1) % 2 ^ 32) at;
    }

is_current-Seated :
    (o : Option ℕ) (r r' : Ring) (c' c : Client)
    → Seated o r r' c'
    → c'.slot < length r.slot_gen
    → is_current c r ≡ true
    → (is_current c r' ≡ true) ↔ (c.slot ≢ c'.slot)
unfolding next_gen
is_current-Seated o r r' c' c v h k =
    let gens = v.gens_are in
    (
      (λ e where_it_was.
          let x = get_or r.slot_gen c'.slot 0 in
          let now : get_or r'.slot_gen c.slot 0 ≡ (x + 1) % 2 ^ 32 =
            ap (λ j. get_or r'.slot_gen j 0) where_it_was
            ∙ ap (λ g. get_or g c'.slot 0) gens
            ∙ get_or-set r.slot_gen c'.slot (next_gen c'.slot r) h in
          let before : get_or r.slot_gen c.slot 0 ≡ x =
            ap (λ j. get_or r.slot_gen j 0) where_it_was in
          let after : get_or r'.slot_gen c.slot 0 ≡ c.gen =
            (==_iff (get_or r'.slot_gen c.slot 0) c.gen).0 e in
          let was : get_or r.slot_gen c.slot 0 ≡ c.gen =
            (==_iff (get_or r.slot_gen c.slot 0) c.gen).0 k in
          absurd (omega (arith, now, before, after, was))),
      (λ other.
          let unmoved : get_or r'.slot_gen c.slot 0 ≡ get_or r.slot_gen c.slot 0 =
            ap (λ g. get_or g c.slot 0) gens ∙ get_or-set_other r.slot_gen c'.slot c.slot _ other in
          ground (arith, unmoved)),
    )

current_now :
    (o : Option ℕ) (r r' : Ring) (c : Client)
    → Seated o r r' c
    → c.slot < length r.slot_gen
    → is_current c r' ≡ true
current_now o r r' c v h =
    let new =
      ap (λ g. get_or g c.slot 0) v.gens_are ∙ get_or-set r.slot_gen c.slot (next_gen c.slot r) h in
    (==_iff (get_or r'.slot_gen c.slot 0) c.gen).1 (new ∙ sym v.gen_is)

named-some : (peer : Bytes) → same [] (named peer) ≡ false
named-some [] = refl
named-some (c ∷ p) = refl

-- The table has its three slots and each slot's generation, and no address holds two slots.
pub record IsTable (r : Ring) : Type 0 where
  pub three : length r.slots ≡ 3
  pub gens : length r.slot_gen ≡ 4
  pub alone : Alone r.slots

admitted_open :
    (peer : Bytes) (r r' : Ring) (c : Client)
    → events_open true peer r ≡ (r', some c)
    → seated
        (events_admit peer r.slots).slot
        (record r { slots = (events_admit peer r.slots).slots })
      ≡ (r', some c)
unfolding events_open
admitted_open peer r r' c e = elim (Bool-cases r.stopping) [
  | inl a ↦ absurd (
      let q =
        sym (
          ap
            (λ b.
              (if b
                then (r, none)
                else seated (events_admit peer r.slots).slot
                    (record r { slots = (events_admit peer r.slots).slots })).1)
            a)
        ∙ ap (λ x. x.1) e in
      ground (arith, q))
  | inr a ↦
      sym (
        ap
          (λ b.
            if b
            then (r, none)
            else seated (events_admit peer r.slots).slot
                (record r { slots = (events_admit peer r.slots).slots }))
          a)
      ∙ e
]

-- A stream that an address of at most 63 characters opens is current and has the address's one
-- slot; of the streams that were current exactly the one of that slot is no longer, so an address
-- has one stream.
pub open_replaces :
    (peer : Bytes) (r r' : Ring) (c' : Client)
    → length (named peer) ≤ 63
    → IsTable r
    → events_open true peer r ≡ (r', some c')
    → IsTable r'
      × (get_elem? r'.slots c'.slot ≡ some (named peer))
      × (is_current c' r' ≡ true)
      × ((c : Client) → is_current c r ≡ true → (is_current c r' ≡ true) ↔ (c.slot ≢ c'.slot))
open_replaces peer r r' c' l v e =
    let a = events_admit peer r.slots in
    let admitted = record r { slots = a.slots } in
    let place = place_from 0 none (named peer) r.slots in
    let s = seated-Seated a.slot admitted r' c' (admitted_open peer r r' c' e) in
    let found : Admits (named peer) a =
      unfold events_admit in
      admit_at-Admits (named peer) r.slots place (named-some peer) l v.alone
        (place_from-Finds 0 none (named peer) r.slots (named-some peer)) in
    let size : length a.slots ≡ length r.slots =
      unfold events_admit in length-admit_at (named peer) r.slots place in
    let here = found.1 c'.slot s.slot_is in
    let three = v.three in
    let gens = v.gens in
    let below : c'.slot < length r.slot_gen =
      omega (arith, elem_below a.slots c'.slot (named peer) here, size, three, gens) in
    let table = s.slots_same in
    (
      record {
        three = ap length table ∙ size ∙ three;
        gens = ap length s.gens_are ∙ length-set r.slot_gen c'.slot _ ∙ gens;
        alone = subst Alone (sym table) found.0;
      },
      ap (λ x. get_elem? x c'.slot) table ∙ here,
      current_now a.slot admitted r' c' s below,
      λ c k. is_current-Seated a.slot admitted r' c' c s below k,
    )
