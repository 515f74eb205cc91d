-- ===== src/Events/Accounts.antt =====
-- On a whole stream of src/events.c: what it was handed, and what it was told that it lost.
use forgectrl.Prelude.{
  ℕ, zero, suc, ◌+◌, ◌-◌, ◌%◌, ◌≤◌, ◌<◌, ◌≡◌, refl, sym, ap, ◌∙◌, not, ◌&&◌, List, [], ◌∷◌, some,
  length, length-append, get_elem?, ltb, ◌==◌, arith, if_holds, if_holds,
}
use forgectrl.Events.Ring.{Event, no_event, Ring, Client, ring_size, is_current}
use forgectrl.Events.Streams.{
  Step, steps, await, Sent, hello, bye, keep_alive, nothing, lost, event, next_of, events_next,
  follow,
}
use forgectrl.Events.Delivery.{
  get_elem?-append, get_elem?-some, IsRing, Goes, Grows, Grows-trans, self-Goes, steps-Goes,
  await-Goes,
}

-- How one text moves a stream on from the event with a number: an event is the one with that
-- number, and a loss says how many are passed over.
abbrev pub Moves : List Event → ℕ → Sent → ℕ → Type 0
Moves log n (event e) m = (get_elem? log (n - 1) ≡ some e) × (m ≡ suc n)
Moves log n (lost k) m = (0 < k) × (m ≡ n + k)
Moves log n hello m = m ≡ n
Moves log n bye m = m ≡ n
Moves log n keep_alive m = m ≡ n
Moves log n nothing m = m ≡ n

abbrev pub Accounts : List Event → ℕ → List Sent → ℕ → Type 0
Accounts log n [] m = n ≡ m
Accounts log n (s ∷ ss) m = (k : ℕ) × (Moves log n s k × Accounts log k ss m)

-- A stream stands at an event that was published, or at the one that comes next.
abbrev pub Stands : Client → Ring → Type 0
Stands c r = (1 ≤ c.next) × (c.next ≤ r.head)

in_range : (l : List Event) (i : ℕ) (e : Event) → get_elem? l i ≡ some e → i < length l
in_range [] i e h = absurd (ground arith)
in_range (x ∷ l) zero e h = omega arith
in_range (x ∷ l) (suc i) e h = omega (arith, in_range l i e h)

-- What a call hands on from where the stream stood.
abbrev Handed : Client → Ring → Client × Sent → Type 0
Handed c r x = Moves r.log c.next x.1 x.0.next × Stands x.0 r

next_of-Moves : (c : Client) (r : Ring) → IsRing r → Stands c r → Handed c r (next_of c r)
next_of-Moves c r v st =
    let first = v.numbered in
    let size = v.cells_length in
    let hist = v.kept in
    let handed = Handed c r in
    if_holds handed r.stopping _ _ (λ a. (refl, st))
      (λ a.
        if_holds handed (not (is_current c r)) _ _
          (λ b. if_holds handed c.farewelled _ _ (λ d. (refl, st)) (λ d. (refl, st)))
          (λ b.
            if_holds handed (c.next == r.head) _ _ (λ d. (refl, st))
              (λ d.
                if_holds handed (ltb ring_size (r.head - c.next)) _ _
                  (λ e. ((ground arith, ground arith), (ground (arith, st.0), ground arith)))
                  (λ e.
                    let before : c.next < r.head = ground (arith, st.1) in
                    let near : r.head ≤ c.next + 64 = ground arith in
                    let cell : suc (c.next - 1) % ring_size ≡ c.next % ring_size =
                      omega (arith, st.0) in
                    let found : get_elem? r.cells (c.next % ring_size)
                        ≡ get_elem? r.log (c.next - 1) =
                      sym (ap (get_elem? r.cells) cell)
                      ∙ hist (c.next - 1) (omega (arith, before, first, st.0))
                          (omega (arith, near, first, st.0)) in
                    (
                      (
                        sym found
                            ∙ get_elem?-some r.cells (c.next % ring_size) no_event
                                (omega (arith, size)),
                        refl,
                      ),
                      (omega arith, omega (arith, before)),
                    )))))

Stands-Goes : (c : Client) (r r' : Ring) → IsRing r → Goes r r' → Stands c r → Stands c r'
Stands-Goes c r r' v g st =
    let first = v.numbered in
    let last = g.0.numbered in
    let grown = g.1.grown in
    (st.0, omega (arith, st.1, first, last, ap length grown, length-append r.log g.1.more))

-- What a call does: the ring goes on, and the stream is handed what comes next.
abbrev Nexts : Client → Ring → Ring × Client × Sent → Type 0
Nexts c r x = Goes r x.0 × (Moves x.0.log c.next x.2 x.1.next × Stands x.1 x.0)

events_next-Nexts :
    (wakes : List (List Step)) (c : Client) (r : Ring)
    → IsRing r
    → Stands c r
    → Nexts c r (events_next wakes c r)
unfolding events_next
events_next-Nexts wakes c r v st =
    let r' = await wakes c r in
    let g = await-Goes wakes c r v in
    if_holds (Nexts c r) (not c.greeted && not r.stopping) _ _ (λ a. (self-Goes r v, (refl, st)))
      (λ a. (g, next_of-Moves c r' g.0 (Stands-Goes c r r' v g st)))

Moves-Grows :
    (n m : ℕ) (s : Sent) (r r' : Ring) → Grows r r' → Moves r.log n s m → Moves r'.log n s m
Moves-Grows n m hello r r' g h = h
Moves-Grows n m bye r r' g h = h
Moves-Grows n m keep_alive r r' g h = h
Moves-Grows n m nothing r r' g h = h
Moves-Grows n m (lost k) r r' g h = h
Moves-Grows n m (event e) r r' g h =
    let longer = g.grown in
    (
      ap (λ l. get_elem? l (n - 1)) longer
          ∙ get_elem?-append r.log g.more (n - 1) (in_range r.log (n - 1) e h.0)
          ∙ h.0,
      h.1,
    )

abbrev Follows : Client → Ring → Ring × Client × List Sent → Type 0
Follows c r x = Goes r x.0 × (Accounts x.0.log c.next x.2 x.1.next × Stands x.1 x.0)

follow-Follows :
    (calls : List (List Step × List (List Step))) (c : Client) (r : Ring)
    → IsRing r
    → Stands c r
    → Follows c r (follow calls c r)
unfolding follow
follow-Follows [] c r v st = (self-Goes r v, (refl, st))
follow-Follows ((ss, wakes) ∷ calls) c r v st =
    let r1 = steps ss r in
    let p = steps-Goes ss r v in
    let y = events_next wakes c r1 in
    let q = events_next-Nexts wakes c r1 p.0 (Stands-Goes c r r1 v p st) in
    let ih = follow-Follows calls y.1 y.0 q.0.0 q.1.1 in
    let last = (follow calls y.1 y.0).0 in
    (
      (ih.0.0, Grows-trans r r1 last p.1 (Grows-trans r1 y.0 last q.0.1 ih.0.1)),
      ((y.1.next, (Moves-Grows c.next y.1.next y.2 y.0 last ih.0.1 q.1.0, ih.1.0)), ih.1.1),
    )

-- However the sections of other threads fall between a stream's calls and into its waits, every
-- event that was published from where it stood on is, in its order, either handed to it or counted
-- to it as lost, up to where it stands then, for a ring that holds the last 64.
pub follow-Accounts :
    (calls : List (List Step × List (List Step))) (c : Client) (r : Ring)
    → IsRing r
    → Stands c r
    → let x = follow calls c r in
      IsRing x.0 × (Accounts x.0.log c.next x.2 x.1.next × Stands x.1 x.0)
follow-Accounts calls c r v st = let f = follow-Follows calls c r v st in (f.0.0, f.1)
