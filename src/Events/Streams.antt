-- ===== src/Events/Streams.antt =====
-- `events_next` of src/events.c, among the calls of other threads.
use forgectrl.Prelude.{
  ℕ, suc, ◌-◌, ◌%◌, Bool, true, not, ◌&&◌, List, [], ◌∷◌, Bytes, get_or, ltb, ◌==◌, if◌then◌else◌,
}
use forgectrl.Events.Ring.{
  Event, no_event, Ring, Client, ring_size, publish_locked, events_publish, events_open,
  events_open_host, is_current, events_close, events_shutdown,
}

-- The sections of other threads: what the sampler and the routes publish, the streams that open and
-- close, and the daemon's end.
pub data Step : Type 0 where
  sampled published : Bytes → Bytes → Step
  opened : Bool → Bytes → Step
  host_opened : Bool → Step
  closed : Client → Step
  shut : Step

unfoldable pub step : Step → Ring → Ring
step (sampled name data_json) r = publish_locked name data_json r
step (published name data_json) r = events_publish name data_json r
step (opened memory peer) r = (events_open memory peer r).0
step (host_opened memory) r = (events_open_host memory r).0
step (closed c) r = events_close c r
step shut r = events_shutdown r

unfoldable pub steps : List Step → Ring → Ring
steps [] r = r
steps (s ∷ ss) r = steps ss (step s r)

-- The loop on the condition: at each wake the sections that ran meanwhile; behind the last the wait
-- has timed out.
unfoldable pub await : List (List Step) → Client → Ring → Ring
await [] c r = r
await (ss ∷ wakes) c r =
    let woken = await wakes c (steps ss r) in
    if not r.stopping && (is_current c r && c.next == r.head) then woken else r

-- What a call gives the stream: a text, or the -1 that ends it.
pub data Sent : Type 0 where
  hello bye keep_alive nothing : Sent
  lost : ℕ → Sent
  event : Event → Sent

abbrev pub next_of : Client → Ring → Client × Sent
next_of c r =
    if r.stopping
    then (c, nothing)
    else if not (is_current c r)
    then (if c.farewelled then (c, nothing) else (record c { farewelled = true }, bye))
    else if c.next == r.head
    then (c, keep_alive)
    else if ltb ring_size (r.head - c.next)
    then (record c { next = r.head - ring_size }, lost (r.head - ring_size - c.next))
    else (record c { next = suc c.next }, event (get_or r.cells (c.next % ring_size) no_event))

-- `events_next`
unfoldable pub events_next : List (List Step) → Client → Ring → Ring × Client × Sent
events_next wakes c r =
    let r' = await wakes c r in
    let got = next_of c r' in
    if not c.greeted && not r.stopping
    then (r, record c { greeted = true }, hello)
    else (r', got.0, got.1)

-- A stream's calls, with the sections that other threads run in between and while each waits.
unfoldable pub follow :
    List (List Step × List (List Step)) → Client → Ring → Ring × Client × List Sent
follow [] c r = (r, c, [])
follow ((ss, wakes) ∷ calls) c r =
    let (r', c', sent) = events_next wakes c (steps ss r) in
    let (last, c'', more) = follow calls c' r' in (last, c'', sent ∷ more)
