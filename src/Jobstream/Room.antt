-- ===== src/Jobstream/Room.antt =====
-- On the lines that `jobstream_run` of src/jobstream.c sends, and the room they need.
use forgectrl.Prelude.{
  ℕ, zero, suc, ◌+◌, ◌-◌, ◌%◌, ◌≤◌, ◌<◌, ◌≡◌, refl, ◌∙◌, inl, inr, Bool, true, false, ◌||◌, List,
  [], ◌∷◌, Option, none, some, Bytes, length, length-set, if◌then◌else◌, arith, Bool-cases,
}
use forgectrl.Jobstream.State.{Stream}
use forgectrl.Jobstream.Answers.{Failure}
use forgectrl.Jobstream.Sending.{
  Gen, line, finished, pausing, refusing, is_barrier, must_wait, put, try_line, then_send, ask,
  send, send_held,
}
use forgectrl.Jobstream.Window.{IsValid, total, total-set}

-- A line from the generator's buffer of 254 bytes.
abbrev pub Fits : Gen → Type 0
Fits (line l) = length l ≤ 253
Fits finished = Unit
Fits pausing = Unit
Fits refusing = Unit

abbrev pub AllFit : List Gen → Type 0
AllFit [] = Unit
AllFit (g ∷ gs) = Fits g × AllFit gs

abbrev pub HeldFits : Option Bytes → Type 0
HeldFits none = Unit
HeldFits (some l) = length l ≤ 253

total_none : (lens : List ℕ) (k n : ℕ) → n ≡ 0 → total lens k n ≡ 0
total_none lens k zero h = refl
total_none lens k (suc n) h = absurd (omega arith)

-- A line that does not wait has room for its bytes and in the ring; a barrier finds nothing out.
room :
    (l : Bytes) (s : Stream)
    → length l ≤ 253
    → IsValid s
    → must_wait l s ≡ false
    → (s.sent < s.acked + 32)
      × (s.inflight + (length l + 1) ≤ 512)
      × (is_barrier l ≡ true → s.sent ≡ s.acked)
room l s f v w =
    let z = total_none s.sent_len s.acked (s.sent - s.acked) in
    (ground arith, ground (arith, z), ground arith)

put-IsValid :
    (l : Bytes) (s : Stream)
    → length l ≤ 253
    → IsValid s
    → s.barrier ≡ false
    → must_wait l s ≡ false
    → IsValid (put l s)
put-IsValid l s f v b w =
    let (r, q, a) = room l s f v w in
    let n = s.sent - s.acked in
    let e : s.sent + 1 - s.acked ≡ suc n = omega arith in
    record {
      order = omega arith;
      lines = omega arith;
      bytes = omega arith;
      exact = rw e (
          omega (
            arith,
            total-set s.sent_len n s.acked s.sent (length l + 1) v.ring (omega arith) (omega arith),
          ));
      ring = length-set s.sent_len (s.sent % 32) (length l + 1) ∙ v.ring;
      alone = ground arith;
    }

-- What the loop keeps between its rounds.
pub record Sends (s : Stream) : Type 0 where
  pub valid : IsValid s
  pub fits : HeldFits s.held

hold-IsValid : (l : Bytes) (s : Stream) → IsValid s → IsValid (record s { held = some l })
hold-IsValid l s v = record {
  order = v.order;
  lines = v.lines;
  bytes = v.bytes;
  exact = v.exact;
  ring = v.ring;
  alone = v.alone;
}

-- After a line that went out the loop goes on only without a barrier.
record Tried (x : Stream × Bool × Option Failure) : Type 0 where
  sends : Sends x.0
  free : x.1 ≡ true → x.0.barrier ≡ false

if_Tried :
    (b : Bool) {x y : Stream × Bool × Option Failure}
    → (b ≡ true → Tried x)
    → (b ≡ false → Tried y)
    → Tried (if b then x else y)
if_Tried true p q = p refl
if_Tried false p q = q refl

try_line-Tried :
    (writes : Bool) (l : Bytes) (s : Stream)
    → length l ≤ 253
    → IsValid s
    → s.barrier ≡ false
    → Tried (try_line writes l s)
unfolding try_line
try_line-Tried writes l s f v b =
    let held : Sends (record s { held = some l }) = record {
      valid = hold-IsValid l s v;
      fits = f;
    } in
    if_Tried (must_wait l s) (λ w. record { sends = held; free = λ e. b })
      (λ w.
        if_Tried writes
          (λ k. record {
            sends = record { valid = put-IsValid l s f v b w; fits = tt };
            free = ground arith;
          })
          (λ k. record { sends = held; free = λ e. b }))

then_send-Sends :
    (x : Stream × Bool × Option Failure) (rest : Stream × Option Failure)
    → Tried x
    → (x.1 ≡ true → Sends rest.0)
    → Sends (then_send x rest).0
then_send-Sends (s, true, none) rest t h = h refl
then_send-Sends (s, false, none) rest t h = t.sends
then_send-Sends (s, more, some f) rest t h = t.sends

ask-Sends :
    (writes : Bool) (gs : List Gen) (s : Stream)
    → AllFit gs
    → Sends s
    → s.barrier ≡ false
    → Sends (ask writes gs s).0
unfolding ask
ask-Sends writes [] s f v b = v
ask-Sends writes (refusing ∷ gs) s f v b = v
ask-Sends writes (pausing ∷ gs) s f v b = v
ask-Sends writes (finished ∷ gs) s f v b = record {
  valid = record {
    order = v.valid.order;
    lines = v.valid.lines;
    bytes = v.valid.bytes;
    exact = v.valid.exact;
    ring = v.valid.ring;
    alone = v.valid.alone;
  };
  fits = v.fits;
}
ask-Sends writes (line l ∷ gs) s f v b =
    let t = try_line-Tried writes l s f.0 v.valid b in
    let x = try_line writes l s in
    then_send-Sends x (ask writes gs x.0) t (λ e. ask-Sends writes gs x.0 f.1 t.sends (t.free e))

send_held-Sends :
    (writes : Bool) (gs : List Gen) (h : Option Bytes) (s : Stream)
    → AllFit gs
    → HeldFits h
    → Sends s
    → s.barrier ≡ false
    → Sends (send_held writes gs h s).0
send_held-Sends writes gs none s f k v b = ask-Sends writes gs s f v b
send_held-Sends writes gs (some l) s f k v b =
    let t = try_line-Tried writes l s k v.valid b in
    let x = try_line writes l s in
    then_send-Sends x (ask writes gs x.0) t (λ e. ask-Sends writes gs x.0 f t.sends (t.free e))

pub send-Sends :
    (writes : Bool) (gs : List Gen) (s : Stream) → AllFit gs → Sends s → Sends (send writes gs s).0
unfolding send
send-Sends writes gs s f v = elim (Bool-cases (s.done_sending || s.barrier)) [
  | inl e ↦ rw e v
  | inr e ↦ rw e (send_held-Sends writes gs s.held s f v.fits v (ground arith))
]
