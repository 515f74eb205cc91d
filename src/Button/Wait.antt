-- ===== src/Button/Wait.antt =====
-- The wait for a press in src/button.c.
use forgectrl.Prelude.{
  ℕ, ◌-◌, Bool, true, false, not, ◌&&◌, ◌||◌, List, [], ◌∷◌, Option, none, some, leb, if◌then◌else◌,
}

-- `read_button`: -1, 0 and 1.
pub data Read : Type 0 where
  unreadable up down : Read

abbrev pub is_up : Read → Bool
is_up up = true
is_up down = false
is_up unreadable = false

abbrev pub is_down : Read → Bool
is_down up = false
is_down down = true
is_down unreadable = false

-- The states of a wait.
pub data State : Type 0 where
  idle waiting pressed timeout cancelled : State

-- One round of the thread's loop: the flag, the clock in seconds, and the two readings.
pub record Round : Type 0 where
  pub cancel : Bool
  pub now : ℕ
  pub read : Read
  pub again : Read

-- The loop from a first reading on; `none` is a thread that waits on behind these rounds.
unfoldable pub wait_from : ℕ → ℕ → Bool → List Round → Option State
wait_from t0 timeout_s released [] = none
wait_from t0 timeout_s released (r ∷ rs) =
    let on = wait_from t0 timeout_s (released || is_up r.read) rs in
    if r.cancel
    then some cancelled
    else if leb timeout_s (r.now - t0)
    then some timeout
    else if is_down r.read && released && is_down r.again
    then some pressed
    else on

-- `wait_thread`
abbrev pub wait_thread : ℕ → ℕ → Read → List Round → Option State
wait_thread t0 timeout_s first rounds = wait_from t0 timeout_s (is_up first) rounds

-- `button_wait_start`, with whether a thread could be made; and its 0 or -1.
unfoldable pub button_wait_start : Bool → State → State × Bool
button_wait_start thread waiting = (waiting, false)
button_wait_start thread _ = if thread then (waiting, true) else (idle, false)

-- The thread's end
abbrev pub thread_ends : Option State → State → State
thread_ends none s = s
thread_ends (some result) s = result

-- `button_wait_cancel`, which joins the thread: the state is what the thread ends with.
unfoldable pub button_wait_cancel : State → State → State
button_wait_cancel result waiting = result
button_wait_cancel result s = s

-- `button_take_pressed`
unfoldable pub button_take_pressed : State → State × Bool
button_take_pressed pressed = (idle, true)
button_take_pressed s = (s, false)

-- `button_held_for`, over its rounds of the clock and a reading: `none` looks on.
unfoldable pub button_held_for : ℕ → ℕ → List (Read × ℕ) → Option Bool
button_held_for t0 hold_s [] = none
button_held_for t0 hold_s ((read, now) ∷ rounds) =
    let on = button_held_for t0 hold_s rounds in
    if not (is_down read) then some false else if leb hold_s (now - t0) then some true else on
