-- ===== src/Button/Tests.antt =====
-- The button of src/button.c at concrete readings.
use forgectrl.Prelude.{◌≡◌, refl, false, List, [], ◌∷◌, some}
use forgectrl.Button.Wait.{Read, up, down, is_up, pressed, Round, wait_from, wait_thread}
use forgectrl.Button.Edge.{IsPress, wait_thread-IsPress}

abbrev round : Read → Read → Round
round read again = record { cancel = false; now = 12; read = read; again = again }

abbrev presses : List Round
presses = round down down ∷ round up up ∷ round down up ∷ round down down ∷ []

presses-pressed : wait_thread 10 60 down presses ≡ some pressed
unfolding wait_from
presses-pressed = refl

wait_thread-IsPress_example : IsPress 10 60 (is_up down) presses
wait_thread-IsPress_example = wait_thread-IsPress 10 60 down presses presses-pressed
