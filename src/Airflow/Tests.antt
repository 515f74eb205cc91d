-- ===== src/Airflow/Tests.antt =====
-- The gate at concrete readings.
use forgectrl.Prelude.{◌≡◌, false, [], ◌∷◌, arith}
use forgectrl.Airflow.Gate.{Reading, reset, ticks}
use forgectrl.Airflow.Latch.{is_tripped, three_low, ticks_trip}

abbrev low : Reading
low = record { reading = 900; floor = 6000; in_grace = false }

abbrev good : Reading
good = record { reading = 9000; floor = 6000; in_grace = false }

ticks_trip_example :
    is_tripped (ticks (low ∷ good ∷ low ∷ low ∷ low ∷ good ∷ []) reset).state
    ≡ three_low 0 (low ∷ good ∷ low ∷ low ∷ low ∷ good ∷ [])
ticks_trip_example =
    ticks_trip (low ∷ good ∷ low ∷ low ∷ low ∷ good ∷ [])
      (omega arith, (omega arith, (omega arith, (omega arith, (omega arith, (omega arith, tt))))))
