-- ===== src/Capacity/Tests.antt =====
-- Runs of the capacity tracker, and its theorems at a small box.
use nightfury.Prelude.{refl, some, ◌≡◌, arith}
use nightfury.Capacity.{
  CapacityTracker, measured, declared, declared_capacity, observe, count_round, revise,
  set_capacity,
}
use nightfury.Capacity.Bounds.{IsValid, observe-IsValid}

-- Two cores and 4 GiB: the cores decide.
declared_capacity_run : declared_capacity 2 (some 4096) 50 ≡ 6
unfolding declared_capacity
declared_capacity_run = refl

abbrev busy : CapacityTracker
busy = record { ceiling = 8; capacity = 6; source = declared; over_streak = 4; under_streak = 0 }

-- Six cameras at 90% sustain five.
observe_run :
    observe busy 6 900_000
    ≡ record { ceiling = 8; capacity = 5; source = measured; over_streak = 0; under_streak = 0 }
unfolding observe count_round revise set_capacity
observe_run = refl

abbrev closed : CapacityTracker
closed = record { ceiling = 0; capacity = 1; source = declared; over_streak = 0; under_streak = 4 }

busy-IsValid : IsValid busy
busy-IsValid = ground arith

observe-IsValid_example : IsValid (observe busy 6 900_000)
observe-IsValid_example = observe-IsValid busy 6 900_000 busy-IsValid
