-- ===== src/Capacity.antt =====
-- How many cameras a box can run: agent/pipeline/capacity.py. A utilisation is a whole number of
-- millionths, so SATURATION_RATIO is 750000; what the operating system reports is an argument.
pub mod Bounds
mod Tests
use nightfury.Prelude.{
  ℕ, ◌+◌, ◌-◌, ◌*◌, ◌/◌, min, max, List, [], ◌∷◌, Option, none, some, Bool, true, false, ◌&&◌, ◌==◌,
  ltb, leb, if◌then◌else◌,
}

abbrev pub cameras_per_core : ℕ
cameras_per_core = 3

abbrev pub mb_per_camera : ℕ
mb_per_camera = 350

abbrev pub reserved_mb : ℕ
reserved_mb = 1024

abbrev pub min_capacity : ℕ
min_capacity = 1

abbrev pub hysteresis_samples : ℕ
hysteresis_samples = 5

-- Millionths.
abbrev pub saturation_ratio : ℕ
saturation_ratio = 750_000

-- `declared_capacity`, from the number of usable cores and the available memory, if it is known. A
-- box with less than the reserve has a negative quotient there, and 0 here: both are raised to 1.
pub declared_capacity : (cpu_count : ℕ) (available_mb : Option ℕ) (ceiling : ℕ) → ℕ
declared_capacity cpu_count available_mb ceiling =
    let by_cpu = cpu_count * cameras_per_core in
    let by_mem : ℕ = elim available_mb [
      | none ↦ by_cpu
      | some mb ↦ max min_capacity ((mb - reserved_mb) / mb_per_camera)
    ] in
    max min_capacity (min by_cpu (min by_mem ceiling))

pub data Source : Type 0 where
  declared measured : Source

pub record CapacityTracker : Type 0 where
  pub ceiling : ℕ
  pub capacity : ℕ
  pub source : Source
  pub over_streak : ℕ
  pub under_streak : ℕ

-- `CapacityTracker.__init__`
pub new_tracker : (cpu_count : ℕ) (available_mb : Option ℕ) (ceiling : ℕ) → CapacityTracker
unfolding declared_capacity
new_tracker cpu_count available_mb ceiling = record {
  ceiling = ceiling;
  capacity = declared_capacity cpu_count available_mb ceiling;
  source = declared;
  over_streak = 0;
  under_streak = 0;
}

-- `_set`
pub set_capacity : CapacityTracker → ℕ → CapacityTracker
set_capacity t n = if n == t.capacity then t else record t { capacity = n; source = measured }

-- The streaks after one round, for a box that runs some camera.
pub count_round : CapacityTracker → ℕ → ℕ → CapacityTracker
count_round t active utilisation =
    if ltb saturation_ratio utilisation
    then record t { over_streak = t.over_streak + 1; under_streak = 0 }
    else if ltb utilisation (saturation_ratio / 2) && leb t.capacity active
    then record t { under_streak = t.under_streak + 1; over_streak = 0 }
    else record t { over_streak = 0; under_streak = 0 }

-- `int(active_cameras * SATURATION_RATIO / max(mean_utilisation, 0.01))`
abbrev pub sustainable : ℕ → ℕ → ℕ
sustainable active utilisation = (active * saturation_ratio) / max utilisation 10_000

-- What a full streak does. `self.capacity - 1` stops at 0 here, and is raised to 1 all the same.
pub revise : CapacityTracker → ℕ → ℕ → CapacityTracker
unfolding set_capacity
revise t active utilisation =
    if leb hysteresis_samples t.over_streak
    then (let sustained = max min_capacity (sustainable active utilisation) in
        let lowered = min sustained (min (t.capacity - 1) t.ceiling) in
        record (set_capacity t (max min_capacity lowered)) { over_streak = 0 })
    else if leb hysteresis_samples t.under_streak
    then record (set_capacity t (min t.ceiling (t.capacity + 1))) { under_streak = 0 }
    else t

pub observe : CapacityTracker → ℕ → ℕ → CapacityTracker
unfolding count_round revise
observe t active utilisation =
    if active == 0 then t else revise (count_round t active utilisation) active utilisation

pub data LoadState : Type 0 where
  ok : LoadState
  over_capacity : (rejected capacity : ℕ) → LoadState
  degraded : (active capacity : ℕ) → LoadState

-- The state with the numbers that its reason text shows.
pub load_state : CapacityTracker → ℕ → ℕ → LoadState
load_state t active rejected =
    if ltb 0 rejected
    then over_capacity rejected t.capacity
    else if ltb t.capacity active
    then degraded active t.capacity
    else ok

-- Several health-check rounds.
pub observe_all : CapacityTracker → List (ℕ × ℕ) → CapacityTracker
unfolding observe
observe_all t [] = t
observe_all t ((active, utilisation) ∷ rounds) = observe_all (observe t active utilisation) rounds
