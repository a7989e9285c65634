-- ===== src/Capacity/Bounds.antt =====
-- The bounds of the measured capacity, and its hysteresis.
use nightfury.Prelude.{ℕ, ◌+◌, ◌≤◌, ◌<◌, List, [], ◌∷◌, length, ◌≡◌, ◌⊎◌, ◌∙◌, refl, Option, arith}
use nightfury.Capacity.{
  CapacityTracker, measured, declared_capacity, new_tracker, count_round, observe, observe_all,
  saturation_ratio, sustainable,
}

pub record IsValid (t : CapacityTracker) : Type 0 where
  pub positive : 1 ≤ t.capacity
  pub capped : t.capacity ≤ t.ceiling
  pub over_short : t.over_streak < 5
  pub under_short : t.under_streak < 5

-- A box with a positive ceiling starts with a capacity between 1 and the ceiling.
pub new_tracker-IsValid :
    (cpu : ℕ) (mb : Option ℕ) (ceiling : ℕ) → 1 ≤ ceiling → IsValid (new_tracker cpu mb ceiling)
unfolding new_tracker
new_tracker-IsValid cpu mb ceiling h = ground arith

count_round-streaks :
    (t : CapacityTracker) (a u : ℕ)
    → IsValid t
    → let t' = count_round t a u in
      (t'.capacity ≡ t.capacity)
      × (t'.ceiling ≡ t.ceiling)
      × (t'.over_streak ≤ 5)
      × (t'.under_streak ≤ 5)
      × ((t'.over_streak ≡ 0) ⊎ (t'.under_streak ≡ 0))
unfolding count_round
count_round-streaks t a u v = ground arith

-- Every health-check round keeps the capacity between 1 and the ceiling, and the streaks below five.
pub observe-IsValid :
    (t : CapacityTracker) (active utilisation : ℕ)
    → IsValid t
    → IsValid (observe t active utilisation)
unfolding observe
observe-IsValid t a u v = ground arith

-- Fewer than five rounds after the start leave the capacity alone.
streaks-le :
    (t : CapacityTracker) (a u : ℕ) (n : ℕ)
    → t.over_streak ≤ n
    → t.under_streak ≤ n
    → n < 4
    → let t' = observe t a u in
      (t'.capacity ≡ t.capacity) × (t'.over_streak ≤ n + 1) × (t'.under_streak ≤ n + 1)
unfolding observe
streaks-le t a u n h k l = ground arith

observe_all-steady_from :
    (rounds : List (ℕ × ℕ)) (t : CapacityTracker) (n : ℕ)
    → t.over_streak ≤ n
    → t.under_streak ≤ n
    → n + length rounds < 5
    → (observe_all t rounds).capacity ≡ t.capacity
unfolding observe_all
observe_all-steady_from [] t n h k l = refl
observe_all-steady_from ((a, u) ∷ rounds) t n h k l =
    let (same, over, under) = streaks-le t a u n h k (omega arith) in
    observe_all-steady_from rounds (observe t a u) (n + 1) over under (omega arith) ∙ same

-- Fewer than five health-check rounds after the start never change the capacity.
pub observe_all-steady :
    (cpu : ℕ) (mb : Option ℕ) (ceiling : ℕ) (rounds : List (ℕ × ℕ))
    → length rounds < 5
    → (observe_all (new_tracker cpu mb ceiling) rounds).capacity ≡ declared_capacity cpu mb ceiling
unfolding new_tracker
observe_all-steady cpu mb ceiling rounds h =
    observe_all-steady_from rounds (new_tracker cpu mb ceiling) 0 (omega arith) (omega arith)
      (omega arith)

-- The fifth saturated round in a row lowers the capacity, unless it is 1 already, and not above
-- what the observed cost sustains, unless that is below 1.
pub observe-sheds :
    (t : CapacityTracker) (active utilisation : ℕ)
    → 0 < active
    → saturation_ratio < utilisation
    → 4 ≤ t.over_streak
    → 1 < t.capacity
    → let t' = observe t active utilisation in
      (t'.capacity < t.capacity)
      × (t'.source ≡ measured)
      × (t'.over_streak ≡ 0)
      × ((t'.capacity ≡ 1) ⊎ (t'.capacity ≤ sustainable active utilisation))
unfolding observe
observe-sheds t a u pos sat streak big = ground arith

-- With a ceiling of 0 the fifth idle round at capacity 1 sets the capacity to 0.
pub observe_zero_ceiling :
    (t : CapacityTracker) (active utilisation : ℕ)
    → t.ceiling ≡ 0
    → t.capacity ≡ 1
    → t.under_streak ≡ 4
    → 0 < active
    → utilisation < 375_000
    → (observe t active utilisation).capacity ≡ 0
unfolding observe
observe_zero_ceiling t a u c cap streak pos low = ground arith
