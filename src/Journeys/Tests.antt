-- ===== src/Journeys/Tests.antt =====
-- The theorems on journeys, at a corridor of three cameras.
use nightfury.Prelude.{ℕ, List, [], ◌∷◌, ◌≡◌, ◌≤◌, refl, Option, none, some, length}
use nightfury.Prelude.Dict.{Dict, lookup, insert, has}
use nightfury.Prelude.Sort.{Distinct, sorted, place_sorted}
use nightfury.Journeys.{
  CameraConnection, Event, JourneyStep, step_of, build_journey, adjacency, add_connections,
  add_edge, walk, candidate, by_id_from, summarise,
}
use nightfury.Journeys.Walk.{Trail, build_journey-Trail, build_journey-bounded}

abbrev connection : ℕ → ℕ → CameraConnection
connection a b = record { site_id = 7; camera_a_id = a; camera_b_id = b; label = some 3 }

abbrev event : ℕ → ℕ → ℕ → Event
event i camera time = record {
  id = i;
  camera_id = camera;
  timestamp = time;
  event_type = 1;
  severity = 2;
}

abbrev rows : List CameraConnection
rows = connection 1 2 ∷ connection 3 2 ∷ []

abbrev events : List Event
events = event 51 3 300 ∷ event 52 2 120 ∷ event 53 1 400 ∷ []

abbrev names : Dict ℕ
names = (1, 11) ∷ (2, 12) ∷ []

abbrev step : ℕ → Option ℕ → ℕ → ℕ → Option ℕ → JourneyStep
step camera name i time via = record {
  camera_id = camera;
  camera_name = name;
  event_id = i;
  timestamp = time;
  event_type = 1;
  severity = 2;
  via = via;
}

build_journey_run :
    (build_journey rows events names 7 (event 50 1 100) 600 5).steps
    ≡ step 1 (some 11) 50 100 none
      ∷ step 2 (some 12) 52 120 (some 3)
      ∷ step 3 none 51 300 (some 3)
      ∷ []
unfolding build_journey adjacency add_connections add_edge walk candidate by_id_from summarise
    lookup insert has sorted place_sorted
build_journey_run = refl

build_journey-Trail_example :
    (steps : List JourneyStep) × ((build_journey rows events names 7 (event 50 1 100) 600 5).steps
      ≡ step_of names (event 50 1 100) none ∷ steps)
    × Trail rows events 7 600 1 100 steps
build_journey-Trail_example = build_journey-Trail rows events names 7 (event 50 1 100) 600 5

build_journey-bounded_example :
    (length (build_journey rows events names 7 (event 50 1 100) 600 5).steps ≤ 5)
    × Distinct (λ s. s.camera_id) (build_journey rows events names 7 (event 50 1 100) 600 5).steps
build_journey-bounded_example = build_journey-bounded rows events names 7 (event 50 1 100) 600 5
