-- ===== src/Journeys.antt =====
-- Journeys across connected cameras: backend/app/services/journeys.py. Times are in seconds. Of events
-- with one time the database may give any first; here it is the first in the table.
pub mod Links
pub mod Walk
mod Tests
use nightfury.Prelude.{
  ℕ, zero, suc, ◌+◌, ◌-◌, ◌*◌, ◌/◌, List, [], ◌∷◌, ◌++◌, map, Option, none, some, Bool, true, false,
  not, ◌&&◌, ltb, leb, ◌==◌, if◌then◌else◌, keep, elem, length,
}
use nightfury.Prelude.Dict.{Dict, lookup, insert, has, get_or}
use nightfury.Prelude.Sort.{sorted}

abbrev pub default_window : ℕ
default_window = 600

abbrev pub max_chain : ℕ
max_chain = 5

pub record CameraConnection : Type 0 where
  pub site_id : ℕ
  pub camera_a_id : ℕ
  pub camera_b_id : ℕ
  pub label : Option ℕ

-- The columns of an event that are read here.
pub record Event : Type 0 where
  pub id : ℕ
  pub camera_id : ℕ
  pub timestamp : ℕ
  pub event_type : ℕ
  pub severity : ℕ

-- `camera_name` is none for "Unknown camera".
pub record JourneyStep : Type 0 where
  pub camera_id : ℕ
  pub camera_name : Option ℕ
  pub event_id : ℕ
  pub timestamp : ℕ
  pub event_type : ℕ
  pub severity : ℕ
  pub via : Option ℕ

-- What the sentence of `_summarise` is made of.
pub record Summary : Type 0 where
  pub cameras : ℕ
  pub minutes : ℕ
  pub names : List (Option ℕ)

pub record Journey : Type 0 where
  pub seed_event_id : ℕ
  pub steps : List JourneyStep
  pub summary : Option Summary

-- `Journey.has_journey`
pub has_journey : Journey → Bool
has_journey j = ltb 1 (length j.steps)

abbrev pub Neighbours : Type 0
Neighbours = List (ℕ × Option ℕ)

-- `graph.setdefault(a, []).append((b, label))`
pub add_edge : ℕ → ℕ → Option ℕ → Dict Neighbours → Dict Neighbours
add_edge a b label graph = insert a (get_or [] (lookup a graph) ++ (b, label) ∷ []) graph

pub add_connections : List CameraConnection → Dict Neighbours → Dict Neighbours
unfolding add_edge
add_connections [] graph = graph
add_connections (c ∷ rows) graph = add_connections rows (
    add_edge c.camera_b_id c.camera_a_id c.label
      (add_edge c.camera_a_id c.camera_b_id c.label graph))

-- `_adjacency`
pub adjacency : List CameraConnection → ℕ → Dict Neighbours
unfolding add_connections
adjacency rows site_id = add_connections (keep (λ c. c.site_id == site_id) rows) []

abbrev pub last_of : JourneyStep → List JourneyStep → JourneyStep
last_of s [] = s
last_of s (t ∷ steps) = last_of t steps

-- `_summarise`; a difference of times below 0 is taken as 0.
pub summarise : List JourneyStep → Option Summary
summarise [] = none
summarise (s ∷ []) = none
summarise (s ∷ t ∷ steps) = some (record {
  cameras = length (s ∷ t ∷ steps);
  minutes = ((last_of t steps).timestamp - s.timestamp) / 60;
  names = map (λ x. x.camera_name) (s ∷ t ∷ steps);
})

-- `neighbours`
abbrev pub neighbours : Dict Neighbours → ℕ → List ℕ → Neighbours
neighbours graph camera visited =
    keep (λ e. not (elem e.0 visited)) (get_or [] (lookup camera graph))

-- `by_id`: of two labels for a camera the last stays.
pub by_id_from : Neighbours → Dict (Option ℕ) → Dict (Option ℕ)
by_id_from [] d = d
by_id_from ((c, label) ∷ es) d = by_id_from es (insert c label d)

-- The condition of the statement that finds the next event.
abbrev pub follows : Dict (Option ℕ) → List ℕ → ℕ → ℕ → Event → Bool
follows by_id seen time window e =
    (has e.camera_id by_id && not (elem e.id seen))
    && (ltb time e.timestamp && leb e.timestamp (time + window))

-- `order_by(Event.timestamp).limit(1)`
abbrev pub head : List Event → Option Event
head [] = none
head (e ∷ events) = some e

pub candidate : List Event → Dict (Option ℕ) → List ℕ → ℕ → ℕ → Option Event
candidate events by_id seen time window =
    head (sorted (λ e. e.timestamp) (keep (follows by_id seen time window) events))

abbrev pub step_of : Dict ℕ → Event → Option ℕ → JourneyStep
step_of names e via = record {
  camera_id = e.camera_id;
  camera_name = lookup e.camera_id names;
  event_id = e.id;
  timestamp = e.timestamp;
  event_type = e.event_type;
  severity = e.severity;
  via = via;
}

module _ (events : List Event) (names : Dict ℕ) (graph : Dict Neighbours) (window : ℕ) where
  -- The steps that the rounds left append, from the current camera and time.
  pub walk : ℕ → (camera time : ℕ) → (visited seen : List ℕ) → List JourneyStep
  unfolding candidate by_id_from
  walk zero camera time visited seen = []
  walk (suc rounds) camera time visited seen = elim (neighbours graph camera visited) [
    | [] ↦ []
    | n ∷ more ↦
        let by_id = by_id_from (n ∷ more) [] in
        elim (candidate events by_id seen time window) [
          | none ↦ []
          | some e ↦
              step_of names e (get_or none (lookup e.camera_id by_id))
              ∷ walk rounds e.camera_id e.timestamp (e.camera_id ∷ visited) (e.id ∷ seen)
        ]
  ]

-- `names` are those of the cameras of the seed's site.
pub build_journey :
    List CameraConnection
    → List Event
    → Dict ℕ
    → (site_id : ℕ) → Event
    → (window chain : ℕ) → Journey
unfolding adjacency walk summarise
build_journey connections events names site_id seed window chain =
    let first_step = step_of names seed none in
    elim (adjacency connections site_id) [
      | [] ↦ record { seed_event_id = seed.id; steps = first_step ∷ []; summary = none }
      | g ∷ more ↦
          let steps =
            first_step
            ∷ walk events names (g ∷ more) window (chain - 1) seed.camera_id seed.timestamp
                (seed.camera_id ∷ []) (seed.id ∷ []) in
          record { seed_event_id = seed.id; steps = steps; summary = summarise steps }
    ]

-- The texts of ids sort as their numbers do.
pub normalise_pair : ℕ → ℕ → ℕ × ℕ
normalise_pair a b = if ltb a b then (a, b) else (b, a)
