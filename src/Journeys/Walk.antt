-- ===== src/Journeys/Walk.antt =====
-- The walk: its length, its links, and that it visits no camera twice.
use nightfury.Prelude.{
  ℕ, zero, suc, ◌+◌, ◌-◌, ◌≤◌, ◌<◌, max, List, [], ◌∷◌, ◌≡◌, ◌≢◌, ◌⊎◌, refl, sym, ap, inl, inr,
  Option, none, false, not, In, All, All-map, In-keep, elem, length, arith, Option-cases,
  List-cases,
}
use mathlib.Core.Path.{subst}
use nightfury.Prelude.Dict.{Dict, lookup, get_or}
use nightfury.Prelude.Sort.{Distinct}
use nightfury.Journeys.{
  CameraConnection, Event, JourneyStep, Neighbours, adjacency, neighbours, by_id_from, candidate,
  step_of, walk, build_journey,
}
use nightfury.Journeys.Links.{Joins, adjacency-Joins, candidate-Follows}

-- Each step is an event on a camera that the site's map joins to the camera before it, later than the
-- event before it by at most the window.
abbrev pub Trail :
    List CameraConnection
    → List Event
    → (site_id window camera time : ℕ) → List JourneyStep
    → Type 0
Trail rows events site_id window camera time [] = Unit
Trail rows events site_id window camera time (s ∷ steps) =
    Joins rows site_id camera s.camera_id
    × (time < s.timestamp)
    × (s.timestamp ≤ time + window)
    × ((e : Event) × In e events
        × (e.id ≡ s.event_id)
        × (e.camera_id ≡ s.camera_id)
        × (e.timestamp ≡ s.timestamp))
    × Trail rows events site_id window s.camera_id s.timestamp steps

module _ (events : List Event) (names : Dict ℕ) (graph : Dict Neighbours) (window : ℕ) where
  -- How one round goes on: with an event on a neighbour that was not visited.
  record Goes (rounds camera time : ℕ) (visited seen : List ℕ) : Type 0 where
    event : Event
    via : Option ℕ
    edge : ℕ × Option ℕ
    to : edge.0 ≡ event.camera_id
    linked : In edge (get_or [] (lookup camera graph))
    fresh : elem event.camera_id visited ≡ false
    known : In event events
    later : time < event.timestamp
    soon : event.timestamp ≤ time + window
    walked :
        walk events names graph window (suc rounds) camera time visited seen
        ≡ step_of names event via
          ∷ walk events names graph window rounds event.camera_id event.timestamp
              (event.camera_id ∷ visited)
              (event.id ∷ seen)

  walk_cases :
      (rounds camera time : ℕ) (visited seen : List ℕ)
      → (walk events names graph window (suc rounds) camera time visited seen ≡ [])
        ⊎ Goes rounds camera time visited seen
  unfolding walk
  walk_cases rounds camera time visited seen = elim (List-cases (neighbours graph camera visited)) [
    | inl e ↦ inl (rw (e, walk) refl)
    | inr (n, more, e) ↦
        elim (Option-cases (candidate events (by_id_from (n ∷ more) []) seen time window)) [
          | inl f ↦ inl (rw (e, f, walk) refl)
          | inr (x, f) ↦
              let h = candidate-Follows events time window seen (n ∷ more) x f in
              let (linked, free) =
                In-keep (λ e. not (elem e.0 visited)) (get_or [] (lookup camera graph))
                  (subst (In (x.camera_id, h.label)) (sym e) h.neighbour) in
              inr (record {
                event = x;
                via = get_or none (lookup x.camera_id (by_id_from (n ∷ more) []));
                edge = (x.camera_id, h.label);
                to = refl;
                linked = linked;
                fresh = ground arith;
                known = h.known;
                later = h.later;
                soon = h.soon;
                walked = rw (e, f, walk) refl;
              })
        ]
  ]

  length-walk :
      (rounds camera time : ℕ) (visited seen : List ℕ)
      → length (walk events names graph window rounds camera time visited seen) ≤ rounds
  length-walk zero camera time visited seen = unfold walk in omega arith
  length-walk (suc rounds) camera time visited seen =
      elim (walk_cases rounds camera time visited seen) [
        | inl e ↦ rw e (omega arith)
        | inr g ↦ rw g.walked (
            omega (
              arith,
              length-walk rounds g.event.camera_id g.event.timestamp (g.event.camera_id ∷ visited)
                  (g.event.id ∷ seen),
            ))
      ]

  walk-unvisited :
      (rounds camera time : ℕ) (visited seen : List ℕ)
      → let steps = walk events names graph window rounds camera time visited seen in
        All (λ s. elem s.camera_id visited ≡ false) steps × Distinct (λ s. s.camera_id) steps
  walk-unvisited zero camera time visited seen = unfold walk in (tt, tt)
  walk-unvisited (suc rounds) camera time visited seen =
      elim (walk_cases rounds camera time visited seen) [
        | inl e ↦ rw e (tt, tt)
        | inr g ↦
            let (out, apart) =
              walk-unvisited rounds g.event.camera_id g.event.timestamp
                (g.event.camera_id ∷ visited) (g.event.id ∷ seen) in
            rw g.walked (
              (
                g.fresh,
                All-map _ (λ s. elem s.camera_id visited ≡ false) _ (λ s h. ground arith) out,
              ),
              (All-map _ (λ s. s.camera_id ≢ g.event.camera_id) _ (λ s h. ground arith) out, apart),
            )
      ]

module _ (rows : List CameraConnection) (events : List Event) (names : Dict ℕ)
    (site_id window : ℕ) where
  walk-Trail :
      (rounds camera time : ℕ) (visited seen : List ℕ)
      → Trail rows events site_id window camera time
          (walk events names (adjacency rows site_id) window rounds camera time visited seen)
  walk-Trail zero camera time visited seen = unfold walk in tt
  walk-Trail (suc rounds) camera time visited seen =
      elim (walk_cases events names (adjacency rows site_id) window rounds camera time visited
        seen) [
          | inl e ↦ rw e tt
          | inr g ↦ rw g.walked (
            rw (← g.to) (adjacency-Joins rows site_id camera g.linked),
            g.later,
            g.soon,
            (g.event, g.known, refl, refl, refl),
            walk-Trail rounds g.event.camera_id g.event.timestamp (g.event.camera_id ∷ visited)
                (g.event.id ∷ seen),
          )
        ]

  -- With or without a map, the steps are the seed's and those of the walk.
  build_journey-steps :
      (seed : Event) (chain : ℕ)
      → (build_journey rows events names site_id seed window chain).steps
        ≡ step_of names seed none
          ∷ walk events names
              (adjacency rows site_id)
              window
              (chain - 1)
              seed.camera_id
              seed.timestamp
              (seed.camera_id ∷ [])
              (seed.id ∷ [])
  unfolding build_journey lookup
  build_journey-steps seed chain = elim (List-cases (adjacency rows site_id)) [
    | inl e ↦
        rw (e, build_journey) (ap (λ l. step_of names seed none ∷ l) (sym (still (chain - 1))))
    | inr (g, more, e) ↦ rw (e, build_journey) refl
  ]
    where
      still :
          (rounds : ℕ)
          → walk events names [] window rounds seed.camera_id seed.timestamp
              (seed.camera_id ∷ [])
              (seed.id ∷ [])
            ≡ []
      still zero = unfold walk in refl
      still (suc rounds) =
          elim (walk_cases events names [] window rounds seed.camera_id seed.timestamp
            (seed.camera_id ∷ []) (seed.id ∷ [])) [ inl e ↦ e | inr g ↦ elim g.linked [ ] ]

-- The first step of a journey is the seed. Each further step is an event on a camera that a
-- connection of the seed's site joins to the camera of the step before, later than that step, and by
-- at most the window.
pub build_journey-Trail :
    (rows : List CameraConnection) (events : List Event) (names : Dict ℕ) (site_id : ℕ)
    (seed : Event) (window chain : ℕ)
    → (steps : List JourneyStep) × ((build_journey rows events names site_id seed window
          chain).steps
        ≡ step_of names seed none ∷ steps)
      × Trail rows events site_id window seed.camera_id seed.timestamp steps
build_journey-Trail rows events names site_id seed window chain = (
  _,
  build_journey-steps rows events names site_id window seed chain,
  walk-Trail rows events names site_id window (chain - 1) seed.camera_id seed.timestamp
      (seed.camera_id ∷ []) (seed.id ∷ []),
)

-- A journey has at most as many steps as its chain may be long, or one, and no two on one camera.
pub build_journey-bounded :
    (rows : List CameraConnection) (events : List Event) (names : Dict ℕ) (site_id : ℕ)
    (seed : Event) (window chain : ℕ)
    → let steps = (build_journey rows events names site_id seed window chain).steps in
      (length steps ≤ max 1 chain) × Distinct (λ s. s.camera_id) steps
build_journey-bounded rows events names site_id seed window chain =
    let graph = adjacency rows site_id in
    let short =
      length-walk events names graph window (chain - 1) seed.camera_id seed.timestamp
        (seed.camera_id ∷ []) (seed.id ∷ []) in
    let (out, apart) =
      walk-unvisited events names graph window (chain - 1) seed.camera_id seed.timestamp
        (seed.camera_id ∷ []) (seed.id ∷ []) in
    rw (build_journey-steps rows events names site_id window seed chain) (
      omega (arith, short),
      (All-map _ (λ s. s.camera_id ≢ seed.camera_id) _ (λ s h. ground arith) out, apart),
    )
