-- ===== src/Placement/Tests.antt =====
-- Runs of the planner, and its theorems at a plan with two sites.
use nightfury.Prelude.{
  ℕ, Bool, refl, Option, none, some, List, [], ◌∷◌, map, ◌≡◌, ◌≤◌, ◌⊎◌, true, false, here, there,
  In, arith,
}
use nightfury.Prelude.Dict.{lookup, insert}
use nightfury.Prelude.Sort.{sorted, place_sorted, Distinct, Distinct-eq}
use nightfury.Placement.{
  CameraSlot, AgentSlot, PlacementPlan, is_usable, changed, plan_placement, pack, pass_pinned,
  pass_sticky, pass_new, place_pinned, place_new, candidates, least, place, drop_camera, can_host,
  usable_agents, collect_usable, load_of,
}
use nightfury.Placement.Frame.{id_of}
use nightfury.Placement.Limits.{plan_placement-respects}
use nightfury.Placement.Unassigned.{Hopeless, plan_placement-unassigned}
use nightfury.Placement.Counts.{plan_placement-le-capacity, tally, plan_placement-counts}
use nightfury.Placement.Replay.{assign}
use nightfury.Placement.Stable.{plan_placement-stable}

abbrev camera : ℕ → ℕ → Option ℕ → Option ℕ → CameraSlot
camera i site current pinned = record {
  camera_id = i;
  site_id = site;
  current_agent_id = current;
  pinned_agent_id = pinned;
}

abbrev agent : ℕ → ℕ → ℕ → Bool → AgentSlot
agent i site capacity healthy = record {
  agent_id = i;
  site_id = some site;
  capacity = capacity;
  healthy = healthy;
}

-- Camera 3 is pinned to an agent that is down; the agent of camera 2 is full after camera 1.
abbrev cameras : List CameraSlot
cameras = camera 2 1 (some 10) none ∷ camera 1 1 (some 10) none ∷ camera 3 1 none (some 12) ∷ []

abbrev agents : List AgentSlot
agents = agent 12 1 5 false ∷ agent 11 1 2 true ∷ agent 10 1 1 true ∷ []

abbrev plan : PlacementPlan
plan = record {
  assignments = (3, none) ∷ (1, some 10) ∷ (2, some 11) ∷ [];
  moved = 2 ∷ [];
  unassigned = 3 ∷ [];
  per_agent_count = (10, 1) ∷ (11, 1) ∷ [];
}

plan_placement_run : plan_placement cameras agents ≡ plan
unfolding plan_placement pack pass_pinned pass_sticky pass_new place_pinned place_new candidates
    least place drop_camera can_host usable_agents collect_usable sorted place_sorted lookup insert
plan_placement_run = refl

cameras-Distinct : Distinct id_of cameras
cameras-Distinct = ground arith

usable_10 : lookup 10 (usable_agents agents) ≡ some (agent 10 1 1 true)
unfolding usable_agents collect_usable sorted place_sorted lookup insert
usable_10 = refl

plan_placement-le-capacity_example :
    tally (plan_placement cameras agents).assignments 10 cameras ≤ 1
plan_placement-le-capacity_example =
    plan_placement-le-capacity cameras agents 10 (agent 10 1 1 true) cameras-Distinct usable_10

assigned : lookup 2 (plan_placement cameras agents).assignments ≡ some (some 11)
unfolding lookup
assigned = rw plan_placement_run refl

plan_placement-respects_example :
    (a : AgentSlot) × In a agents
    × (a.agent_id ≡ 11)
    × (is_usable a ≡ true)
    × (a.site_id ≡ some 1)
    × (((camera 2 1 (some 10) none).pinned_agent_id ≡ some 11)
        ⊎ ((camera 2 1 (some 10) none).pinned_agent_id ≡ none))
plan_placement-respects_example =
    plan_placement-respects cameras agents (λ c d. Distinct-eq id_of cameras c d cameras-Distinct)
      (camera 2 1 (some 10) none) 11 here assigned

dropped : lookup 3 (plan_placement cameras agents).assignments ≡ some none
unfolding lookup
dropped = rw plan_placement_run refl

plan_placement-unassigned_example :
    Hopeless
      (usable_agents agents)
      (plan_placement cameras agents).per_agent_count
      (camera 3 1 none (some 12))
plan_placement-unassigned_example =
    plan_placement-unassigned cameras agents (λ c d. Distinct-eq id_of cameras c d cameras-Distinct)
      (camera 3 1 none (some 12)) (there (there here)) dropped

plan_placement-counts_example :
    load_of (plan_placement cameras agents).per_agent_count 11
    ≡ tally (plan_placement cameras agents).assignments 11 cameras
plan_placement-counts_example = plan_placement-counts cameras agents 11 cameras-Distinct

plan_placement-stable_example :
    changed
      (plan_placement (map (assign (plan_placement cameras agents).assignments) cameras) agents)
    ≡ false
plan_placement-stable_example = plan_placement-stable cameras agents cameras-Distinct
