-- ===== src/Placement.antt =====
-- Camera placement: backend/app/services/camera_placement.py, the pure planner. A UUID is a
-- number: ids are compared, and their texts sort as the numbers do, since they have one length.
mod Usable
mod Rule
pub mod Frame
pub mod Counts
pub mod Covers
pub mod Replay
pub mod Stable
pub mod Limits
pub mod Moved
pub mod Unassigned
pub mod Uncounted
mod Tests
use nightfury.Prelude.{
  ℕ, ◌+◌, List, [], ◌∷◌, ◌++◌, map, Option, none, some, Bool, true, false, ◌&&◌, ◌||◌, ltb, ◌==◌,
  option_eq, if◌then◌else◌, keep,
}
use nightfury.Prelude.Dict.{Dict, lookup, insert, get_or}
use nightfury.Prelude.Sort.{sorted}

pub record CameraSlot : Type 0 where
  pub camera_id : ℕ
  pub site_id : ℕ
  pub current_agent_id : Option ℕ
  pub pinned_agent_id : Option ℕ

pub record AgentSlot : Type 0 where
  pub agent_id : ℕ
  pub site_id : Option ℕ
  pub capacity : ℕ
  pub healthy : Bool

pub record PlacementPlan : Type 0 where
  pub assignments : Dict (Option ℕ)
  pub moved : List ℕ
  pub unassigned : List ℕ
  pub per_agent_count : Dict ℕ

-- `PlacementPlan.changed`
unfoldable pub changed : PlacementPlan → Bool
changed plan = elim plan.moved [ [] ↦ false | _ ∷ _ ↦ true ]

-- The two things that the local functions of `plan_placement` change.
pub record Packing : Type 0 where
  pub load : Dict ℕ
  pub plan : PlacementPlan

abbrev pub has_site : Option ℕ → Bool
has_site none = false
has_site (some _) = true

-- `a.healthy and a.site_id is not None and a.capacity > 0`
abbrev pub is_usable : AgentSlot → Bool
is_usable a = a.healthy && has_site a.site_id && ltb 0 a.capacity

-- The loop of the comprehension that builds `usable`, from the agents in the order of their ids.
unfoldable pub collect_usable : List AgentSlot → Dict AgentSlot → Dict AgentSlot
collect_usable [] d = d
collect_usable (a ∷ agents) d =
    collect_usable agents (if is_usable a then insert a.agent_id a d else d)

unfoldable pub usable_agents : List AgentSlot → Dict AgentSlot
unfolding collect_usable
usable_agents agents = collect_usable (sorted (λ a. a.agent_id) agents) []

-- `load[agent_id]`; the keys of `load` are those of `usable`.
abbrev pub load_of : Dict ℕ → ℕ → ℕ
load_of load agent_id = get_or 0 (lookup agent_id load)

-- Site and capacity, as tested by `can_host` and by the candidates of the third pass.
abbrev pub has_room : Dict ℕ → CameraSlot → AgentSlot → Bool
has_room load cam a =
    option_eq a.site_id (some cam.site_id) && ltb (load_of load a.agent_id) a.capacity

module _ (usable : Dict AgentSlot) where
  unfoldable pub can_host : Dict ℕ → Option ℕ → CameraSlot → Bool
  can_host load none cam = false
  can_host load (some agent_id) cam = elim (lookup agent_id usable) [
    | none ↦ false
    | some agent ↦
        option_eq agent.site_id (some cam.site_id) && ltb (load_of load agent_id) agent.capacity
  ]

unfoldable pub place : CameraSlot → ℕ → Packing → Packing
place cam agent_id s = record {
  load = insert agent_id (load_of s.load agent_id + 1) s.load;
  plan = record s.plan {
    assignments = insert cam.camera_id (some agent_id) s.plan.assignments;
    moved =
        if option_eq cam.current_agent_id (some agent_id)
        then s.plan.moved
        else s.plan.moved ++ cam.camera_id ∷ [];
  };
}

-- The local function `drop`.
unfoldable pub drop_camera : CameraSlot → Packing → Packing
drop_camera cam s = record s {
  plan = record s.plan {
    assignments = insert cam.camera_id none s.plan.assignments;
    unassigned = s.plan.unassigned ++ cam.camera_id ∷ [];
    moved =
        if option_eq cam.current_agent_id none
        then s.plan.moved
        else s.plan.moved ++ cam.camera_id ∷ [];
  };
}

-- Places the camera on the agent that was found able to host it.
abbrev pub place_on : CameraSlot → Option ℕ → Packing → Packing
place_on cam none s = s
place_on cam (some agent_id) s = place cam agent_id s

-- `(load[a.agent_id], str(a.agent_id))` in the order of tuples.
abbrev pub before : Dict ℕ → AgentSlot → AgentSlot → Bool
before load a b =
    ltb (load_of load a.agent_id) (load_of load b.agent_id)
    || (load_of load a.agent_id == load_of load b.agent_id && ltb a.agent_id b.agent_id)

-- Python's `min` over candidates behind `a`: the first of the least.
unfoldable pub least : Dict ℕ → AgentSlot → List AgentSlot → AgentSlot
least load a [] = a
least load a (b ∷ bs) = least load (if before load b a then b else a) bs

module _ (usable : Dict AgentSlot) where
  -- One round of the first loop, for a camera with a pin.
  unfoldable pub place_pinned : CameraSlot → Packing → Packing
  unfolding can_host place drop_camera
  place_pinned cam s =
      if can_host usable s.load cam.pinned_agent_id cam
      then place_on cam cam.pinned_agent_id s
      else drop_camera cam s

  unfoldable pub pass_pinned :
      List CameraSlot → List CameraSlot → Packing → List CameraSlot × Packing
  unfolding place_pinned
  pass_pinned [] remaining s = (remaining, s)
  pass_pinned (cam ∷ cams) remaining s = elim cam.pinned_agent_id [
    | none ↦ pass_pinned cams (remaining ++ cam ∷ []) s
    | some _ ↦ pass_pinned cams remaining (place_pinned cam s)
  ]

  unfoldable pub pass_sticky :
      List CameraSlot → List CameraSlot → Packing → List CameraSlot × Packing
  unfolding can_host place
  pass_sticky [] homeless s = (homeless, s)
  pass_sticky (cam ∷ cams) homeless s = elim (can_host usable s.load cam.current_agent_id cam) [
    | true ↦ pass_sticky cams homeless (place_on cam cam.current_agent_id s)
    | false ↦ pass_sticky cams (homeless ++ cam ∷ []) s
  ]

  unfoldable pub candidates : Packing → CameraSlot → List AgentSlot
  candidates s cam = keep (has_room s.load cam) (map (λ e. e.1) usable)

  -- One round of the third loop.
  unfoldable pub place_new : CameraSlot → Packing → Packing
  unfolding candidates least place drop_camera
  place_new cam s = elim (candidates s cam) [
    | [] ↦ drop_camera cam s
    | a ∷ more ↦ place cam (least s.load a more).agent_id s
  ]

  unfoldable pub pass_new : List CameraSlot → Packing → Packing
  unfolding place_new
  pass_new [] s = s
  pass_new (cam ∷ cams) s = pass_new cams (place_new cam s)

abbrev pub empty_packing : Dict AgentSlot → Packing
empty_packing usable = record {
  load = map (λ e. (e.0, 0)) usable;
  plan = record { assignments = []; moved = []; unassigned = []; per_agent_count = [] };
}

-- The three passes over the cameras in the order of their ids.
unfoldable pub pack : Dict AgentSlot → List CameraSlot → Packing
unfolding pass_pinned pass_sticky pass_new
pack usable cameras =
    let (remaining, pinned) = pass_pinned usable cameras [] (empty_packing usable) in
    let (homeless, settled) = pass_sticky usable remaining [] pinned in
    pass_new usable homeless settled

unfoldable pub plan_placement : List CameraSlot → List AgentSlot → PlacementPlan
unfolding pack usable_agents
plan_placement cameras agents =
    let packed = pack (usable_agents agents) (sorted (λ c. c.camera_id) cameras) in
    record packed.plan { per_agent_count = packed.load }
