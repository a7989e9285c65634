-- ===== src/Reconcile.antt =====
-- Placement against the database: `reconcile_site` of backend/app/services/camera_placement.py. The
-- tables are the lists of their rows, with the columns that placement and failover read or write.
pub mod Rows
pub mod Assigned
pub mod Versions
pub mod Counts
mod Tests
use nightfury.Prelude.{
  ℕ, ◌+◌, List, [], ◌∷◌, ◌++◌, map, Option, none, some, Bool, true, false, not, ◌&&◌, ◌==◌,
  option_eq, if◌then◌else◌, keep, elem, option_list,
}
use nightfury.Prelude.Dict.{lookup, get_or}
use nightfury.Placement.{CameraSlot, AgentSlot, PlacementPlan, changed, plan_placement}
use nightfury.Placement.Replay.{agent_in}

abbrev pub default_capacity : ℕ
default_capacity = 4

-- `reported` is any other text.
pub data CameraStatus : Type 0 where
  unassigned offline : CameraStatus
  reported : ℕ → CameraStatus

pub record Camera : Type 0 where
  pub id : ℕ
  pub org_id : ℕ
  pub site_id : ℕ
  pub agent_id : Option ℕ
  pub pinned_agent_id : Option ℕ
  pub deleted_at : Option ℕ
  pub status : CameraStatus

-- `inactive` is any other text, such as "unpaired".
pub data AgentStatus : Type 0 where
  online offline : AgentStatus
  inactive : ℕ → AgentStatus

pub data LoadStatus : Type 0 where
  ok degraded over_capacity : LoadStatus

pub record Agent : Type 0 where
  pub id : ℕ
  pub org_id : ℕ
  pub site_id : Option ℕ
  pub machine_id : ℕ
  pub capacity_cameras : Option ℕ
  pub assigned_count : ℕ
  pub assignment_version : ℕ
  pub status : AgentStatus
  pub load_state : LoadStatus
  pub load_reason : Option ℕ
  pub last_seen_at : Option ℕ

pub record Fleet : Type 0 where
  pub cameras : List Camera
  pub agents : List Agent

abbrev pub is_live : Option ℕ → Bool
is_live none = true
is_live (some _) = false

abbrev pub is_online : AgentStatus → Bool
is_online online = true
is_online AgentStatus.offline = false
is_online (inactive _) = false

-- `where(site_id == …)`, if a site is given
abbrev pub at_site : Option ℕ → Option ℕ → Bool
at_site none site_id = true
at_site (some site) site_id = option_eq site_id (some site)

module _ (org_id : ℕ) (site : Option ℕ) where
  -- The two statements.
  abbrev pub selects_camera : Camera → Bool
  selects_camera c = (c.org_id == org_id && is_live c.deleted_at) && at_site site (some c.site_id)

  abbrev pub selects_agent : Agent → Bool
  selects_agent a = a.org_id == org_id && at_site site a.site_id

abbrev pub camera_slot : Camera → CameraSlot
camera_slot c = record {
  camera_id = c.id;
  site_id = c.site_id;
  current_agent_id = c.agent_id;
  pinned_agent_id = c.pinned_agent_id;
}

abbrev pub agent_slot : Agent → AgentSlot
agent_slot a = record {
  agent_id = a.id;
  site_id = a.site_id;
  capacity = get_or default_capacity a.capacity_cameras;
  healthy = is_online a.status;
}

abbrev pub status_after : Option ℕ → CameraStatus → CameraStatus
status_after none status = unassigned
status_after (some _) unassigned = CameraStatus.offline
status_after (some _) CameraStatus.offline = CameraStatus.offline
status_after (some _) (reported text) = reported text

-- The assignments of the loop to a camera that is moved.
pub move_camera : PlacementPlan → Camera → Camera
move_camera plan c =
    let new_agent_id = agent_in plan.assignments (camera_slot c) in
    record c { agent_id = new_agent_id; status = status_after new_agent_id c.status }

-- The set `touched`.
pub touched : PlacementPlan → List Camera → List ℕ
touched plan [] = []
touched plan (c ∷ cams) =
    let rest = touched plan cams in
    if elem c.id plan.moved
    then option_list c.agent_id ++ (option_list (agent_in plan.assignments (camera_slot c)) ++ rest)
    else rest

pub update_agent : PlacementPlan → List ℕ → Agent → Agent
update_agent plan ids a = record a {
  assigned_count = get_or a.assigned_count (lookup a.id plan.per_agent_count);
  assignment_version = if elem a.id ids then a.assignment_version + 1 else a.assignment_version;
}

module _ (org_id : ℕ) (site : Option ℕ) where
  pub apply_camera : PlacementPlan → Camera → Camera
  unfolding move_camera
  apply_camera plan c =
      if selects_camera org_id site c && elem c.id plan.moved then move_camera plan c else c

  pub apply_agent : PlacementPlan → List ℕ → Agent → Agent
  unfolding update_agent
  apply_agent plan ids a = if selects_agent org_id site a then update_agent plan ids a else a

  pub plan_of : Fleet → PlacementPlan
  plan_of db =
      plan_placement (map camera_slot (keep (selects_camera org_id site) db.cameras))
        (map agent_slot (keep (selects_agent org_id site) db.agents))

  pub apply_plan : PlacementPlan → Fleet → Fleet
  unfolding apply_camera apply_agent touched
  apply_plan plan db =
      let ids = touched plan (keep (selects_camera org_id site) db.cameras) in
      record {
        cameras = map (apply_camera plan) db.cameras;
        agents = map (apply_agent plan ids) db.agents;
      }

  pub reconcile_site : Fleet → PlacementPlan × Fleet
  unfolding plan_of apply_plan
  reconcile_site db =
      let plan = plan_of db in if changed plan then (plan, apply_plan plan db) else (plan, db)
