-- ===== src/Reconcile/Tests.antt =====
-- The theorems on reconciliation, at a site whose first box went dark.
use nightfury.Prelude.{ℕ, [], ◌∷◌, ◌≡◌, ◌↔◌, refl, Option, none, some, In, here, there, arith}
use nightfury.Prelude.Dict.{lookup, insert}
use nightfury.Prelude.Sort.{sorted, place_sorted, Distinct}
use nightfury.Placement.{
  changed, plan_placement, pack, pass_pinned, pass_sticky, pass_new, place_pinned, place_new,
  candidates, least, place, drop_camera, can_host, usable_agents, collect_usable,
}
use nightfury.Reconcile.{
  Camera, CameraStatus, Agent, AgentStatus, LoadStatus, Fleet, reconcile_site, plan_of, apply_plan,
  apply_camera, apply_agent, move_camera, update_agent, touched,
}
use nightfury.Reconcile.Assigned.{reconcile_site-assigned, reconcile_site-idempotent}
use nightfury.Reconcile.Versions.{reconcile_site-version}

abbrev camera : ℕ → Option ℕ → CameraStatus → Camera
camera i agent status = record {
  id = i;
  org_id = 1;
  site_id = 7;
  agent_id = agent;
  pinned_agent_id = none;
  deleted_at = none;
  status = status;
}

abbrev agent : ℕ → ℕ → ℕ → ℕ → AgentStatus → Agent
agent i capacity count version status = record {
  id = i;
  org_id = 1;
  site_id = some 7;
  machine_id = i;
  capacity_cameras = some capacity;
  assigned_count = count;
  assignment_version = version;
  status = status;
  load_state = LoadStatus.ok;
  load_reason = none;
  last_seen_at = some 100;
}

abbrev fleet : Fleet
fleet = record {
  cameras =
      camera 1 (some 10) (CameraStatus.reported 3) ∷ camera 2 (some 10) CameraStatus.offline ∷ [];
  agents = agent 10 4 2 5 AgentStatus.offline ∷ agent 11 1 0 8 AgentStatus.online ∷ [];
}

abbrev after : Fleet
after = record {
  cameras =
      camera 1 (some 11) (CameraStatus.reported 3) ∷ camera 2 none CameraStatus.unassigned ∷ [];
  agents = agent 10 4 2 6 AgentStatus.offline ∷ agent 11 1 1 9 AgentStatus.online ∷ [];
}

reconcile_site_run : (reconcile_site 1 (some 7) fleet).1 ≡ after
unfolding reconcile_site plan_of apply_plan apply_camera apply_agent move_camera update_agent
    touched changed plan_placement pack pass_pinned pass_sticky pass_new place_pinned place_new
    candidates least place drop_camera can_host usable_agents collect_usable sorted place_sorted
    lookup insert
reconcile_site_run = refl

cameras-Distinct : Distinct (λ c. c.id) fleet.cameras
cameras-Distinct = ground arith

agents-Distinct : Distinct (λ a. a.id) fleet.agents
agents-Distinct = ground arith

moved_row :
    In (camera 1 (some 11) (CameraStatus.reported 3)) (reconcile_site 1 (some 7) fleet).1.cameras
moved_row = rw reconcile_site_run here

reconcile_site-assigned_example :
    lookup 1 (reconcile_site 1 (some 7) fleet).0.assignments ≡ some (some 11)
reconcile_site-assigned_example =
    reconcile_site-assigned 1 (some 7) fleet (camera 1 (some 11) (CameraStatus.reported 3))
      cameras-Distinct moved_row refl

reconcile_site-idempotent_example :
    (reconcile_site 1 (some 7) (reconcile_site 1 (some 7) fleet).1).1
    ≡ (reconcile_site 1 (some 7) fleet).1
reconcile_site-idempotent_example = reconcile_site-idempotent 1 (some 7) fleet cameras-Distinct

abbrev two_boxes : Fleet
two_boxes = record fleet {
  agents =
      agent 10 4 2 5 AgentStatus.offline
      ∷ agent 11 1 0 8 AgentStatus.online
      ∷ agent 12 0 0 3 AgentStatus.online
      ∷ [];
}

third_row : In (agent 12 0 0 3 AgentStatus.online) (reconcile_site 1 (some 7) two_boxes).1.agents
unfolding reconcile_site plan_of apply_plan apply_camera apply_agent move_camera update_agent
    touched changed plan_placement pack pass_pinned pass_sticky pass_new place_pinned place_new
    candidates least place drop_camera can_host usable_agents collect_usable sorted place_sorted
    lookup insert
third_row = there (there here)

first_camera :
    In
      (camera 1 (some 11) (CameraStatus.reported 3))
      (reconcile_site 1 (some 7) two_boxes).1.cameras
unfolding reconcile_site plan_of apply_plan apply_camera apply_agent move_camera update_agent
    touched changed plan_placement pack pass_pinned pass_sticky pass_new place_pinned place_new
    candidates least place drop_camera can_host usable_agents collect_usable sorted place_sorted
    lookup insert
first_camera = here

reconcile_site-version_example :
    ((camera 1 (some 10) (CameraStatus.reported 3)).agent_id ≡ some 12)
    ↔ ((camera 1 (some 11) (CameraStatus.reported 3)).agent_id ≡ some 12)
reconcile_site-version_example =
    reconcile_site-version 1 (some 7) two_boxes (camera 1 (some 10) (CameraStatus.reported 3))
      (camera 1 (some 11) (CameraStatus.reported 3)) (agent 12 0 0 3 AgentStatus.online)
      (agent 12 0 0 3 AgentStatus.online) cameras-Distinct (ground arith) here first_camera refl
      (there (there here)) third_row refl refl refl
