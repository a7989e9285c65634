-- ===== src/FleetHealth/Tests.antt =====
-- The theorems on failover, at a site of two boxes of which one went dark.
use nightfury.Prelude.{
  ℕ, [], ◌∷◌, ◌==◌, ◌≡◌, ◌≢◌, refl, none, some, true, false, first, In, here, there, arith,
}
use nightfury.Reconcile.{
  Camera, CameraStatus, Agent, AgentStatus, LoadStatus, Fleet, selects_camera, is_online,
}
use nightfury.FleetHealth.{Organization, Message, sweep}
use nightfury.FleetHealth.Vacated.{sweep-vacates}
use nightfury.FleetHealth.Notices.{sweep-notifies}

abbrev camera : ℕ → ℕ → Camera
camera i agent = record {
  id = i;
  org_id = 1;
  site_id = 7;
  agent_id = some agent;
  pinned_agent_id = none;
  deleted_at = none;
  status = CameraStatus.offline;
}

abbrev agent : ℕ → ℕ → Agent
agent i seen = record {
  id = i;
  org_id = 1;
  site_id = some 7;
  machine_id = 90;
  capacity_cameras = some 4;
  assigned_count = 1;
  assignment_version = 1;
  status = AgentStatus.online;
  load_state = LoadStatus.ok;
  load_reason = none;
  last_seen_at = some seen;
}

abbrev fleet : Fleet
fleet = record {
  cameras = camera 1 10 ∷ camera 2 11 ∷ [];
  agents = agent 10 600 ∷ agent 11 990 ∷ [];
}

abbrev org : Organization
org = record {
  id = 1;
  contacts =
      record { number = some 555; enabled = false }
      ∷ record { number = some 556; enabled = true }
      ∷ [];
}

sweep-vacates_example :
    ((b : Agent)
      → In b (sweep (org ∷ []) 1000 fleet).2.agents
      → b.id ≡ 10
      → is_online b.status ≡ false)
    × ((c : Camera)
        → In c (sweep (org ∷ []) 1000 fleet).2.cameras
        → selects_camera 1 (some 7) c ≡ true
        → c.agent_id ≢ some 10)
sweep-vacates_example = sweep-vacates (org ∷ []) 1000 fleet (agent 10 600) (ground arith) here refl

found : first (λ o. o.id == 1) (org ∷ []) ≡ some org
unfolding first
found = refl

sweep-notifies_example :
    (m : Message) × In m (sweep (org ∷ []) 1000 fleet).1 × (m.number ≡ 556) × (m.machine_id ≡ 90)
sweep-notifies_example =
    sweep-notifies (org ∷ []) 1000 fleet (agent 10 600) org
      (record { number = some 556; enabled = true }) 556 here refl found (there here) refl refl
