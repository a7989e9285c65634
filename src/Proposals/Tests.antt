-- ===== src/Proposals/Tests.antt =====
-- The theorems on proposals, at tables with a rule to confirm and a connection to draw.
use nightfury.Prelude.{
  ℕ, [], ◌∷◌, ◌≡◌, ◌⊎◌, refl, none, some, true, first, In, here, there, arith, ◌==◌,
}
use nightfury.Prelude.Dict.{lookup, insert, insert_all, dict_of}
use nightfury.Access.{
  Role, User, has_role, role_level, scope_to_sites, permitted_site_ids, user_may_access_site,
}
use nightfury.Proposals.{
  RuleBody, Payload, alert_rule, camera_connection, pending, connects, Proposal, Tables, Camera,
  ToolContext, is_live, create_proposal, resolve_camera_names, camera_ids, render_summary, err, ok,
  already, created, conflict, load_proposal_for_user, apply_alert_rule, apply_payload,
  apply_pending, apply_loaded, apply_proposal, with_db,
}
use nightfury.Proposals.Names.{create_proposal-shown}
use nightfury.Proposals.Apply.{
  SameRows, Guarded, apply_proposal-Guarded, apply_proposal-once, with_db-expired,
}
use nightfury.Proposals.Connections.{Undirected, apply_proposal-Undirected}

abbrev user : ℕ → User
user id = record { id = id; org_id = 1; role = Role.admin; sites_access = 7 ∷ [] }

abbrev body : RuleBody
body = record {
  name = 4;
  site_id = none;
  cameras = [];
  event_types = [];
  min_severity = 0;
  time_window = none;
  zones = [];
  notify_channels = 2 ∷ [];
  notify_contacts = [];
  webhook_url = none;
  cooldown_seconds = 60;
  escalation = [];
}

abbrev link : Payload
link = camera_connection (record { camera_a_id = 9; camera_b_id = 8; label = none })

abbrev proposal : ℕ → Payload → Proposal
proposal id payload = record {
  id = id;
  org_id = 1;
  site_id = some 7;
  user_id = 3;
  conversation_id = 5;
  payload = payload;
  summary = connects none none none;
  status = pending;
  expires_at = 1000;
  applied_at = none;
}

abbrev camera : ℕ → ℕ → Camera
camera id site = record { id = id; org_id = 1; site_id = site; name = 90; deleted_at = none }

abbrev tables : Tables
tables = record {
  proposals = proposal 20 (alert_rule body) ∷ proposal 21 link ∷ [];
  rules = [];
  connections =
      record { id = 1; org_id = 1; site_id = 7; camera_a_id = 6; camera_b_id = 8; label = none }
      ∷ [];
  sites = record { id = 7; org_id = 1; deleted_at = none } ∷ [];
  cameras = camera 8 7 ∷ camera 9 6 ∷ [];
}

apply_run : (apply_proposal 100 40 (user 3) 20 tables).0 ≡ ok (created 40)
unfolding apply_proposal load_proposal_for_user apply_loaded apply_pending apply_payload
    apply_alert_rule has_role role_level first
apply_run = refl

apply_proposal-once_example :
    apply_proposal 200 41 (user 4) 20 (apply_proposal 100 40 (user 3) 20 tables).1
    ≡ (ok already, (apply_proposal 100 40 (user 3) 20 tables).1)
apply_proposal-once_example =
    apply_proposal-once 100 200 40 41 (user 3) (user 4) 20 40 tables apply_run refl

apply_proposal-Guarded_example :
    SameRows tables (apply_proposal 100 40 (user 3) 20 tables).1 ⊎ Guarded 100 (user 3) 20 tables
apply_proposal-Guarded_example = apply_proposal-Guarded 100 40 (user 3) 20 tables

found : first (λ p. p.id == 20) tables.proposals ≡ some (proposal 20 (alert_rule body))
unfolding first
found = refl

with_db-expired_example :
    with_db (apply_proposal 5000 40 (user 3) 20) tables ≡ (err conflict, tables)
with_db-expired_example =
    with_db-expired 5000 40 (user 3) 20 (proposal 20 (alert_rule body)) tables found refl refl refl

apply_proposal-Undirected_example :
    Undirected (apply_proposal 100 40 (user 3) 21 tables).1.connections
apply_proposal-Undirected_example =
    apply_proposal-Undirected 100 40 (user 3) 21 tables (ground arith)

abbrev ctx : ToolContext
ctx = record { user = user 3; org_id = 1; conversation_id = 5 }

-- Camera 9 stands at a site that the user may not access.
abbrev carded : Proposal
carded = record (proposal 22 link) { summary = connects none (some 90) none; expires_at = 86_500 }

create_run : (create_proposal 100 22 ctx (some link) (some 7) tables).0 ≡ some carded
unfolding create_proposal resolve_camera_names camera_ids render_summary scope_to_sites
    permitted_site_ids dict_of insert_all insert lookup
create_run = refl

create_proposal-shown_example :
    (c : Camera) × In c tables.cameras
    × (c.name ≡ 90)
    × (c.org_id ≡ 1)
    × (is_live c.deleted_at ≡ true)
    × (user_may_access_site (user 3) (some c.site_id) ≡ true)
create_proposal-shown_example =
    create_proposal-shown 100 22 ctx link (some 7) tables carded 90 create_run (there here)
