-- ===== src/CameraSetup/Tests.antt =====
-- The theorems on the review, on a run of four cameras.
use nightfury.Prelude.{
  ℕ, List, [], ◌∷◌, ◌≡◌, ◌+◌, refl, none, some, true, false, In, All-In, first, total,
}
use nightfury.Prelude.Sort.{sorted, place_sorted}
use nightfury.CameraSetup.{
  Status, CameraSetupProposal, Config, Level, Signature, ReviewGroup, scene, needs_input_group,
  signature, same_signature, into_bucket, split_rows, bump, tally,
}
use nightfury.CameraSetup.Grouping.{
  best, majority, agreed, around, group_bucket, group_buckets, group_proposals,
}
use nightfury.Access.{User, Role, has_role, role_level, permitted_site_ids, scope_to_sites}
use nightfury.CameraSetup.Approval.{
  Camera, RunStatus, SetupTables, done, apply_config, camera_zones, load_run, maybe_complete_run,
  approve_row, write_approval, approve_one, approve_ids, approve_proposal, approve_group,
}
use nightfury.CameraSetup.Writes.{Approved, approve_group-Approved}
use nightfury.CameraSetup.Partition.{weight}
use nightfury.CameraSetup.Review.{Named, group_proposals-partition}

abbrev config : List ℕ → Config
config events = record {
  enabled_events = events;
  sensitivity = some Level.low;
  suggest_pose = false;
  zones = [];
  counting_lines = [];
}

abbrev row : ℕ → Status → ℕ → List ℕ → CameraSetupProposal
row id status confidence events = record {
  id = id;
  org_id = 1;
  site_id = 2;
  run_id = 3;
  camera_id = 10 + id;
  status = status;
  scene_type = some 5;
  confidence = some confidence;
  proposal = config events;
  approved_by = none;
  approved_at = none;
}

abbrev rows : List CameraSetupProposal
rows =
    row 1 Status.proposed 700_000 (1 ∷ 2 ∷ [])
    ∷ row 2 Status.proposed 800_000 (2 ∷ 1 ∷ [])
    ∷ row 3 Status.proposed 900_000 (2 ∷ [])
    ∷ row 4 Status.proposed 100_000 []
    ∷ []

abbrev text : Signature → ℕ
text s = total (λ e. e) s.events

review_run :
    group_proposals text rows
    ≡ some (
        record {
          scene_type = needs_input_group;
          bulk_approvable = false;
          shared_config = none;
          proposal_ids = 4 ∷ [];
          differing_proposal_ids = [];
        }
        ∷ record {
          scene_type = scene (some 5);
          bulk_approvable = true;
          shared_config =
              some (record { events = 1 ∷ 2 ∷ []; sensitivity = some Level.low; pose = false });
          proposal_ids = 1 ∷ 2 ∷ [];
          differing_proposal_ids = 3 ∷ [];
        }
        ∷ [])
unfolding group_proposals split_rows into_bucket group_buckets group_bucket majority best tally bump
    same_signature signature agreed around sorted place_sorted
review_run = refl

rows-Named : (r : CameraSetupProposal) → In r rows → Named r
rows-Named r m =
    All-In Named {xs = rows} ((λ h. refl), ((λ h. refl), ((λ h. refl), ((λ h. refl), tt)))) m

group_proposals-partition_example :
    (gs : List ReviewGroup) × (group_proposals text rows ≡ some gs)
    × (total (weight (λ n. n)) gs ≡ total (λ r. r.id) rows)
group_proposals-partition_example = group_proposals-partition text rows (λ n. n) rows-Named

abbrev admin_user : User
admin_user = record { id = 7; org_id = 1; role = Role.admin; sites_access = [] }

abbrev camera : ℕ → List ℕ → Camera
camera id events = record {
  id = id;
  org_id = 1;
  site_id = 2;
  deleted_at = none;
  enabled_events = events;
  sensitivity = Level.low;
  detection_zones = [];
  counting_lines = [];
}

abbrev before : SetupTables
before = record {
  runs = record { id = 3; org_id = 1; site_id = 2; status = RunStatus.running } ∷ [];
  proposals = rows;
  cameras = camera 11 [] ∷ camera 12 [] ∷ camera 13 [] ∷ [];
}

abbrev after : SetupTables
after = record before {
  proposals =
      approve_row 7 99 (row 1 Status.proposed 700_000 (1 ∷ 2 ∷ []))
      ∷ approve_row 7 99 (row 2 Status.proposed 800_000 (2 ∷ 1 ∷ []))
      ∷ row 3 Status.proposed 900_000 (2 ∷ [])
      ∷ row 4 Status.proposed 100_000 []
      ∷ [];
  cameras = camera 11 (1 ∷ 2 ∷ []) ∷ camera 12 (2 ∷ 1 ∷ []) ∷ camera 13 [] ∷ [];
}

approve_run : approve_group text 3 admin_user (scene (some 5)) 99 before ≡ done after
unfolding approve_group has_role role_level load_run scope_to_sites permitted_site_ids first
    group_proposals split_rows into_bucket group_buckets group_bucket majority best tally bump
    same_signature signature agreed around sorted place_sorted approve_ids approve_one
    write_approval apply_config camera_zones maybe_complete_run
approve_run = refl

approve_group-Approved_example : Approved text 3 admin_user (scene (some 5)) before after
approve_group-Approved_example =
    approve_group-Approved text 3 admin_user (scene (some 5)) 99 before after approve_run

-- A single approval writes its camera; the run is not complete.
approve_single :
    approve_proposal 4 admin_user 99 (record before { cameras = camera 14 (1 ∷ []) ∷ [] })
    ≡ done (record before {
      proposals =
          row 1 Status.proposed 700_000 (1 ∷ 2 ∷ [])
          ∷ row 2 Status.proposed 800_000 (2 ∷ 1 ∷ [])
          ∷ row 3 Status.proposed 900_000 (2 ∷ [])
          ∷ approve_row 7 99 (row 4 Status.proposed 100_000 [])
          ∷ [];
      cameras = camera 14 [] ∷ [];
    })
unfolding approve_proposal has_role role_level scope_to_sites permitted_site_ids first
    write_approval apply_config camera_zones maybe_complete_run
approve_single = refl
