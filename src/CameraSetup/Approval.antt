-- ===== src/CameraSetup/Approval.antt =====
-- The approval of proposals: `_load_run`, `_apply`, `_maybe_complete_run`, `approve_proposal` and
-- `approve_group` of backend/app/api/camera_setup.py. A raised HTTP error leaves the tables alone;
-- the response of an endpoint is left out.
use nightfury.Prelude.{
  ℕ, List, [], ◌∷◌, map, Option, none, some, Bool, true, false, not, ◌&&◌, ◌==◌, if◌then◌else◌,
  keep, any, first, option_list,
}
use nightfury.Access.{User, Role, has_role, scope_to_sites}
use nightfury.CameraSetup.{
  Status, Level, Zone, not_dict, zone, Config, CameraSetupProposal, Signature, ReviewGroup,
  GroupKey, needs_input_group, scene, is_proposed, is_terminal,
}
use nightfury.CameraSetup.Grouping.{group_proposals}

-- A zone as the platform keeps it.
pub record CameraZone : Type 0 where
  pub name : Option ℕ
  pub points : List ℕ
  pub extra : List ℕ

-- A camera: the columns that an approval reads or writes.
pub record Camera : Type 0 where
  pub id : ℕ
  pub org_id : ℕ
  pub site_id : ℕ
  pub deleted_at : Option ℕ
  pub enabled_events : List ℕ
  pub sensitivity : Level
  pub detection_zones : List CameraZone
  pub counting_lines : List ℕ

pub data RunStatus : Type 0 where
  running complete cancelled : RunStatus

pub record SetupRun : Type 0 where
  pub id : ℕ
  pub org_id : ℕ
  pub site_id : ℕ
  pub status : RunStatus

pub record SetupTables : Type 0 where
  pub runs : List SetupRun
  pub proposals : List CameraSetupProposal
  pub cameras : List Camera

pub data ApprovalError : Type 0 where
  forbidden not_found wrong_state review_singly server_error : ApprovalError

pub data Approval : Type 0 where
  refused : ApprovalError → Approval
  done : SetupTables → Approval

abbrev pub is_absent : Option ℕ → Bool
is_absent none = true
is_absent (some t) = false

abbrev or_nil : Option (List ℕ) → List ℕ
or_nil none = []
or_nil (some xs) = xs

-- `sensitivity or "medium"`
abbrev pub or_medium : Option Level → Level
or_medium none = Level.medium
or_medium (some l) = l

unfoldable pub camera_zones : List Zone → List CameraZone
camera_zones [] = []
camera_zones (not_dict ∷ zones) = camera_zones zones
camera_zones (zone name polygon extra ∷ zones) =
    record { name = name; points = or_nil polygon; extra = extra } ∷ camera_zones zones

-- `_apply`
unfoldable pub apply_config : Config → Camera → Camera
unfolding camera_zones
apply_config c camera = record camera {
  enabled_events = c.enabled_events;
  sensitivity = or_medium c.sensitivity;
  detection_zones = camera_zones c.zones;
  counting_lines = c.counting_lines;
}

abbrev pub visible_org : User → ℕ → Bool
visible_org user org_id = elim user.role [ Role.super_admin ↦ true | _ ↦ org_id == user.org_id ]

unfoldable pub load_run : ℕ → User → SetupTables → Option SetupRun
unfolding scope_to_sites
load_run run_id user db =
    first (λ r. r.id == run_id && visible_org user r.org_id)
      (scope_to_sites (λ r. r.site_id) user db.runs)

-- `_maybe_complete_run`
unfoldable pub maybe_complete_run : ℕ → SetupTables → SetupTables
maybe_complete_run run_id db = elim (keep (λ r. r.run_id == run_id) db.proposals) [
  | [] ↦ db
  | r ∷ rows ↦ if any (λ x. not (is_terminal x.status)) (r ∷ rows) then db else record db {
    runs =
        map (λ run. if run.id == run_id then record run { status = RunStatus.complete } else run)
          db.runs;
  }
]

-- The camera of a proposal, in the organisation and the site given.
abbrev pub is_camera_of : (camera_id org_id site_id : ℕ) → Camera → Bool
is_camera_of camera_id org_id site_id c =
    (c.id == camera_id && is_absent c.deleted_at) && (c.org_id == org_id && c.site_id == site_id)

abbrev pub approve_row : (user_id now : ℕ) → CameraSetupProposal → CameraSetupProposal
approve_row user_id now r = record r {
  status = Status.approved;
  approved_by = some user_id;
  approved_at = some now;
}

-- The writes of one approval: the row, and its camera in the organisation and the site given.
unfoldable pub write_approval :
    (user_id now org_id site_id : ℕ) → CameraSetupProposal → SetupTables → SetupTables
unfolding apply_config
write_approval user_id now org_id site_id row db = record db {
  proposals = map (λ r. if r.id == row.id then approve_row user_id now r else r) db.proposals;
  cameras =
      map
        (λ c.
          if is_camera_of row.camera_id org_id site_id c then apply_config row.proposal c else c)
        db.cameras;
}

unfoldable pub approve_proposal : (proposal_id : ℕ) → User → (now : ℕ) → SetupTables → Approval
unfolding write_approval maybe_complete_run scope_to_sites has_role
approve_proposal proposal_id user now db =
    if has_role user Role.admin
    then elim (first (λ r. r.id == proposal_id && visible_org user r.org_id)
        (scope_to_sites (λ r. r.site_id) user db.proposals)) [
          | none ↦ refused not_found
          | some row ↦
              if is_proposed row.status
              then elim (first (is_camera_of row.camera_id row.org_id row.site_id) db.cameras) [
                | none ↦ refused not_found
                | some camera ↦ done (
                    maybe_complete_run row.run_id
                      (write_approval user.id now row.org_id row.site_id row db))
              ]
              else refused wrong_state
        ]
    else refused forbidden

-- One turn of the loop of `approve_group`.
unfoldable pub approve_one : (user_id now : ℕ) → SetupRun → ℕ → SetupTables → SetupTables
unfolding write_approval
approve_one user_id now run pid db =
    elim (first (λ r. r.id == pid && r.run_id == run.id) db.proposals) [
      | none ↦ db
      | some row ↦
          if is_proposed row.status
          then elim (first (is_camera_of row.camera_id run.org_id run.site_id) db.cameras) [
            | none ↦ db
            | some camera ↦ write_approval user_id now run.org_id run.site_id row db
          ]
          else db
    ]

unfoldable pub approve_ids : (user_id now : ℕ) → SetupRun → List ℕ → SetupTables → SetupTables
unfolding approve_one
approve_ids user_id now run [] db = db
approve_ids user_id now run (pid ∷ pids) db =
    approve_ids user_id now run pids (approve_one user_id now run pid db)

-- `g.scene_type == body.scene_type`, for a string of the request.
abbrev pub is_group : GroupKey → ReviewGroup → Bool
is_group key g = elim key [
  | needs_input_group ↦ elim g.scene_type [ needs_input_group ↦ true | _ ↦ false ]
  | scene s ↦ elim g.scene_type [
    | needs_input_group ↦ false
    | scene t ↦ any (λ a. any (λ b. a == b) (option_list s)) (option_list t)
  ]
]

module _ (text : Signature → ℕ) where
  unfoldable pub approve_group : (run_id : ℕ) → User → GroupKey → (now : ℕ) → SetupTables → Approval
  unfolding load_run approve_ids maybe_complete_run has_role
  approve_group run_id user key now db =
      if has_role user Role.admin
      then elim (load_run run_id user db) [
        | none ↦ refused not_found
        | some run ↦ elim (group_proposals text (keep (λ r. r.run_id == run.id) db.proposals)) [
          | none ↦ refused server_error
          | some groups ↦ elim (first (is_group key) groups) [
            | none ↦ refused not_found
            | some target ↦
                if target.bulk_approvable
                then done
                    (maybe_complete_run run.id (approve_ids user.id now run target.proposal_ids db))
                else refused review_singly
          ]
        ]
      ]
      else refused forbidden
