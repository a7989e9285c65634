-- ===== src/CameraSetup.antt =====
-- The review of proposed camera settings: backend/app/services/camera_setup/grouping.py, and, in
-- CameraSetup/Approval.antt, the approval endpoints of backend/app/api/camera_setup.py. A name is a
-- number; scene types are numbered in the order of their strings. A confidence is in millionths. `none` of `group_proposals`
-- is a Python exception. The text of a group's label is left out.
pub mod Grouping
pub mod Majority
pub mod Partition
pub mod Review
pub mod Approval
pub mod Writes
mod Tests
use nightfury.Prelude.{
  ℕ, ◌+◌, List, [], ◌∷◌, ◌++◌, map, Option, none, some, Bool, true, false, not, ◌&&◌, ◌||◌, ltb,
  leb, ◌==◌, option_eq, if◌then◌else◌, keep, any, length,
}
use nightfury.Prelude.Sort.{sorted}

-- `MIN_CONFIDENCE`
abbrev pub min_confidence : ℕ
min_confidence = 600_000

-- The scene type `other`.
abbrev pub other_scene : ℕ
other_scene = 4

pub data Status : Type 0 where
  pending proposed needs_input failed approved rejected : Status

pub data Level : Type 0 where
  low medium high : Level

-- An entry of `zones`: a dict, with its name, its polygon and its other keys, or something else.
pub data Zone : Type 0 where
  not_dict : Zone
  zone : (name : Option ℕ) (polygon : Option (List ℕ)) (extra : List ℕ) → Zone

pub record Config : Type 0 where
  pub enabled_events : List ℕ
  pub sensitivity : Option Level
  pub suggest_pose : Bool
  pub zones : List Zone
  pub counting_lines : List ℕ

pub record CameraSetupProposal : Type 0 where
  pub id : ℕ
  pub org_id : ℕ
  pub site_id : ℕ
  pub run_id : ℕ
  pub camera_id : ℕ
  pub status : Status
  pub scene_type : Option ℕ
  pub confidence : Option ℕ
  pub proposal : Config
  pub approved_by : Option ℕ
  pub approved_at : Option ℕ

-- The fields that a group must agree on.
pub record Signature : Type 0 where
  pub events : List ℕ
  pub sensitivity : Option Level
  pub pose : Bool

pub data GroupKey : Type 0 where
  needs_input_group : GroupKey
  scene : Option ℕ → GroupKey

pub record ReviewGroup : Type 0 where
  pub scene_type : GroupKey
  pub bulk_approvable : Bool
  pub shared_config : Option Signature
  pub proposal_ids : List ℕ
  pub differing_proposal_ids : List ℕ

pub record Bucket : Type 0 where
  pub key : Option ℕ
  pub members : List CameraSetupProposal

unfoldable pub signature : Config → Signature
signature c = record {
  events = sorted (λ e. e) c.enabled_events;
  sensitivity = c.sensitivity;
  pose = c.suggest_pose;
}

abbrev pub is_proposed : Status → Bool
is_proposed proposed = true
is_proposed pending = false
is_proposed needs_input = false
is_proposed failed = false
is_proposed approved = false
is_proposed rejected = false

-- `status in ("approved", "rejected")`
abbrev pub is_terminal : Status → Bool
is_terminal approved = true
is_terminal rejected = true
is_terminal pending = false
is_terminal proposed = false
is_terminal needs_input = false
is_terminal failed = false

-- `scene_type not in (None, "other")`
abbrev pub has_scene : Option ℕ → Bool
has_scene none = false
has_scene (some s) = not (s == other_scene)

-- `(confidence or 0.0) >= MIN_CONFIDENCE`
abbrev pub is_confident : Option ℕ → Bool
is_confident none = false
is_confident (some c) = leb min_confidence c

abbrev pub is_eligible : CameraSetupProposal → Bool
is_eligible r = (is_proposed r.status && has_scene r.scene_type) && is_confident r.confidence

-- Whether a row goes into the bucket of its scene type.
abbrev pub is_grouped : CameraSetupProposal → Bool
is_grouped r = is_eligible r || is_terminal r.status

abbrev pub same_level : Option Level → Option Level → Bool
same_level none none = true
same_level (some Level.low) (some Level.low) = true
same_level (some Level.medium) (some Level.medium) = true
same_level (some Level.high) (some Level.high) = true
same_level _ _ = false

abbrev pub same_events : List ℕ → List ℕ → Bool
same_events [] [] = true
same_events [] (y ∷ ys) = false
same_events (x ∷ xs) [] = false
same_events (x ∷ xs) (y ∷ ys) = x == y && same_events xs ys

-- `==` on signatures.
unfoldable pub same_signature : Signature → Signature → Bool
same_signature s t =
    (same_events s.events t.events && same_level s.sensitivity t.sensitivity)
    && (if s.pose then t.pose else not t.pose)

-- `buckets.setdefault(scene_type, []).append(row)`
unfoldable pub into_bucket : CameraSetupProposal → List Bucket → List Bucket
into_bucket row [] = record { key = row.scene_type; members = row ∷ [] } ∷ []
into_bucket row (b ∷ buckets) =
    let rest = into_bucket row buckets in
    if option_eq b.key row.scene_type
    then record b { members = b.members ++ row ∷ [] } ∷ buckets
    else b ∷ rest

-- The loop over the rows: the buckets and the rows that need input.
unfoldable pub split_rows :
    List CameraSetupProposal → List Bucket → List Bucket × List CameraSetupProposal
unfolding into_bucket
split_rows [] buckets = (buckets, [])
split_rows (r ∷ rows) buckets =
    if is_grouped r
    then split_rows rows (into_bucket r buckets)
    else (let (done, needs) = split_rows rows buckets in (done, r ∷ needs))

-- `counts[sig] = counts.get(sig, 0) + 1`
unfoldable pub bump : Signature → List (Signature × ℕ) → List (Signature × ℕ)
unfolding same_signature
bump s [] = (s, 1) ∷ []
bump s ((t, n) ∷ counts) =
    let rest = bump s counts in if same_signature t s then (t, n + 1) ∷ counts else (t, n) ∷ rest

unfoldable pub tally : List CameraSetupProposal → List (Signature × ℕ) → List (Signature × ℕ)
unfolding bump
tally [] counts = counts
tally (m ∷ members) counts = tally members (bump (signature m.proposal) counts)
