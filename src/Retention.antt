-- ===== src/Retention.antt =====
-- Retention of events: backend/app/services/retention.py, and `delete_gcs_object` of
-- services/gcs.py. Times are in seconds. What the object store answers is a parameter.
pub mod Kept
pub mod Drained
pub mod Blocked
mod Tests
use nightfury.Prelude.{
  ℕ, zero, suc, ◌+◌, ◌*◌, max, min, List, [], ◌∷◌, map, Option, none, some, Bool, true, false, not,
  ◌&&◌, ◌||◌, ltb, ◌==◌, if◌then◌else◌, keep, elem, length, take,
}
use nightfury.Prelude.Sort.{sorted}

abbrev pub min_retention_days : ℕ
min_retention_days = 1

abbrev pub max_retention_days : ℕ
max_retention_days = 1095

abbrev pub batch_limit : ℕ
batch_limit = 5000

-- The raw value of `retention_days`, as `int` reads it.
pub data Setting : Type 0 where
  absent not_a_number negative : Setting
  number : ℕ → Setting

pub record Organization : Type 0 where
  pub id : ℕ
  pub retention_days : Setting
  pub deleted_at : Option ℕ

-- A URI: empty, of no object store, a `gs://` one that names no object, or one that does.
pub data Uri : Type 0 where
  empty foreign malformed : Uri
  object : (bucket name : ℕ) → Uri

pub record Event : Type 0 where
  pub id : ℕ
  pub org_id : ℕ
  pub timestamp : ℕ
  pub snapshot_url : Uri
  pub clip_url : Option Uri

-- What deleting a blob does: it returns, or raises an exception, whose text may contain '404' or 'Not
-- Found' for whatever reason.
pub data BlobRun : Type 0 where
  deleted : BlobRun
  raised : (has_404 has_not_found : Bool) → BlobRun

unfoldable pub retention_days_for : Setting → Option ℕ
retention_days_for absent = none
retention_days_for not_a_number = none
retention_days_for negative = none
retention_days_for (number n) =
    if n == 0 then none else some (max min_retention_days (min n max_retention_days))

-- `Event.timestamp < now - timedelta(days=days)`, for the organisation.
abbrev pub is_expired : (now org_id days : ℕ) → Event → Bool
is_expired now org_id days e = e.org_id == org_id && ltb (e.timestamp + days * 86_400) now

abbrev pub is_live : Option ℕ → Bool
is_live none = true
is_live (some _) = false

module _ (delete_blob : ℕ → ℕ → BlobRun) where
  abbrev pub is_gone : BlobRun → Bool
  is_gone deleted = true
  is_gone (raised has_404 has_not_found) = has_404 || has_not_found

  unfoldable pub delete_gcs_object : Uri → Bool
  delete_gcs_object empty = true
  delete_gcs_object foreign = true
  delete_gcs_object malformed = false
  delete_gcs_object (object bucket name) = is_gone (delete_blob bucket name)

  abbrev pub delete_clip : Option Uri → Bool
  delete_clip none = true
  delete_clip (some uri) = delete_gcs_object uri

  -- `ok`, behind the loop over the two URIs.
  abbrev pub media_gone : Event → Bool
  media_gone e = delete_gcs_object e.snapshot_url && delete_clip e.clip_url

  -- `expired`
  unfoldable pub batch : (now org_id days : ℕ) → List Event → List Event
  batch now org_id days events =
      take batch_limit (sorted (λ e. e.timestamp) (keep (is_expired now org_id days) events))

  unfoldable pub purge_expired : (now org_id days : ℕ) → List Event → ℕ × List Event
  unfolding batch
  purge_expired now org_id days events =
      let ids = map (λ e. e.id) (keep media_gone (batch now org_id days events)) in
      (length ids, keep (λ e. not (elem e.id ids)) events)

  unfoldable pub purge_org : ℕ → Organization → List Event → ℕ × List Event
  unfolding retention_days_for purge_expired
  purge_org now org events = elim (retention_days_for org.retention_days) [
    | none ↦ (0, events)
    | some days ↦ purge_expired now org.id days events
  ]

  unfoldable pub purge_loop : ℕ → List Organization → List Event → ℕ × List Event
  unfolding purge_org
  purge_loop now [] events = (0, events)
  purge_loop now (org ∷ orgs) events =
      let (count, events') = purge_org now org events in
      let (more, events'') = purge_loop now orgs events' in (count + more, events'')

  unfoldable pub purge_all : ℕ → List Organization → List Event → ℕ × List Event
  unfolding purge_loop
  purge_all now orgs events = purge_loop now (keep (λ o. is_live o.deleted_at) orgs) events
