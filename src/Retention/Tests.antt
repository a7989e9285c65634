-- ===== src/Retention/Tests.antt =====
-- The theorems on retention, with a store that deletes and one that fails.
use nightfury.Prelude.{
  ℕ, List, [], ◌∷◌, ◌≡◌, ◌⊎◌, refl, none, some, true, false, keep, In, In-cons, inl, inr, zero, suc,
  ◌≤◌, ◌==◌, if◌then◌else◌, arith,
}
use nightfury.Prelude.Sort.{sorted, place_sorted, Distinct}
use nightfury.Retention.{
  Setting, Organization, Uri, Event, BlobRun, retention_days_for, is_expired, is_live, media_gone,
  delete_gcs_object, batch, batch_limit, purge_expired, purge_org, purge_all, purge_loop,
}
use nightfury.Retention.Kept.{Due, purge_all-Due}
use nightfury.Retention.Drained.{sweeps}
use nightfury.Retention.Blocked.{ahead, purge_org_blocked}
use mathlib.Core.Path.{subst}

abbrev works : ℕ → ℕ → BlobRun
works bucket name = BlobRun.deleted

abbrev fails : ℕ → ℕ → BlobRun
fails bucket name = BlobRun.raised false false

abbrev org : Organization
org = record { id = 1; retention_days = Setting.number 2; deleted_at = none }

abbrev event : ℕ → ℕ → Event
event id time = record {
  id = id;
  org_id = 1;
  timestamp = time;
  snapshot_url = Uri.object 5 id;
  clip_url = none;
}

abbrev events : List Event
events = event 1 100 ∷ event 2 900_000 ∷ []

purge_run : purge_all works 1_000_000 (org ∷ []) events ≡ (1, event 2 900_000 ∷ [])
unfolding purge_all purge_loop purge_org purge_expired retention_days_for batch delete_gcs_object
    sorted place_sorted
purge_run = refl

events-Distinct : Distinct (λ e. e.id) events
events-Distinct = ground arith

purge_all-Due_example :
    (In (event 1 100) (purge_all works 1_000_000 (org ∷ []) events).1 → In (event 1 100) events)
    × (In (event 1 100) events
        → In (event 1 100) (purge_all works 1_000_000 (org ∷ []) events).1
          ⊎ Due works 1_000_000 (keep (λ o. is_live o.deleted_at) (org ∷ [])) (event 1 100))
purge_all-Due_example =
    purge_all-Due works 1_000_000 (org ∷ []) events (event 1 100) events-Distinct

window : retention_days_for org.retention_days ≡ some 2
unfolding retention_days_for
window = refl

-- A store that deletes object 0 only, a backlog of objects that it does not delete, and a younger event.
abbrev keeps_most : ℕ → ℕ → BlobRun
keeps_most bucket name = if name == 0 then BlobRun.deleted else BlobRun.raised false false

backlog : ℕ → List Event
backlog zero = []
backlog (suc n) = event (suc n) 100 ∷ backlog n

abbrev younger : Event
younger = event 0 200

backlog-stuck : (n : ℕ) (e : Event) → In e (backlog n) → media_gone keeps_most e ≡ false
unfolding backlog delete_gcs_object
backlog-stuck zero e m = elim m [ ]
backlog-stuck (suc n) e m = elim (In-cons m) [
  | inl same ↦ subst (λ x. media_gone keeps_most x ≡ false) same (ground arith)
  | inr k ↦ backlog-stuck n e k
]

backlog-ahead : (n : ℕ) → ahead 1_000_000 1 2 younger (backlog n) ≡ n
unfolding backlog
backlog-ahead zero = refl
backlog-ahead (suc n) = ground (arith, backlog-ahead n)

backlog_blocks :
    (e : Event)
    → In e (younger ∷ backlog batch_limit)
    → is_expired 1_000_000 1 2 e ≡ true
    → media_gone keeps_most e ≡ true
    → batch_limit ≤ ahead 1_000_000 1 2 e (younger ∷ backlog batch_limit)
backlog_blocks e m late gone = elim (In-cons m) [
  | inl same ↦
      subst (λ x. batch_limit ≤ ahead 1_000_000 1 2 x (younger ∷ backlog batch_limit)) same
        (ground (arith, backlog-ahead batch_limit))
  | inr k ↦ let stuck = backlog-stuck batch_limit e k in cc
]

-- The younger event could be deleted, and stays, however often the sweep runs.
purge_org_blocked_example :
    sweeps keeps_most 1_000_000 org 365 (younger ∷ backlog batch_limit)
    ≡ younger ∷ backlog batch_limit
purge_org_blocked_example =
    purge_org_blocked keeps_most 1_000_000 org 2 365 (younger ∷ backlog batch_limit) window
      backlog_blocks
