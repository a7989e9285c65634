-- ===== src/Retention/Blocked.antt =====
-- A backlog that cannot be deleted, and the events behind it.
use nightfury.Prelude.{
  ℕ, zero, suc, ◌≤◌, List, [], ◌∷◌, ◌≡◌, refl, inl, inr, some, true, false, ◌&&◌, ltb,
  if◌then◌else◌, keep, total, In, In-keep, All-of_In, Bool-cases, arith,
}
use nightfury.Prelude.Sort.{sorted-In}
use nightfury.Prelude.Ranks.{sorted-take_below, total-keep_if, below}
use nightfury.Prelude.{take-In}
use nightfury.Retention.{
  BlobRun, Organization, Event, retention_days_for, is_expired, media_gone, batch, batch_limit,
}
use nightfury.Retention.Drained.{sweeps, purge_org-stuck}

-- How many expired events are older than the event.
abbrev pub ahead : (now org_id days : ℕ) → Event → List Event → ℕ
ahead now org_id days e =
    total (λ x. if is_expired now org_id days x && ltb x.timestamp e.timestamp then 1 else 0)

module _ (delete_blob : ℕ → ℕ → BlobRun) (now : ℕ) (org : Organization) (days : ℕ)
    (events : List Event)
    (blocked : (e : Event)
      → In e events
      → is_expired now org.id days e ≡ true
      → media_gone delete_blob e ≡ true
      → batch_limit ≤ ahead now org.id days e events) where
  ahead-below :
      (e : Event) (xs : List Event)
      → total
          (λ x. if is_expired now org.id days x then below (λ y. y.timestamp) e.timestamp x else 0)
          xs
        ≡ ahead now org.id days e xs
  ahead-below e [] = refl
  ahead-below e (x ∷ xs) = ground (arith, ahead-below e xs)

  batch-stuck :
      (e : Event)
      → In e (batch delete_blob now org.id days events)
      → media_gone delete_blob e ≡ false
  unfolding batch
  batch-stuck e m = elim (Bool-cases (media_gone delete_blob e)) [
    | inr stuck ↦ stuck
    | inl gone ↦
        let due = keep (is_expired now org.id days) events in
        let (known, late) =
          In-keep (is_expired now org.id days) events
            (sorted-In (λ x. x.timestamp) due (take-In batch_limit _ m)) in
        ground (
          arith,
          blocked e known late gone,
          sorted-take_below (λ x. x.timestamp) batch_limit due e m,
          total-keep_if (below (λ x. x.timestamp) e.timestamp) (is_expired now org.id days) events,
          ahead-below e events,
        )
  ]

-- If each expired event whose media can be deleted has 5,000 or more expired events of the organisation
-- that are older, no number of sweeps at that time removes anything.
pub purge_org_blocked :
    (delete_blob : ℕ → ℕ → BlobRun) (now : ℕ) (org : Organization) (days n : ℕ)
    (events : List Event)
    → retention_days_for org.retention_days ≡ some days
    → ((e : Event)
        → In e events
        → is_expired now org.id days e ≡ true
        → media_gone delete_blob e ≡ true
        → batch_limit ≤ ahead now org.id days e events)
    → sweeps delete_blob now org n events ≡ events
purge_org_blocked delete_blob now org days zero events set blocked = refl
purge_org_blocked delete_blob now org days (suc n) events set blocked =
    let stuck =
      purge_org-stuck delete_blob now org days events set
        (All-of_In _ _ (batch-stuck delete_blob now org days events blocked)) in
    rw stuck (purge_org_blocked delete_blob now org days n events set blocked)
