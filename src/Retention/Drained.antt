-- ===== src/Retention/Drained.antt =====
-- How a backlog of expired events goes, and how it does not.
use nightfury.Prelude.{
  ℕ, zero, suc, List, [], ◌∷◌, map, ◌≡◌, refl, some, Bool, true, false, not, if◌then◌else◌, keep,
  elem, take, All, All-of_In,
}
use nightfury.Retention.{
  BlobRun, Organization, Event, retention_days_for, is_expired, media_gone, batch, purge_expired,
  purge_org,
}

module _ {A : Type 0} where
  abbrev one_if : (A → Bool) → A → ℕ
  one_if p x = if p x then 1 else 0

  keep_everything : (p : A → Bool) (xs : List A) → All (λ x. p x ≡ true) xs → keep p xs ≡ xs
  keep_everything p [] h = refl
  keep_everything p (x ∷ xs) (e, h) = rw (e, keep_everything p xs h) refl

  keep_none : (p : A → Bool) (xs : List A) → All (λ x. p x ≡ false) xs → keep p xs ≡ []
  keep_none p [] h = refl
  keep_none p (x ∷ xs) (e, h) = rw e (keep_none p xs h)

  module _ (key : A → ℕ) where
    abbrev outside : ℕ → List A → A → Bool
    outside n xs x = not (elem (key x) (map key (take n xs)))

module _ (delete_blob : ℕ → ℕ → BlobRun) (now org_id days : ℕ) where
  abbrev expired_in : List Event → List Event
  expired_in = keep (is_expired now org_id days)

-- Sweeps of one organisation at one time, one after the other.
abbrev pub sweeps : (ℕ → ℕ → BlobRun) → ℕ → Organization → ℕ → List Event → List Event
sweeps delete_blob now org zero events = events
sweeps delete_blob now org (suc n) events =
    sweeps delete_blob now org n (purge_org delete_blob now org events).1

module _ (delete_blob : ℕ → ℕ → BlobRun) (now : ℕ) (org : Organization) (days : ℕ)
    (set : retention_days_for org.retention_days ≡ some days) where
  purge_org_configured :
      (events : List Event)
      → purge_org delete_blob now org events ≡ purge_expired delete_blob now org.id days events
  unfolding purge_org
  purge_org_configured events = rw (set, purge_org) refl

-- A sweep whose whole batch cannot be deleted removes nothing.
pub purge_org-stuck :
    (delete_blob : ℕ → ℕ → BlobRun) (now : ℕ) (org : Organization) (days : ℕ) (events : List Event)
    → retention_days_for org.retention_days ≡ some days
    → All (λ e. media_gone delete_blob e ≡ false) (batch delete_blob now org.id days events)
    → purge_org delete_blob now org events ≡ (0, events)
unfolding purge_expired
purge_org-stuck delete_blob now org days events set stuck =
    rw
      (
        purge_org_configured delete_blob now org days set events,
        purge_expired,
        keep_none (media_gone delete_blob) (batch delete_blob now org.id days events) stuck,
        keep_everything (λ _. true) events (All-of_In _ events (λ e m. refl)),
      )
      refl
