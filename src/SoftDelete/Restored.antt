-- ===== src/SoftDelete/Restored.antt =====
-- What a deletion hides, and what a restoration brings back.
use nightfury.Prelude.{ℕ, List, [], ◌∷◌, map, ◌≡◌, refl, none, some, false, ◌==◌, ◌&&◌, All, arith}
use nightfury.SoftDelete.{
  Row, Organization, Tables, delete_where, restore_where, of_org, mark_org, delete_organization,
  restore_organization, update_all, is_live,
}

-- A predicate at the rows of every table but that of organisations.
abbrev pub Every : (Row → Type 0) → Tables → Type 0
Every P s = All P s.users × All P s.sites × All P s.cameras × All P s.alert_rules

-- The rows of an organisation are live.
abbrev pub LiveIn : ℕ → Row → Type 0
LiveIn org_id r = r.org_id ≡ org_id → r.deleted_at ≡ none

-- A row, an organisation and the tables, but for the times of their last update.
abbrev pub forget : Row → Row
forget r = record r { updated_at = 0 }

abbrev pub forget_org : Organization → Organization
forget_org o = record o { updated_at = 0 }

abbrev pub forget_all : Tables → Tables
forget_all s = update_all forget (record s { organizations = map forget_org s.organizations })

-- Deleting and restoring a row that was live, or that the update does not concern.
restore-delete :
    (at later now org_id : ℕ) (r : Row)
    → LiveIn org_id r
    → forget (restore_where later (of_org org_id) (delete_where at now (of_org org_id) r))
      ≡ forget r
restore-delete at later now org_id r h = ground (arith, h)

restore-delete_rows :
    (at later now org_id : ℕ) (rows : List Row)
    → All (LiveIn org_id) rows
    → map forget
        (map (restore_where later (of_org org_id)) (map (delete_where at now (of_org org_id)) rows))
      ≡ map forget rows
restore-delete_rows at later now org_id [] h = refl
restore-delete_rows at later now org_id (r ∷ rows) (live, h) =
    rw (restore-delete at later now org_id r live, restore-delete_rows at later now org_id rows h)
      refl

restore-delete_orgs :
    (at later now org_id : ℕ) (orgs : List Organization)
    → All (λ o. o.id ≡ org_id → o.deleted_at ≡ none) orgs
    → map forget_org (map (mark_org later org_id none) (map (mark_org at org_id (some now)) orgs))
      ≡ map forget_org orgs
restore-delete_orgs at later now org_id [] h = refl
restore-delete_orgs at later now org_id (o ∷ orgs) (live, h) =
    let same : forget_org (mark_org later org_id none (mark_org at org_id (some now) o))
        ≡ forget_org o =
      ground (arith, live) in
    rw (same, restore-delete_orgs at later now org_id orgs h) refl

-- No live row is of the organisation.
abbrev pub Hidden : ℕ → Row → Type 0
Hidden org_id r = (of_org org_id r && is_live r.deleted_at) ≡ false

delete_where-Hidden :
    (at now org_id : ℕ) (r : Row) → Hidden org_id (delete_where at now (of_org org_id) r)
delete_where-Hidden at now org_id r = ground arith

every_row :
    (P : Row → Type 0) (f : Row → Row)
    → ((r : Row) → P (f r))
    → (rows : List Row) → All P (map f rows)
every_row P f h [] = tt
every_row P f h (r ∷ rows) = (h r, every_row P f h rows)

hidden_orgs :
    (at now org_id : ℕ) (orgs : List Organization)
    → All
        (λ o. (o.id == org_id && is_live o.deleted_at) ≡ false)
        (map (mark_org at org_id (some now)) orgs)
hidden_orgs at now org_id [] = tt
hidden_orgs at now org_id (o ∷ orgs) = (ground arith, hidden_orgs at now org_id orgs)

-- After an organisation is deleted, neither it nor a row of it is live. If it and all its rows were
-- live, restoring it then gives every table back, but for the times of the last updates.
pub delete_organization-restore_organization :
    (at later now org_id : ℕ) (s : Tables)
    → All (λ o. o.id ≡ org_id → o.deleted_at ≡ none) s.organizations
    → Every (LiveIn org_id) s
    → let deleted = delete_organization at now org_id s in
      All (λ o. (o.id == org_id && is_live o.deleted_at) ≡ false) deleted.organizations
      × Every (Hidden org_id) deleted
      × (forget_all (restore_organization later org_id deleted) ≡ forget_all s)
unfolding delete_organization restore_organization
delete_organization-restore_organization at later now org_id s live (users, sites, cameras, rules) =
    let hidden =
      every_row (Hidden org_id) (delete_where at now (of_org org_id))
        (delete_where-Hidden at now org_id) in
    (
      hidden_orgs at now org_id s.organizations,
      (hidden s.users, hidden s.sites, hidden s.cameras, hidden s.alert_rules),
      rw
          (
            restore-delete_orgs at later now org_id s.organizations live,
            restore-delete_rows at later now org_id s.users users,
            restore-delete_rows at later now org_id s.sites sites,
            restore-delete_rows at later now org_id s.cameras cameras,
            restore-delete_rows at later now org_id s.alert_rules rules,
          )
          refl,
    )

restored_live : (at org_id : ℕ) (r : Row) → LiveIn org_id (restore_where at (of_org org_id) r)
restored_live at org_id r h = ground arith

-- After an organisation is restored every row of it is live, also those that had been deleted on
-- their own before the organisation was.
pub restore_organization-revives :
    (at org_id : ℕ) (s : Tables) → Every (LiveIn org_id) (restore_organization at org_id s)
unfolding restore_organization
restore_organization-revives at org_id s =
    let live =
      every_row (LiveIn org_id) (restore_where at (of_org org_id)) (restored_live at org_id) in
    (live s.users, live s.sites, live s.cameras, live s.alert_rules)
