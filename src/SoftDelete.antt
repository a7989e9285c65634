-- ===== src/SoftDelete.antt =====
-- Deletion that can be undone: backend/app/services/soft_delete_service.py, on tables of the columns
-- that it reads or writes. An operation takes the transaction's `now()`, which the database writes to
-- `updated_at` of each row that an UPDATE statement changes, and a deletion also the clock of the service.
pub mod Restored
mod Tests
use nightfury.Prelude.{
  ℕ, List, [], ◌∷◌, map, Option, none, some, Bool, true, false, not, ◌&&◌, ◌==◌, option_eq,
  if◌then◌else◌,
}

-- A row of users, sites, cameras or alert rules; `site_id` is that of a camera.
pub record Row : Type 0 where
  pub id : ℕ
  pub org_id : ℕ
  pub site_id : Option ℕ
  pub deleted_at : Option ℕ
  pub updated_at : ℕ

pub record Organization : Type 0 where
  pub id : ℕ
  pub deleted_at : Option ℕ
  pub updated_at : ℕ

pub record Tables : Type 0 where
  pub organizations : List Organization
  pub users : List Row
  pub sites : List Row
  pub cameras : List Row
  pub alert_rules : List Row

abbrev pub is_live : Option ℕ → Bool
is_live none = true
is_live (some _) = false

-- `update(model).where(…, model.deleted_at.is_(None)).values(deleted_at=now)`
abbrev pub delete_where : (at now : ℕ) → (Row → Bool) → Row → Row
delete_where at now p r =
    if p r && is_live r.deleted_at then record r { deleted_at = some now; updated_at = at } else r

-- `update(model).where(…, model.deleted_at.isnot(None)).values(deleted_at=None)`
abbrev pub restore_where : (at : ℕ) → (Row → Bool) → Row → Row
restore_where at p r =
    if p r && not (is_live r.deleted_at) then record r { deleted_at = none; updated_at = at } else r

abbrev pub of_org : ℕ → Row → Bool
of_org org_id r = r.org_id == org_id

abbrev pub of_site : ℕ → Row → Bool
of_site site_id r = option_eq r.site_id (some site_id)

abbrev pub has_id : ℕ → Row → Bool
has_id id r = r.id == id

-- Sets `deleted_at` of an organisation; no statement is issued for a value that is there already.
abbrev pub mark_org : (at org_id : ℕ) → Option ℕ → Organization → Organization
mark_org at org_id value o =
    if o.id == org_id && not (option_eq o.deleted_at value)
    then record o { deleted_at = value; updated_at = at }
    else o

-- Sets `deleted_at` of a single row.
abbrev pub mark_row : (at id : ℕ) → Option ℕ → Row → Row
mark_row at id value r =
    if has_id id r && not (option_eq r.deleted_at value)
    then record r { deleted_at = value; updated_at = at }
    else r

-- The loop over the four models.
abbrev pub update_all : (Row → Row) → Tables → Tables
update_all f s = record s {
  users = map f s.users;
  sites = map f s.sites;
  cameras = map f s.cameras;
  alert_rules = map f s.alert_rules;
}

pub delete_organization : (at now id : ℕ) → Tables → Tables
delete_organization at now org_id s =
    update_all (delete_where at now (of_org org_id))
      (record s { organizations = map (mark_org at org_id (some now)) s.organizations })

pub restore_organization : (at id : ℕ) → Tables → Tables
restore_organization at org_id s =
    update_all (restore_where at (of_org org_id))
      (record s { organizations = map (mark_org at org_id none) s.organizations })

pub delete_site : (at now id : ℕ) → Tables → Tables
delete_site at now site_id s = record s {
  sites = map (mark_row at site_id (some now)) s.sites;
  cameras = map (delete_where at now (of_site site_id)) s.cameras;
}

pub restore_site : (at id : ℕ) → Tables → Tables
restore_site at site_id s = record s {
  sites = map (mark_row at site_id none) s.sites;
  cameras = map (restore_where at (of_site site_id)) s.cameras;
}

pub delete_camera : (at now id : ℕ) → Tables → Tables
delete_camera at now id s = record s { cameras = map (mark_row at id (some now)) s.cameras }

pub restore_camera : (at id : ℕ) → Tables → Tables
restore_camera at id s = record s { cameras = map (mark_row at id none) s.cameras }

pub delete_alert_rule : (at now id : ℕ) → Tables → Tables
delete_alert_rule at now id s = record s {
  alert_rules = map (mark_row at id (some now)) s.alert_rules;
}

pub restore_alert_rule : (at id : ℕ) → Tables → Tables
restore_alert_rule at id s = record s { alert_rules = map (mark_row at id none) s.alert_rules }

pub delete_user : (at now id : ℕ) → Tables → Tables
delete_user at now id s = record s { users = map (mark_row at id (some now)) s.users }

pub restore_user : (at id : ℕ) → Tables → Tables
restore_user at id s = record s { users = map (mark_row at id none) s.users }
