-- ===== src/SoftDelete/Tests.antt =====
-- The theorems on deletion, at an organisation with one camera that is live and one that is not.
use nightfury.Prelude.{ℕ, [], ◌∷◌, ◌≡◌, refl, Option, none, some, false, All, ◌==◌, ◌&&◌}
use nightfury.SoftDelete.{Row, Tables, is_live, delete_organization, restore_organization}
use nightfury.SoftDelete.Restored.{
  Every, Hidden, forget_all, delete_organization-restore_organization,
}

abbrev row : ℕ → Option ℕ → Row
row id deleted = record {
  id = id;
  org_id = 1;
  site_id = some 7;
  deleted_at = deleted;
  updated_at = 10;
}

abbrev tables : Option ℕ → Tables
tables deleted = record {
  organizations = record { id = 1; deleted_at = none; updated_at = 10 } ∷ [];
  users = [];
  sites = row 7 none ∷ [];
  cameras = row 8 none ∷ row 9 deleted ∷ [];
  alert_rules = [];
}

delete_organization-restore_organization_example :
    let deleted = delete_organization 101 100 1 (tables none) in
    All (λ o. (o.id == 1 && is_live o.deleted_at) ≡ false) deleted.organizations
    × Every (Hidden 1) deleted
    × (forget_all (restore_organization 200 1 deleted) ≡ forget_all (tables none))
delete_organization-restore_organization_example =
    delete_organization-restore_organization 101 200 100 1 (tables none) (λ _. refl, tt)
      (tt, (λ _. refl, tt), (λ _. refl, (λ _. refl, tt)), tt)
