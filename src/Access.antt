-- ===== src/Access.antt =====
-- Roles and site scoping: backend/app/core/dependencies.py.
pub mod Scope
mod Tests
use nightfury.Prelude.{
  ℕ, List, [], ◌∷◌, Option, none, some, Bool, true, false, ltb, if◌then◌else◌, elem, keep,
}

-- `other` is any text that is no key of ROLE_LEVELS.
pub data Role : Type 0 where
  super_admin owner admin operator viewer other : Role

-- `ROLE_LEVELS.get(role, 0)`
unfoldable pub role_level : Role → ℕ
role_level super_admin = 100
role_level owner = 80
role_level admin = 60
role_level operator = 40
role_level viewer = 20
role_level other = 0

pub record User : Type 0 where
  pub id : ℕ
  pub org_id : ℕ
  pub role : Role
  pub sites_access : List ℕ

-- Whether `require_role` returns; it raises a 403 otherwise.
unfoldable pub has_role : User → Role → Bool
unfolding role_level
has_role user minimum_role =
    if ltb (role_level user.role) (role_level minimum_role) then false else true

-- `permitted_site_ids`, behind the test of the role; `none` is "no restriction".
abbrev pub listed_sites : List ℕ → Option (List ℕ)
listed_sites [] = none
listed_sites (s ∷ sites) = some (s ∷ sites)

unfoldable pub permitted_site_ids : User → Option (List ℕ)
permitted_site_ids user = elim user.role [ super_admin ↦ none | _ ↦ listed_sites user.sites_access ]

-- `scope_to_sites`, on the rows of a query whose site column is `site_of`.
unfoldable pub scope_to_sites {ℓ} : {A : Type ℓ} → (A → ℕ) → User → List A → List A
unfolding permitted_site_ids
scope_to_sites site_of user rows = elim (permitted_site_ids user) [
  | none ↦ rows
  | some site_ids ↦ keep (λ r. elem (site_of r) site_ids) rows
]

abbrev pub optional_in : Option ℕ → List ℕ → Bool
optional_in none sites = false
optional_in (some s) sites = elem s sites

unfoldable pub user_may_access_site : User → Option ℕ → Bool
unfolding permitted_site_ids
user_may_access_site user site_id = elim (permitted_site_ids user) [
  | none ↦ true
  | some site_ids ↦ optional_in site_id site_ids
]
