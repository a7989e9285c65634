-- ===== src/Access/Scope.antt =====
-- The two ways to scope by site.
use nightfury.Prelude.{
  ℕ, List, ◌≡◌, ◌↔◌, ◌⊎◌, ◌==◌, ==_iff, refl, some, true, Option-cases, inl, inr, In, In-keep,
  keep-In, elem,
}
use nightfury.Access.{
  User, Role, super_admin, permitted_site_ids, scope_to_sites, user_may_access_site,
}

-- The query filter keeps a row exactly when the check of a single object lets its site through.
pub scope_to_sites-may_access {ℓ} :
    {A : Type ℓ} (site_of : A → ℕ) (user : User) (rows : List A) (r : A)
    → In r (scope_to_sites site_of user rows)
      ↔ (In r rows × (user_may_access_site user (some (site_of r)) ≡ true))
unfolding scope_to_sites user_may_access_site
scope_to_sites-may_access site_of user rows r = elim (Option-cases (permitted_site_ids user)) [
  | inl e ↦ rw (e, scope_to_sites, user_may_access_site) ((λ m. (m, refl)), (λ h. h.0))
  | inr (ids, e) ↦
      rw (e, scope_to_sites, user_may_access_site)
        (
          In-keep (λ x. elem (site_of x) ids) rows,
          (λ h. keep-In (λ x. elem (site_of x) ids) rows h.0 h.1),
        )
]

-- The organisation filter of a query: a super admin passes, and anybody else in the organisation.
pub own_or_super_admin :
    (user : User) (org_id : ℕ)
    → elim user.role [ super_admin ↦ true | _ ↦ org_id == user.org_id ] ≡ true
    → (user.role ≡ super_admin) ⊎ (org_id ≡ user.org_id)
own_or_super_admin user org_id = own user.role
  where
    own :
        (r : Role)
        → elim r [ super_admin ↦ true | _ ↦ org_id == user.org_id ] ≡ true
        → (r ≡ super_admin) ⊎ (org_id ≡ user.org_id)
    own Role.super_admin h = inl refl
    own Role.owner h = inr ((==_iff org_id user.org_id).0 h)
    own Role.admin h = inr ((==_iff org_id user.org_id).0 h)
    own Role.operator h = inr ((==_iff org_id user.org_id).0 h)
    own Role.viewer h = inr ((==_iff org_id user.org_id).0 h)
    own Role.other h = inr ((==_iff org_id user.org_id).0 h)
