-- ===== src/Access/Tests.antt =====
-- A run of the scoping at a user of two sites.
use nightfury.Prelude.{[], ◌∷◌, ◌≡◌, refl}
use nightfury.Access.{User, admin, scope_to_sites, permitted_site_ids}

abbrev guard : User
guard = record { id = 7; org_id = 1; role = admin; sites_access = 3 ∷ 5 ∷ [] }

scoped : scope_to_sites (λ site. site) guard (3 ∷ 4 ∷ 5 ∷ []) ≡ 3 ∷ 5 ∷ []
unfolding scope_to_sites permitted_site_ids
scoped = refl
