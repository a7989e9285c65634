-- ===== src/Proposals/Names.antt =====
-- What the sentence of a proposal shows.
use nightfury.Prelude.{
  ℕ, List, [], ◌∷◌, ◌≡◌, inl, inr, Option, some, true, ◌&&◌, In, In-cons, In-keep, map-In, elem,
  ◌==◌, arith,
}
use mathlib.Core.Path.{ap}
use nightfury.Prelude.Dict.{Dict, lookup, dict_of-In}
use nightfury.Access.{user_may_access_site}
use nightfury.Access.Scope.{scope_to_sites-may_access}
use nightfury.Proposals.{
  ToolContext, Camera, Tables, Proposal, Payload, Summary, connects, creates, alert_rule,
  camera_connection, is_live, resolve_camera_names, camera_ids, render_summary, create_proposal,
}

-- The camera names in a sentence.
abbrev pub shown : Summary → List (Option ℕ)
shown (connects a b via) = a ∷ b ∷ []
shown (creates name channels severity cameras between) = cameras

resolve_camera_names-visible :
    (ctx : ToolContext) (ids : List ℕ) (cameras : List Camera) (k n : ℕ)
    → lookup k (resolve_camera_names ctx ids cameras) ≡ some n
    → (c : Camera) × In c cameras
      × (c.id ≡ k)
      × (c.name ≡ n)
      × (c.org_id ≡ ctx.org_id)
      × (is_live c.deleted_at ≡ true)
      × (user_may_access_site ctx.user (some c.site_id) ≡ true)
unfolding resolve_camera_names
resolve_camera_names-visible ctx ids cameras k n h =
    let (c, m, e) = map-In _ _ (dict_of-In _ k n h) in
    let (row, may) = (scope_to_sites-may_access (λ c. c.site_id) ctx.user _ c).0 m in
    let (known, q) =
      In-keep (λ c. (elem c.id ids && c.org_id == ctx.org_id) && is_live c.deleted_at) cameras
        row in
    (c, known, ap (λ p. p.0) e, ap (λ p. p.1) e, ground arith, ground arith, may)

shown-lookup :
    (payload : Payload) (names : Dict ℕ) (n : ℕ)
    → In (some n) (shown (render_summary payload names))
    → (k : ℕ) × (lookup k names ≡ some n)
unfolding render_summary
shown-lookup (alert_rule body) names n m =
    let (c, _, e) = map-In (λ c. lookup c names) body.cameras m in (c, e)
shown-lookup (camera_connection body) names n m = elim (In-cons m) [
  | inl e ↦ (body.camera_a_id, e)
  | inr k ↦ elim (In-cons k) [ inl e ↦ (body.camera_b_id, e) | inr z ↦ elim z [ ] ]
]

-- A name that the sentence of a new proposal shows is that of a camera that is not deleted, belongs to
-- the caller's organisation, and stands at a site that the caller may access.
pub create_proposal-shown :
    (now new_id : ℕ) (ctx : ToolContext) (payload : Payload) (site_id : Option ℕ) (s : Tables)
    (p : Proposal) (n : ℕ)
    → (create_proposal now new_id ctx (some payload) site_id s).0 ≡ some p
    → In (some n) (shown p.summary)
    → (c : Camera) × In c s.cameras
      × (c.name ≡ n)
      × (c.org_id ≡ ctx.org_id)
      × (is_live c.deleted_at ≡ true)
      × (user_may_access_site ctx.user (some c.site_id) ≡ true)
unfolding create_proposal render_summary
create_proposal-shown now new_id ctx payload site_id s p n h m =
    let names = resolve_camera_names ctx (camera_ids payload) s.cameras in
    let text : render_summary payload names ≡ p.summary = cc h in
    let (k, found) = shown-lookup payload names n (rw text m) in
    let (c, known, _, name, org, live, may) =
      resolve_camera_names-visible ctx (camera_ids payload) s.cameras k n found in
    (c, known, name, org, live, may)
