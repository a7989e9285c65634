-- ===== src/Reconcile/Counts.antt =====
-- The counts that `reconcile_site` writes, and those that it does not.
use nightfury.Prelude.{
  ℕ, List, map, ◌≡◌, refl, sym, ap, ◌∙◌, inl, inr, Option, none, false, In, Bool-cases, keep,
  In-keep, map-In, arith,
}
use mathlib.Core.Path.{subst}
use nightfury.Prelude.Dict.{lookup}
use nightfury.Prelude.Sort.{Distinct, Distinct-eq}
use nightfury.Placement.{changed, is_usable}
use nightfury.Placement.Uncounted.{plan_placement-uncounted}
use nightfury.Reconcile.{
  Agent, Fleet, camera_slot, agent_slot, selects_camera, selects_agent, is_online, update_agent,
  apply_agent, touched, plan_of, apply_plan, reconcile_site,
}
use nightfury.Reconcile.Rows.{map-row, apply_agent-id}

module _ (org_id : ℕ) (site : Option ℕ) (db : Fleet) (a : Agent)
    (d : Distinct (λ a. a.id) db.agents) (m : In a db.agents)
    (off : is_online a.status ≡ false) where
  uncounted : lookup a.id (plan_of org_id site db).per_agent_count ≡ none
  unfolding plan_of
  uncounted =
      plan_placement-uncounted (map camera_slot (keep (selects_camera org_id site) db.cameras))
        (map agent_slot (keep (selects_agent org_id site) db.agents)) a.id
        (λ slot n e.
          let (b, k, from) = map-In agent_slot _ n in
          let (k', _) = In-keep (selects_agent org_id site) db.agents k in
          let key : b.id ≡ a.id = ap (λ x. x.agent_id) from ∙ e in
          let same = Distinct-eq (λ a. a.id) db.agents b a d k' m key in
          subst (λ x. is_usable x ≡ false) (ap agent_slot (sym same) ∙ from) (rw off refl))

  count_kept :
      (ids : List ℕ)
      → (apply_agent org_id site (plan_of org_id site db) ids a).assigned_count ≡ a.assigned_count
  unfolding apply_agent update_agent
  count_kept ids = ground (arith, uncounted)

-- With distinct agent ids, an agent of the selection that is not online keeps its count of assigned
-- cameras, although reconcile_site moves its cameras away.
pub reconcile_site-stale_count :
    (org_id : ℕ) (site : Option ℕ) (db : Fleet) (a a' : Agent)
    → Distinct (λ a. a.id) db.agents
    → In a db.agents
    → is_online a.status ≡ false
    → In a' (reconcile_site org_id site db).1.agents
    → a'.id ≡ a.id
    → a'.assigned_count ≡ a.assigned_count
unfolding reconcile_site apply_plan
reconcile_site-stale_count org_id site db a a' d m off m' e =
    let plan = plan_of org_id site db in
    let ids = touched plan (keep (selects_camera org_id site) db.cameras) in
    elim (Bool-cases (changed plan)) [
      | inr f ↦
          let eq = Distinct-eq (λ a. a.id) db.agents a' a d (rw f at m') m e in
          ap (λ x. x.assigned_count) eq
      | inl f ↦
          let row =
            map-row (λ a. a.id) (apply_agent org_id site plan ids) db.agents a a' d
              (apply_agent-id org_id site plan ids) m (rw f at m') e in
          ap (λ x. x.assigned_count) row ∙ count_kept org_id site db a d m off ids
    ]
