-- ===== src/Reconcile/Assigned.antt =====
-- What `reconcile_site` leaves in the rows of the cameras, and that a second call finds nothing to do.
use nightfury.Prelude.{
  ℕ, List, [], ◌∷◌, map, ◌≡◌, refl, sym, ap, ◌∙◌, inl, inr, Option, none, some, true, false, In,
  Bool-cases, keep, map-In, In-keep, In-map, keep-In, ◌⊎◌, arith,
}
use mathlib.Core.Path.{subst}
use nightfury.Prelude.Dict.{lookup}
use nightfury.Prelude.Sort.{Distinct, Distinct-eq}
use nightfury.Placement.{AgentSlot, PlacementPlan, changed, plan_placement}
use nightfury.Placement.Frame.{id_of}
use nightfury.Placement.Limits.{plan_placement-respects}
use nightfury.Placement.Replay.{agent_in, assign}
use nightfury.Placement.Stable.{plan_placement-stable}
use nightfury.Reconcile.{
  Camera, Agent, Fleet, camera_slot, agent_slot, selects_camera, selects_agent, is_online,
  move_camera, update_agent, apply_camera, apply_agent, touched, plan_of, apply_plan,
  reconcile_site,
}
use nightfury.Reconcile.Rows.{
  map-keep, Distinct-slots, unchanged-elem, selects_camera-apply, plan_of-agent,
}

map-eq : {A : Type 0} (f : A → A) (xs : List A) → ((a : A) → f a ≡ a) → map f xs ≡ xs
map-eq f [] h = refl
map-eq f (x ∷ xs) h = rw (h x, map-eq f xs h) refl

module _ (org_id : ℕ) (site : Option ℕ) (db : Fleet) where
  apply_camera-unchanged :
      (c : Camera)
      → changed (plan_of org_id site db) ≡ false
      → apply_camera org_id site (plan_of org_id site db) c ≡ c
  unfolding apply_camera
  apply_camera-unchanged c h = ground (arith, unchanged-elem (plan_of org_id site db) c.id h)

  -- Whether the plan changes anything or not, these are the cameras.
  pub reconcile_site-cameras :
      (reconcile_site org_id site db).1.cameras
      ≡ map (apply_camera org_id site (plan_of org_id site db)) db.cameras
  unfolding reconcile_site apply_plan
  reconcile_site-cameras = elim (Bool-cases (changed (plan_of org_id site db))) [
    | inl e ↦ rw e refl
    | inr e ↦ rw e (sym (map-eq _ db.cameras (λ c. apply_camera-unchanged c e)))
  ]

  pub reconcile_site-plan : (reconcile_site org_id site db).0 ≡ plan_of org_id site db
  unfolding reconcile_site
  reconcile_site-plan = ground arith

  module _ (d : Distinct (λ c. c.id) db.cameras) where
    pub apply_camera-agent :
        (c : Camera)
        → In c db.cameras
        → selects_camera org_id site c ≡ true
        → let plan = plan_of org_id site db in
          (apply_camera org_id site plan c).agent_id ≡ agent_in plan.assignments (camera_slot c)
    unfolding apply_camera move_camera
    apply_camera-agent c m sel =
        let (_, stays) = plan_of-agent org_id site db c d m sel in ground (arith, stays)

    camera_slot-apply :
        (c : Camera)
        → In c db.cameras
        → selects_camera org_id site c ≡ true
        → let plan = plan_of org_id site db in
          camera_slot (apply_camera org_id site plan c) ≡ assign plan.assignments (camera_slot c)
    unfolding apply_camera move_camera
    camera_slot-apply c m sel =
        let (_, stays) = plan_of-agent org_id site db c d m sel in ground (arith, stays)

    agent_slot-apply :
        (plan : PlacementPlan) (ids : List ℕ) (a : Agent)
        → agent_slot (apply_agent org_id site plan ids a) ≡ agent_slot a
    unfolding apply_agent update_agent
    agent_slot-apply plan ids a = ground arith

    selects_agent-apply :
        (plan : PlacementPlan) (ids : List ℕ) (a : Agent)
        → selects_agent org_id site (apply_agent org_id site plan ids a)
          ≡ selects_agent org_id site a
    unfolding apply_agent update_agent
    selects_agent-apply plan ids a = ground arith

    planned_again :
        let plan = plan_of org_id site db in
        changed (plan_of org_id site (apply_plan org_id site plan db)) ≡ false
    unfolding plan_of apply_plan
    planned_again =
        let plan = plan_of org_id site db in
        let cams = map camera_slot (keep (selects_camera org_id site) db.cameras) in
        let agents = map agent_slot (keep (selects_agent org_id site) db.agents) in
        let ids = touched plan (keep (selects_camera org_id site) db.cameras) in
        let dist =
          Distinct-slots (λ c. c.id) (selects_camera org_id site) camera_slot id_of (λ c. refl)
            db.cameras d in
        rw
          (
            map-keep (selects_camera org_id site) (apply_camera org_id site plan) camera_slot
                (assign plan.assignments) db.cameras (selects_camera-apply org_id site plan)
                camera_slot-apply,
            map-keep (selects_agent org_id site) (apply_agent org_id site plan ids) agent_slot
                (λ a. a) db.agents (selects_agent-apply plan ids)
                (λ a _ _. agent_slot-apply plan ids a),
            map-eq (λ (a : AgentSlot). a) agents (λ a. refl),
          )
          (plan_placement-stable cams agents dist)

-- With distinct camera ids, every live camera of the organisation, or of the site when one is given,
-- has after reconcile_site the agent that the returned plan assigns to it, or none when it has none.
pub reconcile_site-assigned :
    (org_id : ℕ) (site : Option ℕ) (db : Fleet) (c : Camera)
    → Distinct (λ c. c.id) db.cameras
    → let (plan, db') = reconcile_site org_id site db in
      In c db'.cameras
      → selects_camera org_id site c ≡ true
      → lookup c.id plan.assignments ≡ some c.agent_id
unfolding move_camera apply_camera
reconcile_site-assigned org_id site db c d m sel =
    let plan = plan_of org_id site db in
    let (c0, n, e) =
      map-In (apply_camera org_id site plan) db.cameras
        (rw (reconcile_site-cameras org_id site db) at m) in
    let sel0 : selects_camera org_id site c0 ≡ true =
      sym (selects_camera-apply org_id site plan c0) ∙ ap (selects_camera org_id site) e ∙ sel in
    let (set, _) = plan_of-agent org_id site db c0 d n sel0 in
    let row = apply_camera-agent org_id site db d c0 n sel0 in
    let key : (apply_camera org_id site plan c0).id ≡ c0.id = ground arith in
    rw reconcile_site-plan
      (subst (λ x. lookup x.id plan.assignments ≡ some x.agent_id) e (rw (key, row) set))

-- With distinct camera ids, calling reconcile_site again at once changes no row.
pub reconcile_site-idempotent :
    (org_id : ℕ) (site : Option ℕ) (db : Fleet)
    → Distinct (λ c. c.id) db.cameras
    → let db' = (reconcile_site org_id site db).1 in (reconcile_site org_id site db').1 ≡ db'
unfolding reconcile_site
reconcile_site-idempotent org_id site db d = elim (Bool-cases (changed (plan_of org_id site db))) [
  | inl e ↦ rw (e, planned_again org_id site db d) refl
  | inr e ↦ rw (e, e) refl
]

module _ (org_id : ℕ) (site : Option ℕ) where
  apply_camera-out :
      (plan : PlacementPlan) (c : Camera)
      → selects_camera org_id site c ≡ false
      → apply_camera org_id site plan c ≡ c
  unfolding apply_camera
  apply_camera-out plan c out = ground arith

  -- A row as it is behind the writes comes from one with the same id, site and pin.
  reconcile_site-row :
      (db : Fleet) (c : Camera)
      → In c (reconcile_site org_id site db).1.cameras
      → (c0 : Camera) × In c0 db.cameras
        × (c0.id ≡ c.id)
        × (c0.site_id ≡ c.site_id)
        × (c0.pinned_agent_id ≡ c.pinned_agent_id)
        × (selects_camera org_id site c0 ≡ selects_camera org_id site c)
  unfolding apply_camera move_camera
  reconcile_site-row db c m =
      let plan = plan_of org_id site db in
      let (c0, n, e) =
        map-In (apply_camera org_id site plan) db.cameras
          (rw (reconcile_site-cameras org_id site db) at m) in
      (
        c0,
        n,
        ground arith,
        ground arith,
        ground arith,
        sym (selects_camera-apply org_id site plan c0) ∙ ap (selects_camera org_id site) e,
      )

  -- A row that is not selected was not written.
  pub reconcile_site-other :
      (db : Fleet) (c : Camera)
      → In c (reconcile_site org_id site db).1.cameras
      → selects_camera org_id site c ≡ false
      → In c db.cameras
  unfolding apply_camera
  reconcile_site-other db c m out =
      let plan = plan_of org_id site db in
      let (c0, n, e) =
        map-In (apply_camera org_id site plan) db.cameras
          (rw (reconcile_site-cameras org_id site db) at m) in
      let out0 =
        sym (selects_camera-apply org_id site plan c0) ∙ ap (selects_camera org_id site) e ∙ out in
      let same : c0 ≡ c = sym (apply_camera-out plan c0 out0) ∙ e in
      subst (λ x. In x db.cameras) same n

-- With distinct camera ids, a live camera of the organisation, or of the site when one is given, is
-- after reconcile_site on no other agents than those that were selected and are online, stand at its
-- own site, and are the one it is pinned to, if it is pinned.
pub reconcile_site-hosts :
    (org_id : ℕ) (site : Option ℕ) (db : Fleet) (c : Camera) (aid : ℕ)
    → Distinct (λ c. c.id) db.cameras
    → In c (reconcile_site org_id site db).1.cameras
    → selects_camera org_id site c ≡ true
    → c.agent_id ≡ some aid
    → (a : Agent) × In a db.agents
      × (a.id ≡ aid)
      × (selects_agent org_id site a ≡ true)
      × (is_online a.status ≡ true)
      × (a.site_id ≡ some c.site_id)
      × ((c.pinned_agent_id ≡ some aid) ⊎ (c.pinned_agent_id ≡ none))
unfolding plan_of
reconcile_site-hosts org_id site db c aid d m sel e =
    let cams = map camera_slot (keep (selects_camera org_id site) db.cameras) in
    let agents = map agent_slot (keep (selects_agent org_id site) db.agents) in
    let dist =
      Distinct-slots (λ c. c.id) (selects_camera org_id site) camera_slot id_of (λ c. refl)
        db.cameras d in
    let (c0, n, key, at, pin, same) = reconcile_site-row org_id site db c m in
    let set : lookup c.id (plan_placement cams agents).assignments ≡ some (some aid) =
      (rw reconcile_site-plan at (reconcile_site-assigned org_id site db c d m sel)) ∙ ap some e in
    let (slot, given, id, usable, here, pinned) =
      plan_placement-respects cams agents (λ c d. Distinct-eq id_of cams c d dist) (camera_slot c0)
        aid (In-map camera_slot _ (keep-In (selects_camera org_id site) db.cameras n (same ∙ sel)))
        (rw key set) in
    let (a, k, from) = map-In agent_slot _ given in
    let (k', sel') = In-keep (selects_agent org_id site) db.agents k in
    (a, k', ground arith, sel', ground arith, ground arith, ground arith)
