-- ===== src/Reconcile/Versions.antt =====
-- The versions of the agents' assignments, which agents use to skip an unchanged configuration.
use nightfury.Prelude.{
  ℕ, ◌+◌, List, [], ◌∷◌, ◌++◌, ◌≡◌, ◌≢◌, ◌↔◌, ap, ◌∙◌, inl, inr, Option, none, some, true, false,
  ◌&&◌, ◌||◌, In, Bool-cases, keep, keep-In, In-cons, elem, arith, if◌then◌else◌, ==_refl,
  option_list,
}
use mathlib.Core.Path.{subst}
use nightfury.Prelude.Keys.{elem-append}
use nightfury.Prelude.Sort.{Distinct, Distinct-eq}
use nightfury.Placement.{PlacementPlan, changed}
use nightfury.Placement.Replay.{agent_in}
use nightfury.Reconcile.Rows.{map-row, apply_camera-id, apply_agent-id}
use nightfury.Reconcile.{
  Camera, Agent, Fleet, camera_slot, selects_camera, selects_agent, move_camera, update_agent,
  apply_camera, apply_agent, touched, plan_of, apply_plan, reconcile_site,
}

elem-option_list : (a : ℕ) (o : Option ℕ) → o ≡ some a → elem a (option_list o) ≡ true
elem-option_list a none h = cc
elem-option_list a (some b) h = ground (arith, ==_refl a)

-- `touched` has the agent, for the round of one camera.
elem-touched_cons :
    (plan : PlacementPlan) (a : ℕ) (c : Camera) (cams : List Camera)
    → elem a (touched plan (c ∷ cams)) ≡ (
        (elem c.id plan.moved
          && (elem a (option_list c.agent_id)
              || elem a (option_list (agent_in plan.assignments (camera_slot c)))))
        || elem a (touched plan cams))
unfolding touched
elem-touched_cons plan a c cams =
    let new = agent_in plan.assignments (camera_slot c) in
    ground (
      arith,
      elem-append a (option_list c.agent_id) (option_list new ++ touched plan cams),
      elem-append a (option_list new) (touched plan cams),
    )

-- Both ends of a move are touched.
elem-touched :
    (plan : PlacementPlan) (a : ℕ) (c : Camera) (cams : List Camera)
    → In c cams
    → elem c.id plan.moved ≡ true
    → elem a (touched plan cams) ≡ false
    → (c.agent_id ≢ some a) × (agent_in plan.assignments (camera_slot c) ≢ some a)
elem-touched plan a c (x ∷ cams) m e out = elim (In-cons m) [
  | inl same ↦
      let step =
        subst
          (λ y. elem a (touched plan (y ∷ cams)) ≡ (
            (elem y.id plan.moved
              && (elem a (option_list y.agent_id)
                  || elem a (option_list (agent_in plan.assignments (camera_slot y)))))
            || elem a (touched plan cams)))
          same (elem-touched_cons plan a x cams) in
      let out' = subst (λ y. elem a (touched plan (y ∷ cams)) ≡ false) same out in
      (
        λ old. ground (arith, step, elem-option_list a c.agent_id old),
        λ new. ground (arith, step, elem-option_list a _ new),
      )
  | inr n ↦ elem-touched plan a c cams n e (ground (arith, elem-touched_cons plan a x cams))
]
elem-touched plan a c [] m e out = elim m [ ]

module _ (org_id : ℕ) (site : Option ℕ) (db : Fleet) where
  apply_agent-version :
      (plan : PlacementPlan) (ids : List ℕ) (a : Agent)
      → selects_agent org_id site a ≡ true
      → (apply_agent org_id site plan ids a).assignment_version
        ≡ (if elem a.id ids then a.assignment_version + 1 else a.assignment_version)
  unfolding apply_agent update_agent
  apply_agent-version plan ids a sel = ground arith

  apply_camera-untouched :
      (plan : PlacementPlan) (c : Camera) (aid : ℕ)
      → In c db.cameras
      → elem aid (touched plan (keep (selects_camera org_id site) db.cameras)) ≡ false
      → (c.agent_id ≡ some aid) ↔ ((apply_camera org_id site plan c).agent_id ≡ some aid)
  unfolding apply_camera move_camera
  apply_camera-untouched plan c aid m out = elim (Bool-cases (selects_camera org_id site c)) [
    | inr e ↦ rw e (λ x. x, λ x. x)
    | inl e ↦ elim (Bool-cases (elem c.id plan.moved)) [
      | inr f ↦ rw (e, f) (λ x. x, λ x. x)
      | inl f ↦
          let (old, new) =
            elem-touched plan aid c _ (keep-In (selects_camera org_id site) db.cameras m e) f out in
          rw (e, f) (λ x. absurd (old x), λ x. absurd (new x))
    ]
  ]

-- With distinct ids of cameras and agents, an agent of the selection whose version is the same after
-- reconcile_site as before is on the same cameras: each camera that was assigned to it still is, and
-- each that is was.
pub reconcile_site-version :
    (org_id : ℕ) (site : Option ℕ) (db : Fleet) (c c' : Camera) (a a' : Agent)
    → Distinct (λ c. c.id) db.cameras
    → Distinct (λ a. a.id) db.agents
    → let db' = (reconcile_site org_id site db).1 in
      In c db.cameras
      → In c' db'.cameras
      → c'.id ≡ c.id
      → In a db.agents
      → In a' db'.agents
      → a'.id ≡ a.id
      → selects_agent org_id site a ≡ true
      → a'.assignment_version ≡ a.assignment_version
      → (c.agent_id ≡ some a.id) ↔ (c'.agent_id ≡ some a.id)
unfolding reconcile_site apply_plan
reconcile_site-version org_id site db c c' a a' dc da mc mc' ec ma ma' ea sel same =
    let plan = plan_of org_id site db in
    let ids = touched plan (keep (selects_camera org_id site) db.cameras) in
    elim (Bool-cases (changed plan)) [
      | inr e ↦
          let eq = Distinct-eq (λ c. c.id) db.cameras c' c dc (rw e at mc') mc ec in
          rw eq (λ x. x, λ x. x)
      | inl e ↦
          let cam =
            map-row (λ c. c.id) (apply_camera org_id site plan) db.cameras c c' dc
              (apply_camera-id org_id site plan) mc (rw e at mc') ec in
          let row =
            map-row (λ a. a.id) (apply_agent org_id site plan ids) db.agents a a' da
              (apply_agent-id org_id site plan ids) ma (rw e at ma') ea in
          let version =
            ap (λ x. x.assignment_version) row
            ∙ apply_agent-version org_id site db plan ids a sel in
          let out : elem a.id ids ≡ false = ground (arith, version) in
          rw cam (apply_camera-untouched org_id site db plan c a.id mc out)
    ]
