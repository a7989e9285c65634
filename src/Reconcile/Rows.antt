-- ===== src/Reconcile/Rows.antt =====
-- What applying a plan does to a row, and to the rows that the statements select.
use nightfury.Prelude.{
  ℕ, List, [], ◌∷◌, map, ◌≡◌, refl, sym, ap, ◌∙◌, inl, inr, Option, some, Bool, true, false, In,
  here, there, All, All-map_list, Bool-cases, Option-cases, keep, In-map, map-In, keep-In, elem,
  arith,
}
use nightfury.Prelude.Dict.{lookup}
use nightfury.Prelude.Sort.{Distinct, Distinct-eq, Lacks}
use nightfury.Placement.{PlacementPlan, changed, plan_placement}
use nightfury.Placement.Covers.{plan_placement-covers}
use nightfury.Placement.Frame.{id_of}
use nightfury.Placement.Moved.{plan_placement-unmoved}
use nightfury.Placement.Replay.{agent_in}
use nightfury.Reconcile.{
  Camera, Agent, Fleet, camera_slot, agent_slot, selects_camera, selects_agent, move_camera,
  apply_camera, update_agent, apply_agent, touched, plan_of, apply_plan, reconcile_site,
}

-- Selecting the rows that were written, against writing the selected rows.
pub map-keep {ℓ} :
    {A : Type 0} {B : Type ℓ} (p : A → Bool) (f : A → A) (g : A → B) (h : B → B) (xs : List A)
    → ((a : A) → p (f a) ≡ p a)
    → ((a : A) → In a xs → p a ≡ true → g (f a) ≡ h (g a))
    → map g (keep p (map f xs)) ≡ map h (map g (keep p xs))
map-keep p f g h [] same eq = refl
map-keep p f g h (x ∷ xs) same eq =
    let ih = map-keep p f g h xs same (λ a m. eq a (there m)) in
    elim (Bool-cases (p x)) [
      | inl e ↦ rw (same x, e, eq x here e, ih) refl
      | inr e ↦ rw (same x, e) ih
    ]

module _ {A B : Type 0} (key : A → ℕ) (p : A → Bool) (slot : A → B) (slot_key : B → ℕ)
    (same : (a : A) → slot_key (slot a) ≡ key a) where
  Lacks-slots : (k : ℕ) (xs : List A) → Lacks key k xs → Lacks slot_key k (map slot (keep p xs))
  Lacks-slots k [] h = tt
  Lacks-slots k (x ∷ xs) h = elim (Bool-cases (p x)) [
    | inl e ↦ rw e ((rw same (h.0)), Lacks-slots k xs h.1)
    | inr e ↦ rw e (Lacks-slots k xs h.1)
  ]

  pub Distinct-slots : (xs : List A) → Distinct key xs → Distinct slot_key (map slot (keep p xs))
  Distinct-slots [] d = tt
  Distinct-slots (x ∷ xs) d = elim (Bool-cases (p x)) [
    | inl e ↦ rw (e, same x) (Lacks-slots (key x) xs d.0, Distinct-slots xs d.1)
    | inr e ↦ rw e (Distinct-slots xs d.1)
  ]

pub unchanged-elem :
    (plan : PlacementPlan) (k : ℕ) → changed plan ≡ false → elem k plan.moved ≡ false
unfolding changed
unchanged-elem plan k h = ground arith

module _ (org_id : ℕ) (site : Option ℕ) where
  pub apply_camera-id :
      (plan : PlacementPlan) (c : Camera) → (apply_camera org_id site plan c).id ≡ c.id
  unfolding apply_camera move_camera
  apply_camera-id plan c = ground arith

  pub apply_agent-id :
      (plan : PlacementPlan) (ids : List ℕ) (a : Agent)
      → (apply_agent org_id site plan ids a).id ≡ a.id
  unfolding apply_agent update_agent
  apply_agent-id plan ids a = ground arith

  pub selects_camera-apply :
      (plan : PlacementPlan) (c : Camera)
      → selects_camera org_id site (apply_camera org_id site plan c) ≡ selects_camera org_id site c
  unfolding apply_camera move_camera
  selects_camera-apply plan c = ground arith

  -- The plan of a selected camera is to stay, or to be written to its row.
  pub plan_of-agent :
      (db : Fleet) (c : Camera)
      → Distinct (λ c. c.id) db.cameras
      → In c db.cameras
      → selects_camera org_id site c ≡ true
      → let plan = plan_of org_id site db in
        (lookup c.id plan.assignments ≡ some (agent_in plan.assignments (camera_slot c)))
        × (elem c.id plan.moved ≡ false → c.agent_id ≡ agent_in plan.assignments (camera_slot c))
  unfolding plan_of
  plan_of-agent db c d m sel =
      let cams = map camera_slot (keep (selects_camera org_id site) db.cameras) in
      let agents = map agent_slot (keep (selects_agent org_id site) db.agents) in
      let dist =
        Distinct-slots (λ c. c.id) (selects_camera org_id site) camera_slot id_of (λ c. refl)
          db.cameras d in
      let known = In-map camera_slot _ (keep-In (selects_camera org_id site) db.cameras m sel) in
      elim (Option-cases (lookup c.id (plan_placement cams agents).assignments)) [
        | inl e ↦ absurd (plan_placement-covers cams agents (camera_slot c) dist known e)
        | inr (x, e) ↦
            let found : agent_in (plan_placement cams agents).assignments (camera_slot c) ≡ x =
              (rw e refl) in
            (
              e ∙ ap some (sym found),
              λ out.
                  plan_placement-unmoved cams agents (camera_slot c) x dist known e out ∙ sym found,
            )
      ]

-- With distinct keys, the written row of a key is the write of the row that had it.
pub map-row :
    {A : Type 0} (key : A → ℕ) (f : A → A) (xs : List A) (x y : A)
    → Distinct key xs
    → ((a : A) → key (f a) ≡ key a)
    → In x xs
    → In y (map f xs)
    → key y ≡ key x
    → y ≡ f x
map-row key f xs x y d same m n e =
    let (z, k, from) = map-In f xs n in
    let eq = Distinct-eq key xs z x d k m (sym (same z) ∙ ap key from ∙ e) in sym from ∙ ap f eq

-- A property of an agent that counts and versions do not touch holds of the rows behind the writes.
module _ (P : Agent → Type 0)
    (keeps : (count version : ℕ) (a : Agent)
      → P a
      → P (record a { assigned_count = count; assignment_version = version }))
    (org_id : ℕ) (site : Option ℕ) where
  apply_agent-keeps :
      (plan : PlacementPlan) (ids : List ℕ) (a : Agent)
      → P a
      → P (apply_agent org_id site plan ids a)
  unfolding apply_agent update_agent
  apply_agent-keeps plan ids a h = elim (Bool-cases (selects_agent org_id site a)) [
    | inl e ↦ rw e (keeps _ _ a h)
    | inr e ↦ rw e h
  ]

  pub reconcile_site-agents :
      (db : Fleet) → All P db.agents → All P (reconcile_site org_id site db).1.agents
  unfolding reconcile_site apply_plan
  reconcile_site-agents db all =
      let plan = plan_of org_id site db in
      let ids = touched plan (keep (selects_camera org_id site) db.cameras) in
      elim (Bool-cases (changed plan)) [
        | inl e ↦ rw e (
            All-map_list P P (apply_agent org_id site plan ids) db.agents
              (apply_agent-keeps plan ids) all)
        | inr e ↦ rw e all
      ]
