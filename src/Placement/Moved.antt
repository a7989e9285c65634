-- ===== src/Placement/Moved.antt =====
-- The list `moved`: a camera that is not on it keeps its agent.
use nightfury.Prelude.{
  ℕ, List, [], ◌∷◌, ◌++◌, ◌≡◌, ◌≢◌, ◌⊎◌, sym, ◌∙◌, inl, inr, Option, none, some, In, All-of_In,
  false, option_eq, elem, arith, ==_refl, if◌then◌else◌,
}
use mathlib.Core.Path.{subst}
use nightfury.Prelude.Dict.{Dict, lookup, lookup-insert_cases}
use nightfury.Prelude.Keys.{elem-append}
use nightfury.Prelude.Sort.{Distinct, Distinct-eq, sorted, sorted-In}
use nightfury.Placement.{
  AgentSlot, CameraSlot, Packing, place, drop_camera, usable_agents, plan_placement,
}
use nightfury.Placement.Frame.{id_of}
use nightfury.Placement.Limits.{Identified}
use nightfury.Placement.Rule.{pack_rule}
use nightfury.Placement.Usable.{usable_agents-IsKeyed}

-- What `place` and `drop_camera` do to the list.
abbrev listed : CameraSlot → Option ℕ → List ℕ → List ℕ
listed cam to moved =
    if option_eq cam.current_agent_id to then moved else moved ++ cam.camera_id ∷ []

listed_self :
    (cam : CameraSlot) (to : Option ℕ) (moved : List ℕ)
    → elem cam.camera_id (listed cam to moved) ≡ false
    → cam.current_agent_id ≡ to
listed_self cam none moved h =
    ground (arith, elem-append cam.camera_id moved (cam.camera_id ∷ []), ==_refl cam.camera_id)
listed_self cam (some a) moved h =
    ground (arith, elem-append cam.camera_id moved (cam.camera_id ∷ []), ==_refl cam.camera_id)

listed-other :
    (cam : CameraSlot) (to : Option ℕ) (k : ℕ) (moved : List ℕ)
    → elem k (listed cam to moved) ≡ false
    → elem k moved ≡ false
listed-other cam to k moved h = ground (arith, elem-append k moved (cam.camera_id ∷ []))

module _ (cams : List CameraSlot) (ids : Identified cams) where
  abbrev Marked : Packing → Type 0
  Marked s =
      (c : CameraSlot) (x : Option ℕ)
      → In c cams
      → lookup c.camera_id s.plan.assignments ≡ some x
      → elem c.camera_id s.plan.moved ≡ false
      → c.current_agent_id ≡ x

  mark :
      (cam c : CameraSlot) (to x : Option ℕ) (asg : Dict (Option ℕ)) (moved : List ℕ)
      → In cam cams
      → In c cams
      → ((y : Option ℕ)
          → lookup c.camera_id asg ≡ some y
          → elem c.camera_id moved ≡ false
          → c.current_agent_id ≡ y)
      → ((c.camera_id ≡ cam.camera_id) × (to ≡ x))
        ⊎ ((c.camera_id ≢ cam.camera_id) × (lookup c.camera_id asg ≡ some x))
      → elem c.camera_id (listed cam to moved) ≡ false
      → c.current_agent_id ≡ x
  mark cam c to x asg moved m n h (inl (same, e)) out =
      let eq = ids c cam n m same in
      subst (λ d. d.current_agent_id ≡ x) (sym eq)
        (listed_self cam to moved (subst (λ k. elem k (listed cam to moved) ≡ false) same out) ∙ e)
  mark cam c to x asg moved m n h (inr (_, old)) out =
      h x old (listed-other cam to c.camera_id moved out)

  place-Marked :
      (cam : CameraSlot) (aid : ℕ) (s : Packing) → In cam cams → Marked s → Marked (place cam aid s)
  unfolding place
  place-Marked cam aid s m h c x n e out =
      mark cam c (some aid) x s.plan.assignments s.plan.moved m n (λ y. h c y n)
        (lookup-insert_cases cam.camera_id c.camera_id (some aid) x _ e) out

  drop-Marked :
      (cam : CameraSlot) (s : Packing) → In cam cams → Marked s → Marked (drop_camera cam s)
  unfolding drop_camera
  drop-Marked cam s m h c x n e out =
      mark cam c none x s.plan.assignments s.plan.moved m n (λ y. h c y n)
        (lookup-insert_cases cam.camera_id c.camera_id none x _ e) out

-- A camera that is not listed as moved is assigned to the agent that it has.
pub plan_placement-unmoved :
    (cams : List CameraSlot) (agents : List AgentSlot) (c : CameraSlot) (x : Option ℕ)
    → Distinct id_of cams
    → In c cams
    → lookup c.camera_id (plan_placement cams agents).assignments ≡ some x
    → elem c.camera_id (plan_placement cams agents).moved ≡ false
    → c.current_agent_id ≡ x
unfolding plan_placement lookup
plan_placement-unmoved cams agents c x dist m =
    let u = usable_agents agents in
    pack_rule u (usable_agents-IsKeyed agents) (λ c. In c cams)
      (Marked cams (λ c d. Distinct-eq id_of cams c d dist))
      (λ cam aid s n _ h. place-Marked cams (λ c d. Distinct-eq id_of cams c d dist) cam aid s n h)
      (λ cam s n _ h. drop-Marked cams (λ c d. Distinct-eq id_of cams c d dist) cam s n h)
      (sorted id_of cams) (All-of_In _ _ (λ c n. sorted-In id_of cams n)) (λ c x n e. cc) c x m
