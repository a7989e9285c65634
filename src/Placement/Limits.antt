-- ===== src/Placement/Limits.antt =====
-- What the planner never does: overfill an agent, or put a camera where it cannot run.
use nightfury.Prelude.{
  ℕ, List, [], ◌∷◌, none, some, true, ◌≡◌, ◌≤◌, ◌+◌, ◌⊎◌, inl, inr, All, In, arith, map, refl,
  Option-cases, All-of_In, sym,
}
use nightfury.Prelude.Dict.{Dict, lookup, lookup-insert, lookup-insert_cases}
use nightfury.Prelude.Sort.{sorted, sorted-In}
use mathlib.Core.Path.{subst}
use nightfury.Placement.{
  AgentSlot, CameraSlot, Packing, is_usable, load_of, can_host, place, drop_camera, pack,
  usable_agents, plan_placement,
}
use nightfury.Placement.Usable.{
  IsKeyed, usable_agents-IsKeyed, usable_agents-usable, lookup-agent_id,
}
use nightfury.Placement.Rule.{Allowed, pack_rule}

module _ (u : Dict AgentSlot) where
  abbrev pub Fits : Packing → Type 0
  Fits s = (aid : ℕ) (a : AgentSlot) → lookup aid u ≡ some a → load_of s.load aid ≤ a.capacity

  place-Fits :
      (cam : CameraSlot) (aid : ℕ) (s : Packing)
      → can_host u s.load (some aid) cam ≡ true
      → Fits s
      → Fits (place cam aid s)
  unfolding can_host place
  place-Fits cam aid s h fits b a e =
      ground (arith, fits b a, lookup-insert aid b (load_of s.load aid + 1) s.load)

  pub empty-load : (d : Dict AgentSlot) (aid : ℕ) → load_of (map (λ e. (e.0, 0)) d) aid ≡ 0
  unfolding lookup
  empty-load [] aid = refl
  empty-load ((k, a) ∷ d) aid = ground (arith, empty-load d aid)

-- An assignment of a camera to an agent: the agent is usable at the camera's site, and no other
-- agent was asked for.
abbrev pub Respects : Dict AgentSlot → CameraSlot → ℕ → Type 0
Respects u cam aid =
    (a : AgentSlot) × (lookup aid u ≡ some a)
    × (a.site_id ≡ some cam.site_id)
    × ((cam.pinned_agent_id ≡ some aid) ⊎ (cam.pinned_agent_id ≡ none))

-- Camera ids are a primary key.
abbrev pub Identified : List CameraSlot → Type 0
Identified cams = (c d : CameraSlot) → In c cams → In d cams → c.camera_id ≡ d.camera_id → c ≡ d

module _ (u : Dict AgentSlot) (cams : List CameraSlot) (ids : Identified cams) where
  abbrev Sound : Packing → Type 0
  Sound s =
      (c : CameraSlot) (aid : ℕ)
      → In c cams
      → lookup c.camera_id s.plan.assignments ≡ some (some aid)
      → Respects u c aid

  host-Respects :
      (cam : CameraSlot) (aid : ℕ) (s : Packing) → Allowed u s cam aid → Respects u cam aid
  unfolding can_host
  host-Respects cam aid s h = elim (Option-cases (lookup aid u)) [
    | inl e ↦ ground arith
    | inr (a, e) ↦ (a, e, ground arith, h.1)
  ]

  place-Sound :
      (cam : CameraSlot) (aid : ℕ) (s : Packing)
      → In cam cams
      → Allowed u s cam aid
      → Sound s
      → Sound (place cam aid s)
  unfolding place
  place-Sound cam aid s m h sound c b n e =
      elim (lookup-insert_cases cam.camera_id c.camera_id (some aid) (some b) _ e) [
        | inl (same, to) ↦
            let agent : aid ≡ b = cc in
            subst (λ x. Respects u x b) (ids cam c m n (sym same))
              (subst (Respects u cam) agent (host-Respects cam aid s h))
        | inr (_, old) ↦ sound c b n old
      ]

  drop-Sound : (cam : CameraSlot) (s : Packing) → Sound s → Sound (drop_camera cam s)
  unfolding drop_camera
  drop-Sound cam s sound c b n e =
      elim (lookup-insert_cases cam.camera_id c.camera_id none (some b) _ e) [
        | inl (_, to) ↦ cc
        | inr (_, old) ↦ sound c b n old
      ]

  pub pack-Sound :
      (sorted_cams : List CameraSlot)
      → IsKeyed u
      → All (λ c. In c cams) sorted_cams
      → Sound (pack u sorted_cams)
  unfolding lookup
  pack-Sound sorted_cams keyed known =
      pack_rule u keyed (λ c. In c cams) Sound place-Sound (λ cam s _ _. drop-Sound cam s)
        sorted_cams known (λ c aid m e. cc)

pub pack-Fits : (u : Dict AgentSlot) (cams : List CameraSlot) → IsKeyed u → Fits u (pack u cams)
unfolding drop_camera
pack-Fits u cams keyed =
    pack_rule u keyed (λ _. Unit {0}) (Fits u) (λ cam aid s _ h. place-Fits u cam aid s h.0)
      (λ cam s _ _ fits. fits) cams (All-of_In _ _ (λ c _. tt))
      (λ aid a _. rw (empty-load u u aid) (omega arith))

-- No count of the plan is above the capacity of its agent.
pub per_agent_count-le-capacity :
    (cams : List CameraSlot) (agents : List AgentSlot) (aid : ℕ) (a : AgentSlot)
    → lookup aid (usable_agents agents) ≡ some a
    → load_of (plan_placement cams agents).per_agent_count aid ≤ a.capacity
unfolding plan_placement
per_agent_count-le-capacity cams agents =
    pack-Fits (usable_agents agents) (sorted (λ c. c.camera_id) cams) (usable_agents-IsKeyed agents)

-- A camera is assigned only to one of the given agents, which is healthy and has a capacity, stands at
-- the camera's own site, and is the one that the camera is pinned to, if it is pinned.
pub plan_placement-respects :
    (cams : List CameraSlot) (agents : List AgentSlot)
    → Identified cams
    → (cam : CameraSlot) (aid : ℕ) → In cam cams
    → lookup cam.camera_id (plan_placement cams agents).assignments ≡ some (some aid)
    → (a : AgentSlot) × In a agents
      × (a.agent_id ≡ aid)
      × (is_usable a ≡ true)
      × (a.site_id ≡ some cam.site_id)
      × ((cam.pinned_agent_id ≡ some aid) ⊎ (cam.pinned_agent_id ≡ none))
unfolding plan_placement
plan_placement-respects cams agents ids cam aid m e =
    let u = usable_agents agents in
    let (a, found, site, pin) =
      pack-Sound u cams ids (sorted (λ c. c.camera_id) cams) (usable_agents-IsKeyed agents)
        (All-of_In _ _ (λ c n. sorted-In (λ c. c.camera_id) cams n)) cam aid m e in
    let (ok, given) = usable_agents-usable agents aid a found in
    (a, given, lookup-agent_id u aid a (usable_agents-IsKeyed agents) found, ok, site, pin)
