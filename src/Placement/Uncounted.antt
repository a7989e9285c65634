-- ===== src/Placement/Uncounted.antt =====
-- An agent that is not usable has no entry in the counts of the plan.
use nightfury.Prelude.{
  ℕ, ◌+◌, List, [], ◌∷◌, map, ◌≡◌, refl, inl, inr, none, some, true, false, In, All-of_In,
  Option-cases, arith,
}
use nightfury.Prelude.Dict.{Dict, lookup, lookup-insert}
use nightfury.Prelude.Sort.{sorted}
use nightfury.Placement.{
  AgentSlot, CameraSlot, Packing, is_usable, load_of, can_host, place, drop_camera, usable_agents,
  plan_placement,
}
use nightfury.Placement.Rule.{pack_rule}
use nightfury.Placement.Usable.{usable_agents-IsKeyed, usable_agents-usable, lookup-agent_id}

module _ (u : Dict AgentSlot) (aid : ℕ) (out : lookup aid u ≡ none) where
  place-uncounted :
      (cam : CameraSlot) (b : ℕ) (s : Packing)
      → can_host u s.load (some b) cam ≡ true
      → lookup aid s.load ≡ none
      → lookup aid (place cam b s).load ≡ none
  unfolding place can_host
  place-uncounted cam b s h old = ground (arith, lookup-insert b aid (load_of s.load b + 1) s.load)

  empty-uncounted :
      (d : Dict AgentSlot) → lookup aid d ≡ none → lookup {V = ℕ} aid (map (λ e. (e.0, 0)) d) ≡ none
  unfolding lookup
  empty-uncounted [] h = refl
  empty-uncounted ((k, a) ∷ d) h = ground (arith, empty-uncounted d)

pub plan_placement-uncounted :
    (cams : List CameraSlot) (agents : List AgentSlot) (aid : ℕ)
    → ((a : AgentSlot) → In a agents → a.agent_id ≡ aid → is_usable a ≡ false)
    → lookup aid (plan_placement cams agents).per_agent_count ≡ none
unfolding plan_placement drop_camera
plan_placement-uncounted cams agents aid h =
    let u = usable_agents agents in
    let keyed = usable_agents-IsKeyed agents in
    elim (Option-cases (lookup aid u)) [
      | inr (a, e) ↦
          let (ok, m) = usable_agents-usable agents aid a e in
          let no = h a m (lookup-agent_id u aid a keyed e) in ground arith
      | inl out ↦
          pack_rule u keyed (λ _. Unit {0}) (λ s. lookup aid s.load ≡ none)
            (λ cam b s _ ok old. place-uncounted u aid out cam b s ok.0 old) (λ cam s _ _ old. old)
            (sorted (λ c. c.camera_id) cams) (All-of_In _ _ (λ c _. tt))
            (empty-uncounted u aid out u out)
    ]
