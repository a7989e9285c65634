-- ===== src/Placement/Replay.antt =====
-- Two runs of a packing side by side: the second over the cameras as the first one left them.
use nightfury.Prelude.{
  ℕ, List, [], ◌∷◌, ◌++◌, map, ◌≡◌, ◌∙◌, refl, inl, inr, Option, none, some, Option-cases, arith,
}
use mathlib.Core.List.{append_assoc, map-append}
use nightfury.Prelude.Dict.{Dict, lookup, get_or}
use nightfury.Prelude.Sort.{Lacks, Distinct, Distinct-middle, Distinct-remove}
use nightfury.Placement.{
  AgentSlot, CameraSlot, Packing, load_of, can_host, place, drop_camera, place_pinned, pass_pinned,
}
use nightfury.Placement.Frame.{id_of, entry, entry-pass_pinned, pass_pinned-Lacks}
use nightfury.Placement.Covers.{
  entry-place_self, entry-drop_self, pass_pinned-free, pass_pinned-held,
}

-- The agent that a dict of assignments gives to a camera.
abbrev pub agent_in : Dict (Option ℕ) → CameraSlot → Option ℕ
agent_in asg c = get_or none (lookup c.camera_id asg)

-- What `reconcile_site` writes to a camera's row: `camera.agent_id = new_agent_id`.
abbrev pub assign : Dict (Option ℕ) → CameraSlot → CameraSlot
assign asg c = record c { current_agent_id = agent_in asg c }

-- The second run of a packing: equal loads, and nothing moved.
abbrev pub Replays : Packing → Packing → Type 0
Replays s s' = (s'.load ≡ s.load) × (s'.plan.moved ≡ [])

module _ (u : Dict AgentSlot) (asg : Dict (Option ℕ)) where
  pub place-Replays :
      (c : CameraSlot) (aid : ℕ) (s s' : Packing)
      → agent_in asg c ≡ some aid
      → Replays s s'
      → Replays (place c aid s) (place (assign asg c) aid s')
  unfolding place
  place-Replays c aid s s' e (l, m) = (rw l refl, ground arith)

  pub drop-Replays :
      (c : CameraSlot) (s s' : Packing)
      → agent_in asg c ≡ none
      → Replays s s'
      → Replays (drop_camera c s) (drop_camera (assign asg c) s')
  unfolding drop_camera
  drop-Replays c s s' e (l, m) = (l, ground arith)

  pub place_pinned-Replays :
      (c : CameraSlot) (aid : ℕ) (s s' : Packing)
      → c.pinned_agent_id ≡ some aid
      → lookup c.camera_id asg ≡ entry c.camera_id (place_pinned u c s)
      → Replays s s'
      → Replays (place_pinned u c s) (place_pinned u (assign asg c) s')
  unfolding place_pinned can_host
  place_pinned-Replays c aid s s' e same (l, m) =
      let pinned = place-Replays c aid s s' in
      let dropped = drop-Replays c s s' in
      ground (arith, entry-place_self c aid s, entry-drop_self c s, pinned, dropped)

  -- The results of the first pass in both runs.
  abbrev pub ReplaysRest : List CameraSlot × Packing → List CameraSlot × Packing → Type 0
  ReplaysRest r r' = (r'.0 ≡ map (assign asg) r.0) × Replays r.1 r'.1

  abbrev pub Agrees : List CameraSlot × Packing → Type 0
  Agrees r = (k : ℕ) → Lacks id_of k r.0 → lookup k asg ≡ entry k r.1

  pub pass_pinned-Replays :
      (cams rem : List CameraSlot) (s s' : Packing)
      → Distinct id_of (rem ++ cams)
      → Replays s s'
      → Agrees (pass_pinned u cams rem s)
      → ReplaysRest
          (pass_pinned u cams rem s)
          (pass_pinned u (map (assign asg) cams) (map (assign asg) rem) s')
  pass_pinned-Replays [] rem s s' d h agree = unfold pass_pinned in (refl, h)
  pass_pinned-Replays (c ∷ cams) rem s s' d h agree = elim (Option-cases c.pinned_agent_id) [
    | inl e ↦
        let step = pass_pinned-free u c cams rem s e in
        let glue : map (assign asg) (rem ++ c ∷ []) ≡ map (assign asg) rem ++ assign asg c ∷ [] =
          map-append (assign asg) rem (c ∷ []) in
        let ih =
          pass_pinned-Replays cams (rem ++ c ∷ []) s s' (rw append_assoc d) h (rw step at agree) in
        rw
          (
            step,
            pass_pinned-free u (assign asg c) (map (assign asg) cams) (map (assign asg) rem) s' e,
            ← glue,
          )
          ih
    | inr (aid, e) ↦
        let placed = place_pinned u c s in
        let step = pass_pinned-held u c aid cams rem s e in
        let agree' = (rw step at agree) in
        let apart = Distinct-middle id_of rem c cams d in
        let same =
          agree' c.camera_id (pass_pinned-Lacks u c.camera_id cams rem placed apart.1 apart.0)
          ∙ entry-pass_pinned u c.camera_id cams rem placed apart.1 in
        let ih =
          pass_pinned-Replays cams rem placed (place_pinned u (assign asg c) s')
            (Distinct-remove id_of rem c cams d) (place_pinned-Replays c aid s s' e same h)
            agree' in
        rw
          (
            step,
            pass_pinned-held u (assign asg c) aid (map (assign asg) cams) (map (assign asg) rem) s'
                e,
          )
          ih
  ]

-- Loads that are equal at every agent.
abbrev pub Loads : (ℕ → ℕ) → Dict ℕ → Type 0
Loads final load = (aid : ℕ) → load_of load aid ≡ final aid
