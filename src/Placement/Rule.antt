-- ===== src/Placement/Rule.antt =====
-- A proof rule for the three passes: a property of the packing that every allowed placement and
-- every drop keeps holds at the end.
use nightfury.Prelude.{
  ℕ, List, [], ◌∷◌, ◌++◌, none, some, true, false, ◌≡◌, ◌⊎◌, inl, inr, All, All-append, Bool-cases,
  Option-cases, Option, List-cases,
}
use nightfury.Prelude.Dict.{Dict}
use nightfury.Placement.{
  AgentSlot, CameraSlot, Packing, can_host, place, drop_camera, place_pinned, pass_pinned,
  pass_sticky, candidates, place_new, place_on, pass_new, pack, empty_packing,
}
use nightfury.Placement.Usable.{IsKeyed, candidates-can_host}

-- What the passes know of a camera when they place it: it has the pin, or no pin at all.
abbrev pub Allowed : Dict AgentSlot → Packing → CameraSlot → ℕ → Type 0
Allowed u s cam aid =
    (can_host u s.load (some aid) cam ≡ true)
    × ((cam.pinned_agent_id ≡ some aid) ⊎ (cam.pinned_agent_id ≡ none))

-- What the passes know of a camera when they drop it.
abbrev pub Refused : Dict AgentSlot → Packing → CameraSlot → Type 0
Refused u s cam =
    ((aid : ℕ) × (cam.pinned_agent_id ≡ some aid) × (can_host u s.load (some aid) cam ≡ false))
    ⊎ (cam.pinned_agent_id ≡ none) × (candidates u s cam ≡ [])

module _ (u : Dict AgentSlot) (keyed : IsKeyed u) (C : CameraSlot → Type 0) (P : Packing → Type 0)
    (on_place : (cam : CameraSlot) (aid : ℕ) (s : Packing)
      → C cam
      → Allowed u s cam aid
      → P s
      → P (place cam aid s))
    (on_drop : (cam : CameraSlot) (s : Packing)
      → C cam
      → Refused u s cam
      → P s
      → P (drop_camera cam s)) where
  abbrev Free : CameraSlot → Type 0
  Free cam = C cam × (cam.pinned_agent_id ≡ none)

  place_pinned_rule :
      (cam : CameraSlot) (aid : ℕ) (s : Packing)
      → cam.pinned_agent_id ≡ some aid
      → C cam
      → P s
      → P (place_pinned u cam s)
  unfolding place_pinned
  place_pinned_rule cam aid s e c p = elim (Bool-cases (can_host u s.load (some aid) cam)) [
    | inl h ↦ rw (e, h) (on_place cam aid s c (h, inl e) p)
    | inr h ↦ rw (e, h) (on_drop cam s c (inl (aid, e, h)) p)
  ]

  pub pass_pinned_rule :
      (cams remaining : List CameraSlot) (s : Packing)
      → All C cams
      → All Free remaining
      → P s
      → All Free (pass_pinned u cams remaining s).0 × P (pass_pinned u cams remaining s).1
  unfolding pass_pinned
  pass_pinned_rule [] remaining s cs fs p = (fs, p)
  pass_pinned_rule (cam ∷ cams) remaining s cs fs p = elim (Option-cases cam.pinned_agent_id) [
    | inl e ↦
        rw (e, pass_pinned)
          (pass_pinned_rule cams (remaining ++ cam ∷ []) s cs.1
            (All-append Free remaining (cam ∷ []) fs ((cs.0, e), tt)) p)
    | inr (aid, e) ↦
        rw (e, pass_pinned)
          (pass_pinned_rule cams remaining (place_pinned u cam s) cs.1 fs
            (place_pinned_rule cam aid s e cs.0 p))
  ]

  place_on_rule :
      (cam : CameraSlot) (o : Option ℕ) (s : Packing)
      → can_host u s.load o cam ≡ true
      → Free cam
      → P s
      → P (place_on cam o s)
  unfolding can_host
  place_on_rule cam none s h f p = p
  place_on_rule cam (some aid) s h f p = on_place cam aid s f.0 (h, inr f.1) p

  pub pass_sticky_rule :
      (cams homeless : List CameraSlot) (s : Packing)
      → All Free cams
      → All Free homeless
      → P s
      → All Free (pass_sticky u cams homeless s).0 × P (pass_sticky u cams homeless s).1
  unfolding pass_sticky
  pass_sticky_rule [] homeless s cs fs p = (fs, p)
  pass_sticky_rule (cam ∷ cams) homeless s cs fs p =
      elim (Bool-cases (can_host u s.load cam.current_agent_id cam)) [
        | inl e ↦
            rw (e, pass_sticky)
              (pass_sticky_rule cams homeless (place_on cam cam.current_agent_id s) cs.1 fs
                (place_on_rule cam cam.current_agent_id s e cs.0 p))
        | inr e ↦
            rw (e, pass_sticky)
              (pass_sticky_rule cams (homeless ++ cam ∷ []) s cs.1
                (All-append Free homeless (cam ∷ []) fs (cs.0, tt)) p)
      ]

  place_new_rule : (cam : CameraSlot) (s : Packing) → Free cam → P s → P (place_new u cam s)
  unfolding place_new
  place_new_rule cam s f p = elim (List-cases (candidates u s cam)) [
    | inl e ↦ rw (e, place_new) (on_drop cam s f.0 (inr (f.1, e)) p)
    | inr (a, more, e) ↦
        rw (e, place_new) (on_place cam _ s f.0 (candidates-can_host u s cam keyed e, inr f.1) p)
  ]

  pub pass_new_rule :
      (cams : List CameraSlot) (s : Packing) → All Free cams → P s → P (pass_new u cams s)
  unfolding pass_new
  pass_new_rule [] s cs p = p
  pass_new_rule (cam ∷ cams) s cs p =
      pass_new_rule cams (place_new u cam s) cs.1 (place_new_rule cam s cs.0 p)

  pub pack_rule : (cams : List CameraSlot) → All C cams → P (empty_packing u) → P (pack u cams)
  unfolding pack
  pack_rule cams cs p =
      let pinned = pass_pinned_rule cams [] (empty_packing u) cs tt p in
      let settled = pass_sticky_rule _ [] _ pinned.0 tt pinned.1 in
      pass_new_rule _ _ settled.0 settled.1
