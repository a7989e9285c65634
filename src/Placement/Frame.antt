-- ===== src/Placement/Frame.antt =====
-- Each pass writes the assignments of its own cameras only, and hands on only its own cameras.
use nightfury.Prelude.{
  ℕ, List, [], ◌∷◌, ◌++◌, ◌≡◌, ◌≢◌, refl, ◌∙◌, inl, inr, Option, none, some, Bool-cases,
  Option-cases, List-cases, All-append, arith,
}
use mathlib.Core.List.{append_assoc, append-nil}
use nightfury.Prelude.Dict.{Dict, lookup, lookup-insert}
use nightfury.Prelude.Sort.{Lacks, Distinct, Distinct-remove}
use nightfury.Placement.{
  AgentSlot, CameraSlot, Packing, can_host, place, drop_camera, place_on, place_pinned, pass_pinned,
  pass_sticky, candidates, place_new, pass_new,
}

abbrev pub id_of : CameraSlot → ℕ
id_of c = c.camera_id

-- The entry of a camera, if it has one.
abbrev pub entry : ℕ → Packing → Option (Option ℕ)
entry k s = lookup k s.plan.assignments

module _ (k : ℕ) (cam : CameraSlot) (other : cam.camera_id ≢ k) (s : Packing) where
  pub entry-place : (aid : ℕ) → entry k (place cam aid s) ≡ entry k s
  unfolding place
  entry-place aid = ground (arith, lookup-insert cam.camera_id k (some aid) s.plan.assignments)

  pub entry-drop : entry k (drop_camera cam s) ≡ entry k s
  unfolding drop_camera
  entry-drop = ground (arith, lookup-insert cam.camera_id k none s.plan.assignments)

  pub entry-place_on : (o : Option ℕ) → entry k (place_on cam o s) ≡ entry k s
  entry-place_on none = refl
  entry-place_on (some aid) = entry-place aid

module _ (u : Dict AgentSlot) (k : ℕ) where
  entry-place_pinned :
      (cam : CameraSlot) (s : Packing)
      → cam.camera_id ≢ k
      → entry k (place_pinned u cam s) ≡ entry k s
  unfolding place_pinned
  entry-place_pinned cam s h = elim (Bool-cases (can_host u s.load cam.pinned_agent_id cam)) [
    | inl e ↦ rw e (entry-place_on k cam h s cam.pinned_agent_id)
    | inr e ↦ rw e (entry-drop k cam h s)
  ]

  entry-place_new :
      (cam : CameraSlot) (s : Packing) → cam.camera_id ≢ k → entry k (place_new u cam s) ≡ entry k s
  unfolding place_new
  entry-place_new cam s h = elim (List-cases (candidates u s cam)) [
    | inl e ↦ rw (e, place_new) (entry-drop k cam h s)
    | inr (a, more, e) ↦ rw (e, place_new) (entry-place k cam h s _)
  ]

  pub entry-pass_pinned :
      (cams rem : List CameraSlot) (s : Packing)
      → Lacks id_of k cams
      → entry k (pass_pinned u cams rem s).1 ≡ entry k s
  unfolding pass_pinned
  entry-pass_pinned [] rem s h = refl
  entry-pass_pinned (c ∷ cams) rem s h = elim (Option-cases c.pinned_agent_id) [
    | inl e ↦ rw (e, pass_pinned) (entry-pass_pinned cams (rem ++ c ∷ []) s h.1)
    | inr (_, e) ↦
        rw (e, pass_pinned)
          (entry-pass_pinned cams rem (place_pinned u c s) h.1 ∙ entry-place_pinned c s h.0)
  ]

  pub entry-pass_sticky :
      (cams hom : List CameraSlot) (s : Packing)
      → Lacks id_of k cams
      → entry k (pass_sticky u cams hom s).1 ≡ entry k s
  unfolding pass_sticky
  entry-pass_sticky [] hom s h = refl
  entry-pass_sticky (c ∷ cams) hom s h =
      elim (Bool-cases (can_host u s.load c.current_agent_id c)) [
        | inl e ↦
            rw (e, pass_sticky)
              (entry-pass_sticky cams hom (place_on c c.current_agent_id s) h.1
                ∙ entry-place_on k c h.0 s c.current_agent_id)
        | inr e ↦ rw (e, pass_sticky) (entry-pass_sticky cams (hom ++ c ∷ []) s h.1)
      ]

  pub entry-pass_new :
      (cams : List CameraSlot) (s : Packing)
      → Lacks id_of k cams
      → entry k (pass_new u cams s) ≡ entry k s
  unfolding pass_new
  entry-pass_new [] s h = refl
  entry-pass_new (c ∷ cams) s h =
      entry-pass_new cams (place_new u c s) h.1 ∙ entry-place_new c s h.0

  pub pass_pinned-Lacks :
      (cams rem : List CameraSlot) (s : Packing)
      → Lacks id_of k cams
      → Lacks id_of k rem
      → Lacks id_of k (pass_pinned u cams rem s).0
  unfolding pass_pinned
  pass_pinned-Lacks [] rem s h g = g
  pass_pinned-Lacks (c ∷ cams) rem s h g = elim (Option-cases c.pinned_agent_id) [
    | inl e ↦
        rw (e, pass_pinned)
          (pass_pinned-Lacks cams (rem ++ c ∷ []) s h.1 (All-append _ rem (c ∷ []) g (h.0, tt)))
    | inr (_, e) ↦ rw (e, pass_pinned) (pass_pinned-Lacks cams rem (place_pinned u c s) h.1 g)
  ]

  pub pass_sticky-Lacks :
      (cams hom : List CameraSlot) (s : Packing)
      → Lacks id_of k cams
      → Lacks id_of k hom
      → Lacks id_of k (pass_sticky u cams hom s).0
  unfolding pass_sticky
  pass_sticky-Lacks [] hom s h g = g
  pass_sticky-Lacks (c ∷ cams) hom s h g =
      elim (Bool-cases (can_host u s.load c.current_agent_id c)) [
        | inl e ↦
            rw (e, pass_sticky) (pass_sticky-Lacks cams hom (place_on c c.current_agent_id s) h.1 g)
        | inr e ↦
            rw (e, pass_sticky)
              (pass_sticky-Lacks cams (hom ++ c ∷ []) s h.1 (All-append _ hom (c ∷ []) g (h.0, tt)))
      ]

module _ (u : Dict AgentSlot) where
  pub pass_pinned-Distinct :
      (cams rem : List CameraSlot) (s : Packing)
      → Distinct id_of (rem ++ cams)
      → Distinct id_of (pass_pinned u cams rem s).0
  unfolding pass_pinned
  pass_pinned-Distinct [] rem s h = rw append-nil at h
  pass_pinned-Distinct (c ∷ cams) rem s h = elim (Option-cases c.pinned_agent_id) [
    | inl e ↦ rw (e, pass_pinned) (pass_pinned-Distinct cams (rem ++ c ∷ []) s (rw append_assoc h))
    | inr (_, e) ↦
        rw (e, pass_pinned)
          (pass_pinned-Distinct cams rem (place_pinned u c s) (Distinct-remove id_of rem c cams h))
  ]

  pub pass_sticky-Distinct :
      (cams hom : List CameraSlot) (s : Packing)
      → Distinct id_of (hom ++ cams)
      → Distinct id_of (pass_sticky u cams hom s).0
  unfolding pass_sticky
  pass_sticky-Distinct [] hom s h = rw append-nil at h
  pass_sticky-Distinct (c ∷ cams) hom s h =
      elim (Bool-cases (can_host u s.load c.current_agent_id c)) [
        | inl e ↦
            rw (e, pass_sticky)
              (pass_sticky-Distinct cams hom (place_on c c.current_agent_id s)
                (Distinct-remove id_of hom c cams h))
        | inr e ↦
            rw (e, pass_sticky) (pass_sticky-Distinct cams (hom ++ c ∷ []) s (rw append_assoc h))
      ]
