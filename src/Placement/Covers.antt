-- ===== src/Placement/Covers.antt =====
-- The passes leave no camera out.
use nightfury.Prelude.{
  ℕ, List, [], ◌∷◌, ◌++◌, ◌≡◌, ◌≢◌, ◌∙◌, sym, ◌⊎◌, inl, inr, Option, none, some, In, here, there,
  In-append_left, In-append_right, Bool-cases, Option-cases, List-cases, arith, true,
}
use mathlib.Core.List.{append_assoc}
use mathlib.Core.Path.{subst}
use nightfury.Prelude.Dict.{Dict, lookup, lookup-insert}
use nightfury.Prelude.Sort.{
  Lacks, Distinct, Distinct-middle, Distinct-remove, sorted, In-sorted, sorted-Distinct,
}
use nightfury.Placement.{
  AgentSlot, CameraSlot, Packing, can_host, place, drop_camera, place_on, place_pinned, pass_pinned,
  pass_sticky, candidates, place_new, pass_new, pack, empty_packing, usable_agents, plan_placement,
}
use nightfury.Placement.Frame.{
  id_of, entry, entry-pass_pinned, entry-pass_sticky, entry-pass_new, pass_pinned-Lacks,
  pass_sticky-Lacks, pass_pinned-Distinct, pass_sticky-Distinct,
}

pub entry-place_self :
    (c : CameraSlot) (aid : ℕ) (s : Packing) → entry c.camera_id (place c aid s) ≡ some (some aid)
unfolding place
entry-place_self c aid s =
    ground (arith, lookup-insert c.camera_id c.camera_id (some aid) s.plan.assignments)

pub entry-drop_self :
    (c : CameraSlot) (s : Packing) → entry c.camera_id (drop_camera c s) ≡ some none
unfolding drop_camera
entry-drop_self c s = ground (arith, lookup-insert c.camera_id c.camera_id none s.plan.assignments)

module _ (u : Dict AgentSlot) where
  entry-place_on_self :
      (c : CameraSlot) (o : Option ℕ) (s : Packing)
      → can_host u s.load o c ≡ true
      → entry c.camera_id (place_on c o s) ≢ none
  unfolding can_host
  entry-place_on_self c none s h = cc
  entry-place_on_self c (some aid) s h = λ e. cc (entry-place_self c aid s)

  entry-place_pinned_self :
      (c : CameraSlot) (s : Packing) → entry c.camera_id (place_pinned u c s) ≢ none
  unfolding place_pinned
  entry-place_pinned_self c s = elim (Bool-cases (can_host u s.load c.pinned_agent_id c)) [
    | inl e ↦ rw e (entry-place_on_self c c.pinned_agent_id s e)
    | inr e ↦ rw e (λ p. cc (entry-drop_self c s))
  ]

  entry-place_new_self : (c : CameraSlot) (s : Packing) → entry c.camera_id (place_new u c s) ≢ none
  unfolding place_new
  entry-place_new_self c s = elim (List-cases (candidates u s c)) [
    | inl e ↦ rw (e, place_new) (λ p. cc (entry-drop_self c s))
    | inr (a, more, e) ↦ rw (e, place_new) (λ p. cc (entry-place_self c _ s))
  ]

  pass_new-covers :
      (c : CameraSlot) (cams : List CameraSlot) (s : Packing)
      → Distinct id_of cams
      → In c cams
      → entry c.camera_id (pass_new u cams s) ≢ none
  unfolding pass_new
  pass_new-covers c (x ∷ cams) s d here =
      rw (entry-pass_new u c.camera_id cams (place_new u c s) d.0) (entry-place_new_self c s)
  pass_new-covers c (x ∷ cams) s d (there m) = pass_new-covers c cams (place_new u x s) d.1 m
  pass_new-covers c [] s d m = elim m [ ]

  -- A camera that a pass has dealt with is not handed on.
  abbrev Dealt : CameraSlot → List CameraSlot × Packing → Type 0
  Dealt c r = In c r.0 ⊎ (entry c.camera_id r.1 ≢ none) × Lacks id_of c.camera_id r.0

  pass_sticky-keeps :
      (c : CameraSlot) (cams hom : List CameraSlot) (s : Packing)
      → In c hom
      → In c (pass_sticky u cams hom s).0
  unfolding pass_sticky
  pass_sticky-keeps c [] hom s m = m
  pass_sticky-keeps c (x ∷ cams) hom s m =
      elim (Bool-cases (can_host u s.load x.current_agent_id x)) [
        | inl e ↦
            rw (e, pass_sticky) (pass_sticky-keeps c cams hom (place_on x x.current_agent_id s) m)
        | inr e ↦
            rw (e, pass_sticky) (pass_sticky-keeps c cams (hom ++ x ∷ []) s (In-append_left _ m))
      ]

  pass_sticky-Dealt :
      (c : CameraSlot) (cams hom : List CameraSlot) (s : Packing)
      → Distinct id_of (hom ++ cams)
      → In c cams
      → Dealt c (pass_sticky u cams hom s)
  unfolding pass_sticky
  pass_sticky-Dealt c (x ∷ cams) hom s d here =
      elim (Bool-cases (can_host u s.load c.current_agent_id c)) [
        | inl e ↦
            let t = place_on c c.current_agent_id s in
            let apart = Distinct-middle id_of hom c cams d in
            rw (e, pass_sticky)
              (inr (
                rw (entry-pass_sticky u c.camera_id cams hom t apart.1)
                    (entry-place_on_self c c.current_agent_id s e),
                pass_sticky-Lacks u c.camera_id cams hom t apart.1 apart.0,
              ))
        | inr e ↦
            rw (e, pass_sticky)
              (inl (pass_sticky-keeps c cams (hom ++ c ∷ []) s (In-append_right hom here)))
      ]
  pass_sticky-Dealt c (x ∷ cams) hom s d (there m) =
      elim (Bool-cases (can_host u s.load x.current_agent_id x)) [
        | inl e ↦
            rw (e, pass_sticky)
              (pass_sticky-Dealt c cams hom (place_on x x.current_agent_id s)
                (Distinct-remove id_of hom x cams d) m)
        | inr e ↦
            rw (e, pass_sticky) (pass_sticky-Dealt c cams (hom ++ x ∷ []) s (rw append_assoc d) m)
      ]
  pass_sticky-Dealt c [] hom s d m = elim m [ ]

  pub pass_sticky-stays :
      (c : CameraSlot) (aid : ℕ) (cams hom : List CameraSlot) (s : Packing)
      → c.current_agent_id ≡ some aid
      → can_host u s.load (some aid) c ≡ true
      → pass_sticky u (c ∷ cams) hom s ≡ pass_sticky u cams hom (place c aid s)
  unfolding pass_sticky
  pass_sticky-stays c aid cams hom s e h = simp (e, h, pass_sticky)

  pub pass_sticky-leaves :
      (c : CameraSlot) (cams hom : List CameraSlot) (s : Packing)
      → c.current_agent_id ≡ none
      → pass_sticky u (c ∷ cams) hom s ≡ pass_sticky u cams (hom ++ c ∷ []) s
  unfolding pass_sticky can_host
  pass_sticky-leaves c cams hom s e = simp (e, can_host, pass_sticky)

  pub pass_pinned-free :
      (c : CameraSlot) (cams rem : List CameraSlot) (s : Packing)
      → c.pinned_agent_id ≡ none
      → pass_pinned u (c ∷ cams) rem s ≡ pass_pinned u cams (rem ++ c ∷ []) s
  unfolding pass_pinned
  pass_pinned-free c cams rem s e = simp (e, pass_pinned)

  pub pass_pinned-held :
      (c : CameraSlot) (aid : ℕ) (cams rem : List CameraSlot) (s : Packing)
      → c.pinned_agent_id ≡ some aid
      → pass_pinned u (c ∷ cams) rem s ≡ pass_pinned u cams rem (place_pinned u c s)
  unfolding pass_pinned
  pass_pinned-held c aid cams rem s e = simp (e, pass_pinned)

  pass_pinned-keeps :
      (c : CameraSlot) (cams rem : List CameraSlot) (s : Packing)
      → In c rem
      → In c (pass_pinned u cams rem s).0
  unfolding pass_pinned
  pass_pinned-keeps c [] rem s m = m
  pass_pinned-keeps c (x ∷ cams) rem s m = elim (Option-cases x.pinned_agent_id) [
    | inl e ↦ rw (e, pass_pinned) (pass_pinned-keeps c cams (rem ++ x ∷ []) s (In-append_left _ m))
    | inr (_, e) ↦ rw (e, pass_pinned) (pass_pinned-keeps c cams rem (place_pinned u x s) m)
  ]

  pass_pinned-Dealt :
      (c : CameraSlot) (cams rem : List CameraSlot) (s : Packing)
      → Distinct id_of (rem ++ cams)
      → In c cams
      → Dealt c (pass_pinned u cams rem s)
  unfolding pass_pinned
  pass_pinned-Dealt c (x ∷ cams) rem s d here = elim (Option-cases c.pinned_agent_id) [
    | inl e ↦
        subst (Dealt c) (sym (pass_pinned-free c cams rem s e))
          (inl (pass_pinned-keeps c cams (rem ++ c ∷ []) s (In-append_right rem here)))
    | inr (_, e) ↦
        let t = place_pinned u c s in
        let apart = Distinct-middle id_of rem c cams d in
        rw (e, pass_pinned)
          (inr (
            rw (entry-pass_pinned u c.camera_id cams rem t apart.1) (entry-place_pinned_self c s),
            pass_pinned-Lacks u c.camera_id cams rem t apart.1 apart.0,
          ))
  ]
  pass_pinned-Dealt c (x ∷ cams) rem s d (there m) = elim (Option-cases x.pinned_agent_id) [
    | inl e ↦ rw (e, pass_pinned) (pass_pinned-Dealt c cams (rem ++ x ∷ []) s (rw append_assoc d) m)
    | inr (_, e) ↦
        rw (e, pass_pinned)
          (pass_pinned-Dealt c cams rem (place_pinned u x s) (Distinct-remove id_of rem x cams d) m)
  ]
  pass_pinned-Dealt c [] rem s d m = elim m [ ]

  pub pack-covers :
      (c : CameraSlot) (cams : List CameraSlot)
      → Distinct id_of cams
      → In c cams
      → entry c.camera_id (pack u cams) ≢ none
  unfolding pack
  pack-covers c cams d m =
      let r = (pass_pinned u cams [] (empty_packing u)).0 in
      let s = (pass_pinned u cams [] (empty_packing u)).1 in
      let h = (pass_sticky u r [] s).0 in
      let t = (pass_sticky u r [] s).1 in
      let dr = pass_pinned-Distinct u cams [] (empty_packing u) d in
      elim (pass_pinned-Dealt c cams [] (empty_packing u) d m) [
        | inr (set, apart) ↦
            rw
              (entry-pass_new u c.camera_id h t (pass_sticky-Lacks u c.camera_id r [] s apart tt)
                ∙ entry-pass_sticky u c.camera_id r [] s apart)
              set
        | inl n ↦ elim (pass_sticky-Dealt c r [] s dr n) [
          | inr (set, apart) ↦ rw (entry-pass_new u c.camera_id h t apart) set
          | inl n' ↦ pass_new-covers c h t (pass_sticky-Distinct u r [] s dr) n'
        ]
      ]

-- With distinct camera ids, the plan has an assignment, maybe to no agent, for every camera.
pub plan_placement-covers :
    (cams : List CameraSlot) (agents : List AgentSlot) (c : CameraSlot)
    → Distinct id_of cams
    → In c cams
    → lookup c.camera_id (plan_placement cams agents).assignments ≢ none
unfolding plan_placement
plan_placement-covers cams agents c d m =
    pack-covers (usable_agents agents) c (sorted id_of cams) (sorted-Distinct id_of cams d)
      (In-sorted id_of cams m)
