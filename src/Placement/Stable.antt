-- ===== src/Placement/Stable.antt =====
-- Planning again after a plan was applied moves no camera.
use nightfury.Prelude.{
  ℕ, ◌+◌, ◌≤◌, List, [], ◌∷◌, ◌++◌, map, ◌≡◌, ◌≢◌, ◌∙◌, refl, sym, inl, inr, Option, none, some, In,
  All, All-append, All-of_In, All-map, true, false, Option-cases, arith, keep-eq-nil, ltb, ◌<◌,
  option_eq, option_eq_refl,
}
use nightfury.Prelude.Dict.{Dict, lookup}
use nightfury.Prelude.Sort.{Distinct, Distinct-eq, sorted, sorted-Distinct, sorted-map}
use nightfury.Placement.{
  AgentSlot, CameraSlot, Packing, changed, has_room, load_of, can_host, place, drop_camera,
  pass_pinned, pass_sticky, candidates, place_new, pass_new, pack, empty_packing, usable_agents,
  plan_placement,
}
use nightfury.Placement.Frame.{
  id_of, entry-pass_sticky, entry-pass_new, pass_sticky-Lacks, pass_pinned-Distinct,
}
use nightfury.Placement.Counts.{tally, load-place, load-pack_from}
use nightfury.Placement.Usable.{IsKeyed, usable_agents-IsKeyed}
use nightfury.Placement.Rule.{pass_pinned_rule}
use nightfury.Placement.Limits.{Identified, pack-Sound, pack-Fits}
use nightfury.Placement.Unassigned.{Hopeless, pack-Explained}
use nightfury.Placement.Covers.{
  pack-covers, entry-place_self, pass_sticky-stays, pass_sticky-leaves,
}
use nightfury.Placement.Replay.{agent_in, assign, pass_pinned-Replays, Loads}

module _ (u : Dict AgentSlot) (asg : Dict (Option ℕ)) (final : ℕ → ℕ) where
  -- An unpinned camera, as the first run left it.
  abbrev IsSettled : CameraSlot → Type 0
  IsSettled c =
      ((aid : ℕ)
        → agent_in asg c ≡ some aid
        → (a : AgentSlot) × (lookup aid u ≡ some a)
          × (a.site_id ≡ some c.site_id)
          × (final aid ≤ a.capacity))
      × (agent_in asg c ≡ none
          → (a : AgentSlot) → In a (map (λ e. e.1) u)
          → ltb (final a.agent_id) a.capacity ≡ true
          → option_eq a.site_id (some c.site_id) ≡ false)

  -- A camera that the second run finds homeless.
  abbrev IsIdle : CameraSlot → Type 0
  IsIdle c =
      (c.current_agent_id ≡ none)
      × ((a : AgentSlot)
          → In a (map (λ e. e.1) u)
          → ltb (final a.agent_id) a.capacity ≡ true
          → option_eq a.site_id (some c.site_id) ≡ false)

  place_new-idle :
      (c : CameraSlot) (s : Packing)
      → IsIdle c
      → Loads final s.load
      → s.plan.moved ≡ []
      → Loads final (place_new u c s).load × ((place_new u c s).plan.moved ≡ [])
  unfolding place_new candidates drop_camera
  place_new-idle c s (home, full) loads quiet =
      rw
        (
          keep-eq-nil (has_room s.load c) (map (λ e. e.1) u)
              (λ a m. ground (arith, full a m, loads a.agent_id)),
          place_new,
          candidates,
        )
        (loads, ground arith)

  pass_new-idle :
      (cams : List CameraSlot) (s : Packing)
      → All IsIdle cams
      → Loads final s.load
      → s.plan.moved ≡ []
      → (pass_new u cams s).plan.moved ≡ []
  unfolding pass_new
  pass_new-idle [] s idle loads quiet = quiet
  pass_new-idle (c ∷ cams) s idle loads quiet =
      let (loads', quiet') = place_new-idle c s idle.0 loads quiet in
      pass_new-idle cams (place_new u c s) idle.1 loads' quiet'

  hosts :
      (c : CameraSlot) (s : Packing) (aid : ℕ) (a : AgentSlot)
      → lookup aid u ≡ some a
      → a.site_id ≡ some c.site_id
      → load_of s.load aid < a.capacity
      → can_host u s.load (some aid) (assign asg c) ≡ true
  unfolding can_host
  hosts c s aid a e site room = ground (arith, option_eq_refl (some c.site_id))

  place-settled :
      (c : CameraSlot) (s : Packing) (aid : ℕ)
      → agent_in asg c ≡ some aid
      → s.plan.moved ≡ []
      → (place (assign asg c) aid s).plan.moved ≡ []
  unfolding place
  place-settled c s aid e quiet = ground arith

  pass_sticky-settled :
      (cams hom : List CameraSlot) (s : Packing)
      → All IsSettled cams
      → All IsIdle hom
      → ((aid : ℕ) → load_of s.load aid + tally asg aid cams ≡ final aid)
      → s.plan.moved ≡ []
      → let (h, t) = pass_sticky u (map (assign asg) cams) hom s in
        All IsIdle h × Loads final t.load × (t.plan.moved ≡ [])
  pass_sticky-settled [] hom s set idle loads quiet =
      unfold pass_sticky in (idle, (λ aid. omega (arith, loads aid)), quiet)
  pass_sticky-settled (c ∷ cams) hom s set idle loads quiet =
      let c' = assign asg c in
      let cams' = map (assign asg) cams in
      elim (Option-cases (agent_in asg c)) [
        | inl e ↦ rw (pass_sticky-leaves u c' cams' hom s e) (
            pass_sticky-settled cams (hom ++ c' ∷ []) s set.1
              (All-append IsIdle hom (c' ∷ []) idle ((e, set.0.1 e), tt))
              (λ aid. ground (arith, loads aid)) quiet)
        | inr (aid, e) ↦
            let (a, found, site, cap) = set.0.0 aid e in
            let room : load_of s.load aid < a.capacity = ground (arith, loads aid) in
            rw (pass_sticky-stays u c' aid cams' hom s e (hosts c s aid a found site room)) (
              pass_sticky-settled cams hom (place c' aid s) set.1 idle
                (λ b. ground (arith, loads b, load-place c' aid s b, entry-place_self c' aid s))
                (place-settled c s aid e quiet))
      ]

  -- The second and third pass of the second run.
  resume :
      (cams cams' : List CameraSlot) (s : Packing)
      → cams' ≡ map (assign asg) cams
      → All IsSettled cams
      → ((aid : ℕ) → load_of s.load aid + tally asg aid cams ≡ final aid)
      → s.plan.moved ≡ []
      → let (h, t) = pass_sticky u cams' [] s in (pass_new u h t).plan.moved ≡ []
  resume cams cams' s e set loads quiet =
      let (idle, loads', quiet') = pass_sticky-settled cams [] s set tt loads quiet in
      rw e (pass_new-idle _ _ idle loads' quiet')

agent_in-some :
    (asg : Dict (Option ℕ)) (c : CameraSlot) (aid : ℕ)
    → agent_in asg c ≡ some aid
    → lookup c.camera_id asg ≡ some (some aid)
agent_in-some asg c aid e = ground arith

agent_in-none :
    (asg : Dict (Option ℕ)) (c : CameraSlot)
    → agent_in asg c ≡ none
    → lookup c.camera_id asg ≢ none
    → lookup c.camera_id asg ≡ some none
agent_in-none asg c e h = ground arith

module _ (u : Dict AgentSlot) (keyed : IsKeyed u) (cams : List CameraSlot)
    (distinct : Distinct id_of cams) where
  abbrev packed : Packing
  packed = pack u cams

  abbrev final : ℕ → ℕ
  final = load_of packed.load

  abbrev asg : Dict (Option ℕ)
  asg = packed.plan.assignments

  ids : Identified cams
  ids c d m n e = Distinct-eq id_of cams c d distinct m n e

  All-known : All (λ c. In c cams) cams
  All-known = All-of_In _ cams (λ c m. m)

  Hopeless-settled :
      (c : CameraSlot)
      → c.pinned_agent_id ≡ none
      → Hopeless u packed.load c
      → (a : AgentSlot) → In a (map (λ e. e.1) u)
      → ltb (final a.agent_id) a.capacity ≡ true
      → option_eq a.site_id (some c.site_id) ≡ false
  Hopeless-settled c free (inl (aid, pin, _)) a m room = cc
  Hopeless-settled c free (inr (_, full)) a m room = ground (arith, full a m)

  settled : (c : CameraSlot) → In c cams × (c.pinned_agent_id ≡ none) → IsSettled u asg final c
  settled c (m, free) = (
    (λ aid e.
        let (a, found, site, _) =
          pack-Sound u cams ids cams keyed All-known c aid m (agent_in-some asg c aid e) in
        (a, found, site, pack-Fits u cams keyed aid a found)),
    (λ e. Hopeless-settled c free (
        pack-Explained u cams ids cams keyed All-known c m
          (agent_in-none asg c e (pack-covers u c cams distinct m)))),
  )

  pub pack-stable : (pack u (map (assign asg) cams)).plan.moved ≡ []
  unfolding pack
  pack-stable =
      let start = empty_packing u in
      let first = pass_pinned u cams [] start in
      let second = pass_sticky u first.0 [] first.1 in
      let again = pass_pinned u (map (assign asg) cams) [] start in
      let free =
        (pass_pinned_rule u keyed (λ c. In c cams) (λ _. Unit {0}) (λ _ _ _ _ _ _. tt)
          (λ _ _ _ _ _. tt) cams [] start All-known tt tt).0 in
      let (rest, (loads, quiet)) =
        pass_pinned-Replays u asg cams [] start start distinct (refl, refl)
          (λ k apart.
            entry-pass_new u k second.0 second.1 (pass_sticky-Lacks u k first.0 [] first.1 apart tt)
            ∙ entry-pass_sticky u k first.0 [] first.1 apart) in
      resume u asg final first.0 again.0 again.1 rest
        (All-map _ (IsSettled u asg final) first.0 settled free)
        (λ aid. rw loads (
          sym
            (load-pack_from u aid first.0 first.1 (pass_pinned-Distinct u cams [] start distinct))))
        quiet

-- With distinct camera ids, planning again after the plan was applied to the cameras, over the
-- same agents, moves no camera.
pub plan_placement-stable :
    (cams : List CameraSlot) (agents : List AgentSlot)
    → Distinct id_of cams
    → let plan = plan_placement cams agents in
      changed (plan_placement (map (assign plan.assignments) cams) agents) ≡ false
unfolding plan_placement changed
plan_placement-stable cams agents d =
    let u = usable_agents agents in
    let sorted_cams = sorted id_of cams in
    rw
      (
        sorted-map id_of (assign (pack u sorted_cams).plan.assignments) (λ c. refl) cams,
        pack-stable u (usable_agents-IsKeyed agents) sorted_cams (sorted-Distinct id_of cams d),
      )
      refl
