-- ===== src/Placement/Counts.antt =====
-- The loads of a plan are the numbers of cameras that it assigns.
use nightfury.Prelude.{
  ℕ, ◌+◌, List, [], ◌∷◌, ◌++◌, ◌≡◌, ◌≤◌, ◌∙◌, inl, inr, Option, none, some, true, Bool-cases,
  Option-cases, List-cases, arith, ◌==◌, if◌then◌else◌, total, total-append,
}
use mathlib.Core.List.{append_assoc}
use nightfury.Prelude.Dict.{Dict, lookup, lookup-insert}
use nightfury.Prelude.Sort.{
  Lacks, Distinct, Distinct-middle, Distinct-remove, sorted, sorted-Distinct, sorted-total,
}
use nightfury.Placement.{
  AgentSlot, CameraSlot, Packing, load_of, can_host, place, drop_camera, place_on, place_pinned,
  pass_pinned, pass_sticky, candidates, place_new, pass_new, pack, empty_packing, usable_agents,
  plan_placement,
}
use nightfury.Placement.Limits.{empty-load, per_agent_count-le-capacity}
use nightfury.Placement.Frame.{
  id_of, entry, entry-pass_pinned, entry-pass_sticky, entry-pass_new, pass_pinned-Lacks,
  pass_sticky-Lacks, pass_pinned-Distinct, pass_sticky-Distinct,
}

-- What one camera's entry adds to the load of an agent.
abbrev pub points : Option (Option ℕ) → ℕ → ℕ
points none aid = 0
points (some none) aid = 0
points (some (some b)) aid = if aid == b then 1 else 0

-- How many of the cameras the dict assigns to the agent.
abbrev pub tally : Dict (Option ℕ) → ℕ → List CameraSlot → ℕ
tally asg aid = total (λ c. points (lookup c.camera_id asg) aid)

pub load-place :
    (c : CameraSlot) (b : ℕ) (s : Packing) (aid : ℕ)
    → load_of (place c b s).load aid
      ≡ load_of s.load aid + points (entry c.camera_id (place c b s)) aid
unfolding place
load-place c b s aid = ground (
  arith,
  lookup-insert b aid (load_of s.load b + 1) s.load,
  lookup-insert c.camera_id c.camera_id (some b) s.plan.assignments,
)

load-drop :
    (c : CameraSlot) (s : Packing) (aid : ℕ)
    → load_of (drop_camera c s).load aid
      ≡ load_of s.load aid + points (entry c.camera_id (drop_camera c s)) aid
unfolding drop_camera
load-drop c s aid = ground (arith, lookup-insert c.camera_id c.camera_id none s.plan.assignments)

module _ (u : Dict AgentSlot) (aid : ℕ) where
  load-place_on :
      (c : CameraSlot) (o : Option ℕ) (s : Packing)
      → can_host u s.load o c ≡ true
      → load_of (place_on c o s).load aid
        ≡ load_of s.load aid + points (entry c.camera_id (place_on c o s)) aid
  unfolding can_host
  load-place_on c none s h = cc
  load-place_on c (some b) s h = load-place c b s aid

  load-place_pinned :
      (c : CameraSlot) (s : Packing)
      → load_of (place_pinned u c s).load aid
        ≡ load_of s.load aid + points (entry c.camera_id (place_pinned u c s)) aid
  unfolding place_pinned
  load-place_pinned c s = elim (Bool-cases (can_host u s.load c.pinned_agent_id c)) [
    | inl e ↦ rw e (load-place_on c c.pinned_agent_id s e)
    | inr e ↦ rw e (load-drop c s aid)
  ]

  load-place_new :
      (c : CameraSlot) (s : Packing)
      → load_of (place_new u c s).load aid
        ≡ load_of s.load aid + points (entry c.camera_id (place_new u c s)) aid
  unfolding place_new
  load-place_new c s = elim (List-cases (candidates u s c)) [
    | inl e ↦ rw (e, place_new) (load-drop c s aid)
    | inr (a, more, e) ↦ rw (e, place_new) (load-place c _ s aid)
  ]

  load-pass_new :
      (cams : List CameraSlot) (s : Packing)
      → Distinct id_of cams
      → load_of (pass_new u cams s).load aid
        ≡ load_of s.load aid + tally (pass_new u cams s).plan.assignments aid cams
  unfolding pass_new
  load-pass_new [] s d = omega arith
  load-pass_new (c ∷ cams) s d =
      let later = entry-pass_new u c.camera_id cams (place_new u c s) d.0 in
      rw later (omega (arith, load-pass_new cams (place_new u c s) d.1, load-place_new c s))

  -- `asg` stands for the assignments at the end of the third pass, which writes those of the
  -- homeless cameras only.
  load-pass_sticky :
      (cams hom : List CameraSlot) (s : Packing) (asg : Dict (Option ℕ))
      → Distinct id_of (hom ++ cams)
      → let (h, t) = pass_sticky u cams hom s in
        ((k : ℕ) → Lacks id_of k h → lookup k asg ≡ entry k t)
        → load_of t.load aid + tally asg aid h
          ≡ load_of s.load aid + tally asg aid hom + tally asg aid cams
  unfolding pass_sticky
  load-pass_sticky [] hom s asg d = λ agree. omega arith
  load-pass_sticky (c ∷ cams) hom s asg d =
      elim (Bool-cases (can_host u s.load c.current_agent_id c)) [
        | inl e ↦
            rw (e, pass_sticky)
              (λ agree.
                rw
                  (agree c.camera_id
                      (pass_sticky-Lacks u c.camera_id cams hom stays apart.1 apart.0)
                    ∙ entry-pass_sticky u c.camera_id cams hom stays apart.1)
                  (omega (
                    arith,
                    load-pass_sticky cams hom stays asg (Distinct-remove id_of hom c cams d) agree,
                    load-place_on c c.current_agent_id s e,
                  )))
        | inr e ↦
            rw (e, pass_sticky)
              (λ agree. omega (
                arith,
                load-pass_sticky cams (hom ++ c ∷ []) s asg (rw append_assoc d) agree,
                total-append (λ x. points (lookup x.camera_id asg) aid) hom (c ∷ []),
              ))
      ]
    where
      stays : Packing
      stays = place_on c c.current_agent_id s

      apart : Lacks id_of c.camera_id hom × Lacks id_of c.camera_id cams
      apart = Distinct-middle id_of hom c cams d

  -- The loads behind the pinned pass, and what is still to come.
  pub load-pack_from :
      (cams : List CameraSlot) (s : Packing)
      → Distinct id_of cams
      → let (homeless, settled) = pass_sticky u cams [] s in
        let final = pass_new u homeless settled in
        load_of final.load aid ≡ load_of s.load aid + tally final.plan.assignments aid cams
  load-pack_from cams s d =
      let h = (pass_sticky u cams [] s).0 in
      let t = (pass_sticky u cams [] s).1 in
      omega (
        arith,
        load-pass_new h t (pass_sticky-Distinct u cams [] s d),
        load-pass_sticky cams [] s (pass_new u h t).plan.assignments d
            (λ k apart. entry-pass_new u k h t apart),
      )

  -- `asg` stands for the assignments at the end, as above.
  load-pass_pinned :
      (cams rem : List CameraSlot) (s : Packing) (asg : Dict (Option ℕ))
      → Distinct id_of (rem ++ cams)
      → let (r, t) = pass_pinned u cams rem s in
        ((k : ℕ) → Lacks id_of k r → lookup k asg ≡ entry k t)
        → load_of t.load aid + tally asg aid r
          ≡ load_of s.load aid + tally asg aid rem + tally asg aid cams
  unfolding pass_pinned
  load-pass_pinned [] rem s asg d = λ agree. omega arith
  load-pass_pinned (c ∷ cams) rem s asg d = elim (Option-cases c.pinned_agent_id) [
    | inl e ↦
        rw (e, pass_pinned)
          (λ agree. omega (
            arith,
            load-pass_pinned cams (rem ++ c ∷ []) s asg (rw append_assoc d) agree,
            total-append (λ x. points (lookup x.camera_id asg) aid) rem (c ∷ []),
          ))
    | inr (_, e) ↦
        rw (e, pass_pinned)
          (λ agree.
            rw
              (agree c.camera_id (pass_pinned-Lacks u c.camera_id cams rem placed apart.1 apart.0)
                ∙ entry-pass_pinned u c.camera_id cams rem placed apart.1)
              (omega (
                arith,
                load-pass_pinned cams rem placed asg (Distinct-remove id_of rem c cams d) agree,
                load-place_pinned c s,
              )))
  ]
    where
      placed : Packing
      placed = place_pinned u c s

      apart : Lacks id_of c.camera_id rem × Lacks id_of c.camera_id cams
      apart = Distinct-middle id_of rem c cams d

  pub load-pack :
      (cams : List CameraSlot)
      → Distinct id_of cams
      → load_of (pack u cams).load aid ≡ tally (pack u cams).plan.assignments aid cams
  unfolding pack
  load-pack cams d =
      let r = (pass_pinned u cams [] (empty_packing u)).0 in
      let s = (pass_pinned u cams [] (empty_packing u)).1 in
      let h = (pass_sticky u r [] s).0 in
      let t = (pass_sticky u r [] s).1 in
      omega (
        arith,
        empty-load u u aid,
        load-pack_from r s (pass_pinned-Distinct u cams [] (empty_packing u) d),
        load-pass_pinned cams [] (empty_packing u) (pass_new u h t).plan.assignments d (λ k apart.
            entry-pass_new u k h t (pass_sticky-Lacks u k r [] s apart tt)
            ∙ entry-pass_sticky u k r [] s apart),
      )

-- With distinct camera ids, the count that the plan reports for an agent is the number of cameras
-- that it assigns to that agent.
pub plan_placement-counts :
    (cams : List CameraSlot) (agents : List AgentSlot) (aid : ℕ)
    → Distinct id_of cams
    → let plan = plan_placement cams agents in
      load_of plan.per_agent_count aid ≡ tally plan.assignments aid cams
unfolding plan_placement
plan_placement-counts cams agents aid d =
    let u = usable_agents agents in
    load-pack u aid (sorted id_of cams) (sorted-Distinct id_of cams d)
    ∙ sorted-total id_of (λ c. points (entry c.camera_id (pack u (sorted id_of cams))) aid) cams

-- With distinct camera ids, the plan assigns to a usable agent at most as many cameras as its capacity.
pub plan_placement-le-capacity :
    (cams : List CameraSlot) (agents : List AgentSlot) (aid : ℕ) (a : AgentSlot)
    → Distinct id_of cams
    → lookup aid (usable_agents agents) ≡ some a
    → tally (plan_placement cams agents).assignments aid cams ≤ a.capacity
plan_placement-le-capacity cams agents aid a d e = omega (
  arith,
  plan_placement-counts cams agents aid d,
  per_agent_count-le-capacity cams agents aid a e,
)
