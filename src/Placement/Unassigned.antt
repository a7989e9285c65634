-- ===== src/Placement/Unassigned.antt =====
-- Why a camera is left without an agent.
use nightfury.Prelude.{
  ℕ, ◌+◌, ◌≤◌, List, [], none, some, false, ◌≡◌, ◌⊎◌, inl, inr, All, All-of_In, In, keep-In, arith,
  map, sym, Bool-cases,
}
use mathlib.Core.Path.{subst}
use nightfury.Prelude.Dict.{Dict, lookup, lookup-insert, lookup-insert_cases}
use nightfury.Prelude.Sort.{sorted, sorted-In}
use nightfury.Placement.{
  AgentSlot, CameraSlot, Packing, has_room, load_of, can_host, candidates, place, drop_camera, pack,
  usable_agents, plan_placement,
}
use nightfury.Placement.Usable.{IsKeyed, usable_agents-IsKeyed}
use nightfury.Placement.Rule.{Refused, pack_rule}
use nightfury.Placement.Limits.{Identified}

-- At these loads neither the pinned agent, nor, without a pin, any usable agent can take it.
abbrev pub Hopeless : Dict AgentSlot → Dict ℕ → CameraSlot → Type 0
Hopeless u load cam =
    ((aid : ℕ) × (cam.pinned_agent_id ≡ some aid) × (can_host u load (some aid) cam ≡ false))
    ⊎ (cam.pinned_agent_id ≡ none)
      × ((a : AgentSlot) → In a (map (λ e. e.1) u) → has_room load cam a ≡ false)

-- A load that grew turns no test true.
has_room_mono :
    (l l' : Dict ℕ) (cam : CameraSlot) (a : AgentSlot)
    → ((k : ℕ) → load_of l k ≤ load_of l' k)
    → has_room l cam a ≡ false
    → has_room l' cam a ≡ false
has_room_mono l l' cam a up h = ground (arith, up a.agent_id)

can_host_mono :
    (u : Dict AgentSlot) (l l' : Dict ℕ) (cam : CameraSlot) (aid : ℕ)
    → ((k : ℕ) → load_of l k ≤ load_of l' k)
    → can_host u l (some aid) cam ≡ false
    → can_host u l' (some aid) cam ≡ false
unfolding can_host
can_host_mono u l l' cam aid up h = ground (arith, up aid)

place-load :
    (cam : CameraSlot) (aid : ℕ) (s : Packing) (k : ℕ)
    → load_of s.load k ≤ load_of (place cam aid s).load k
unfolding place
place-load cam aid s k = ground (arith, lookup-insert aid k (load_of s.load aid + 1) s.load)

Hopeless-mono :
    (u : Dict AgentSlot) (l l' : Dict ℕ) (cam : CameraSlot)
    → ((k : ℕ) → load_of l k ≤ load_of l' k)
    → Hopeless u l cam
    → Hopeless u l' cam
Hopeless-mono u l l' cam up (inl (aid, e, h)) = inl (aid, e, can_host_mono u l l' cam aid up h)
Hopeless-mono u l l' cam up (inr (e, h)) = inr (e, λ a m. has_room_mono l l' cam a up (h a m))

no_room :
    (u : Dict AgentSlot) (s : Packing) (cam : CameraSlot) (a : AgentSlot)
    → candidates u s cam ≡ []
    → In a (map (λ e. e.1) u)
    → has_room s.load cam a ≡ false
unfolding candidates
no_room u s cam a e m = elim (Bool-cases (has_room s.load cam a)) [
  | inl h ↦ elim (rw e at (keep-In (has_room s.load cam) (map (λ e. e.1) u) m h)) [ ]
  | inr h ↦ h
]

Refused-Hopeless :
    (u : Dict AgentSlot) (s : Packing) (cam : CameraSlot) → Refused u s cam → Hopeless u s.load cam
Refused-Hopeless u s cam (inl r) = inl r
Refused-Hopeless u s cam (inr (e, h)) = inr (e, λ a m. no_room u s cam a h m)

module _ (u : Dict AgentSlot) (cams : List CameraSlot) (ids : Identified cams) where
  abbrev Explained : Packing → Type 0
  Explained s =
      (c : CameraSlot)
      → In c cams
      → lookup c.camera_id s.plan.assignments ≡ some none
      → Hopeless u s.load c

  place-Explained :
      (cam : CameraSlot) (aid : ℕ) (s : Packing) → Explained s → Explained (place cam aid s)
  unfolding place
  place-Explained cam aid s old c m e =
      elim (lookup-insert_cases cam.camera_id c.camera_id (some aid) none _ e) [
        | inl (_, to) ↦ cc
        | inr (_, before) ↦
            Hopeless-mono u s.load _ c (unfold place in place-load cam aid s) (old c m before)
      ]

  drop-Explained :
      (cam : CameraSlot) (s : Packing)
      → In cam cams
      → Refused u s cam
      → Explained s
      → Explained (drop_camera cam s)
  unfolding drop_camera
  drop-Explained cam s n r old c m e =
      elim (lookup-insert_cases cam.camera_id c.camera_id none none _ e) [
        | inl (same, _) ↦
            subst (Hopeless u s.load) (ids cam c n m (sym same)) (Refused-Hopeless u s cam r)
        | inr (_, before) ↦ old c m before
      ]

  pub pack-Explained :
      (sorted_cams : List CameraSlot)
      → IsKeyed u
      → All (λ c. In c cams) sorted_cams
      → Explained (pack u sorted_cams)
  unfolding lookup
  pack-Explained sorted_cams keyed known =
      pack_rule u keyed (λ c. In c cams) Explained (λ cam aid s _ _. place-Explained cam aid s)
        drop-Explained sorted_cams known (λ c m e. cc)

-- A camera is left unassigned only if, at the loads of the finished plan, its pinned agent cannot
-- host it or, without a pin, no usable agent has room for it at its site.
pub plan_placement-unassigned :
    (cams : List CameraSlot) (agents : List AgentSlot)
    → Identified cams
    → (cam : CameraSlot) → In cam cams
    → lookup cam.camera_id (plan_placement cams agents).assignments ≡ some none
    → Hopeless (usable_agents agents) (plan_placement cams agents).per_agent_count cam
unfolding plan_placement
plan_placement-unassigned cams agents ids cam m e =
    pack-Explained (usable_agents agents) cams ids (sorted (λ c. c.camera_id) cams)
      (usable_agents-IsKeyed agents) (All-of_In _ _ (λ c n. sorted-In (λ c. c.camera_id) cams n))
      cam m e
