-- ===== src/Placement/Usable.antt =====
-- The dict `usable` of `plan_placement`: every value stands under its own id, and a candidate of
-- the third pass could host the camera.
use nightfury.Prelude.{
  ℕ, List, [], ◌∷◌, map, none, some, true, ◌≡◌, refl, inl, inr, All, All-of_In, In, In-keep, here,
  there, arith, Bool-cases,
}
use nightfury.Prelude.Dict.{Dict, lookup, insert, lookup-insert, lookup-insert_cases}
use nightfury.Prelude.Sort.{sorted, sorted-In}
use mathlib.Core.Path.{subst}
use nightfury.Placement.{
  AgentSlot, CameraSlot, Packing, is_usable, collect_usable, usable_agents, has_room, can_host,
  candidates, least, before,
}

abbrev pub IsKeyed : Dict AgentSlot → Type 0
IsKeyed [] = Unit
IsKeyed ((k, a) ∷ d) = (a.agent_id ≡ k) × (lookup k d ≡ none) × IsKeyed d

insert-IsKeyed : (a : AgentSlot) (d : Dict AgentSlot) → IsKeyed d → IsKeyed (insert a.agent_id a d)
unfolding insert lookup
insert-IsKeyed a [] h = (refl, refl, tt)
insert-IsKeyed a ((k, b) ∷ d) h =
    ground (arith, insert-IsKeyed a d h.2, lookup-insert a.agent_id k a d)

collect_usable-IsKeyed :
    (agents : List AgentSlot) (d : Dict AgentSlot) → IsKeyed d → IsKeyed (collect_usable agents d)
unfolding collect_usable
collect_usable-IsKeyed [] d h = h
collect_usable-IsKeyed (a ∷ agents) d h = elim (Bool-cases (is_usable a)) [
  | inl e ↦ rw e (collect_usable-IsKeyed agents (insert a.agent_id a d) (insert-IsKeyed a d h))
  | inr e ↦ rw e (collect_usable-IsKeyed agents d h)
]

pub usable_agents-IsKeyed : (agents : List AgentSlot) → IsKeyed (usable_agents agents)
unfolding usable_agents
usable_agents-IsKeyed agents = collect_usable-IsKeyed (sorted (λ a. a.agent_id) agents) [] tt

-- Every value of the dict passed the test that admits it, and is one of the agents.
module _ (Q : AgentSlot → Type 0) where
  Admits : Dict AgentSlot → Type 0
  Admits d = (k : ℕ) (a : AgentSlot) → lookup k d ≡ some a → (is_usable a ≡ true) × Q a

  insert-Admits :
      (a : AgentSlot) (d : Dict AgentSlot)
      → is_usable a ≡ true
      → Q a
      → Admits d
      → Admits (insert a.agent_id a d)
  unfolding Admits
  insert-Admits a d ok q h k b p = elim (lookup-insert_cases a.agent_id k a b d p) [
    | inl (_, same) ↦ subst (λ x. (is_usable x ≡ true) × Q x) same (ok, q)
    | inr (_, old) ↦ h k b old
  ]

  collect_usable-Admits :
      (agents : List AgentSlot) (d : Dict AgentSlot)
      → All Q agents
      → Admits d
      → Admits (collect_usable agents d)
  unfolding collect_usable
  collect_usable-Admits [] d qs h = h
  collect_usable-Admits (a ∷ agents) d qs h = elim (Bool-cases (is_usable a)) [
    | inl e ↦
        rw e
          (collect_usable-Admits agents (insert a.agent_id a d) qs.1 (insert-Admits a d e qs.0 h))
    | inr e ↦ rw e (collect_usable-Admits agents d qs.1 h)
  ]

-- What stands in `usable` is one of the agents, healthy, with a site and a positive capacity.
pub usable_agents-usable :
    (agents : List AgentSlot) (k : ℕ) (a : AgentSlot)
    → lookup k (usable_agents agents) ≡ some a
    → (is_usable a ≡ true) × In a agents
unfolding usable_agents Admits lookup
usable_agents-usable agents =
    collect_usable-Admits (λ a. In a agents) (sorted (λ a. a.agent_id) agents) []
      (All-of_In _ _ (λ a m. sorted-In (λ a. a.agent_id) agents m)) (λ k a p. cc)

lookup-value :
    (d : Dict AgentSlot) {a : AgentSlot}
    → IsKeyed d
    → In a (map (λ e. e.1) d)
    → lookup a.agent_id d ≡ some a
unfolding lookup
lookup-value [] h m = elim m [ ]
lookup-value ((k, b) ∷ d) h here = ground arith
lookup-value ((k, b) ∷ d) {a} h (there m) = ground (arith, lookup-value d h.2 m)

pub lookup-agent_id :
    (d : Dict AgentSlot) (k : ℕ) (a : AgentSlot) → IsKeyed d → lookup k d ≡ some a → a.agent_id ≡ k
unfolding lookup
lookup-agent_id [] k a h e = cc
lookup-agent_id ((j, b) ∷ d) k a h e = ground (arith, lookup-agent_id d k a h.2)

least-In : (load : Dict ℕ) (a : AgentSlot) (bs : List AgentSlot) → In (least load a bs) (a ∷ bs)
unfolding least
least-In load a [] = here
least-In load a (b ∷ bs) = elim (Bool-cases (before load b a)) [
  | inl e ↦ rw e (there (least-In load b bs))
  | inr e ↦ rw e (skip (least-In load a bs))
]
  where
    skip : {c : AgentSlot} → In c (a ∷ bs) → In c (a ∷ b ∷ bs)
    skip here = here
    skip (there m) = there (there m)

-- The agent that the third pass chooses could host the camera.
pub candidates-can_host :
    (u : Dict AgentSlot) (s : Packing) (cam : CameraSlot) {a : AgentSlot} {more : List AgentSlot}
    → IsKeyed u
    → candidates u s cam ≡ a ∷ more
    → can_host u s.load (some (least s.load a more).agent_id) cam ≡ true
unfolding candidates can_host
candidates-can_host u s cam {a} {more} h e =
    let chosen = least s.load a more in
    let (known, room) =
      In-keep (has_room s.load cam) (map (λ e. e.1) u) (rw (← e) at (least-In s.load a more)) in
    rw (lookup-value u h known, can_host) room
