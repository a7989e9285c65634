-- ===== src/Proposals/Connections.antt =====
-- The camera map stays undirected: one row for a pair of cameras, the lesser id first.
use nightfury.Prelude.{
  ℕ, ◌<◌, List, [], ◌∷◌, ◌++◌, ◌≡◌, ◌⊎◌, inl, inr, Option, none, some, Bool, false, ◌==◌, All,
  first, arith, Bool-cases, Option-cases,
}
use nightfury.Access.{User}
use nightfury.Journeys.{normalise_pair}
use nightfury.Journeys.Links.{normalise_pair-lt}
use nightfury.Proposals.Apply.{Status-cases, apply_loaded-settled, apply_loaded_pending}
use nightfury.Proposals.{
  Proposal, Payload, alert_rule, camera_connection, Tables, Connection, ConnectionBody, Site,
  load_proposal_for_user, apply_alert_rule, find_site, is_pair, connect, apply_to_site,
  apply_camera_connection, apply_payload, apply_pending, apply_proposal,
}

-- The ends of each connection rise, and no two connections have the same ends.
abbrev pub Undirected : List Connection → Type 0
Undirected [] = Unit
Undirected (c ∷ cs) =
    (c.camera_a_id < c.camera_b_id)
    × All (λ d. is_pair (c.camera_a_id, c.camera_b_id) d ≡ false) cs
    × Undirected cs

first_absent :
    (p : Connection → Bool) (cs : List Connection) → first p cs ≡ none → All (λ c. p c ≡ false) cs
unfolding first
first_absent p [] h = tt
first_absent p (c ∷ cs) h = elim (Bool-cases (p c)) [
  | inl e ↦ cc (rw e at h)
  | inr e ↦ (e, first_absent p cs (rw e at h))
]

Undirected-append :
    (cs : List Connection) (c : Connection)
    → Undirected cs
    → c.camera_a_id < c.camera_b_id
    → All (λ d. is_pair (c.camera_a_id, c.camera_b_id) d ≡ false) cs
    → Undirected (cs ++ c ∷ [])
Undirected-append [] c u lt new = (lt, tt, tt)
Undirected-append (d ∷ cs) c (rises, apart, u) lt (other, new) =
    (rises, All-last cs apart, Undirected-append cs c u lt new)
  where
    All-last :
        (es : List Connection)
        → All (λ e. is_pair (d.camera_a_id, d.camera_b_id) e ≡ false) es
        → All (λ e. is_pair (d.camera_a_id, d.camera_b_id) e ≡ false) (es ++ c ∷ [])
    All-last [] h = (ground (arith, other), tt)
    All-last (e ∷ es) h = (h.0, All-last es h.1)

connect-Undirected :
    (new_id : ℕ) (site : Site) (body : ConnectionBody) (s : Tables)
    → (body.camera_a_id == body.camera_b_id) ≡ false
    → Undirected s.connections
    → Undirected (connect new_id site body s).1.connections
unfolding connect
connect-Undirected new_id site body s apart u =
    let pair = normalise_pair body.camera_a_id body.camera_b_id in
    elim (Option-cases (first (is_pair pair) s.connections)) [
      | inr (c, e) ↦ rw (e, connect) u
      | inl e ↦
          rw (e, connect)
            (Undirected-append s.connections _ u
              (normalise_pair-lt body.camera_a_id body.camera_b_id apart)
              (first_absent (is_pair pair) s.connections e))
    ]

-- Behind its checks, apply_to_site connects.
apply_to_site_cases :
    (new_id : ℕ) (site : Site) (body : ConnectionBody) (s : Tables)
    → ((apply_to_site new_id site body s).1 ≡ s)
      ⊎ ((body.camera_a_id == body.camera_b_id) ≡ false)
        × ((apply_to_site new_id site body s).1 ≡ (connect new_id site body s).1)
unfolding apply_to_site
apply_to_site_cases new_id site body s = ground arith

apply_to_site-Undirected :
    (new_id : ℕ) (site : Site) (body : ConnectionBody) (s : Tables)
    → Undirected s.connections
    → Undirected (apply_to_site new_id site body s).1.connections
apply_to_site-Undirected new_id site body s u = elim (apply_to_site_cases new_id site body s) [
  | inl e ↦ rw e u
  | inr (apart, e) ↦ rw e (connect-Undirected new_id site body s apart u)
]

apply_payload-Undirected :
    (new_id : ℕ) (user : User) (site_id : Option ℕ) (payload : Payload) (s : Tables)
    → Undirected s.connections
    → Undirected (apply_payload new_id user site_id payload s).1.connections
unfolding apply_payload apply_alert_rule apply_camera_connection
apply_payload-Undirected new_id user site_id (alert_rule body) s u = u
apply_payload-Undirected new_id user none (camera_connection body) s u = u
apply_payload-Undirected new_id user (some site_id) (camera_connection body) s u =
    elim (Option-cases (find_site user site_id s.sites)) [
      | inl e ↦ rw (e, apply_camera_connection) u
      | inr (site, e) ↦
          rw (e, apply_camera_connection) (apply_to_site-Undirected new_id site body s u)
    ]

-- The connections are those of before, or those that the applier leaves.
apply_pending_cases :
    (now new_id : ℕ) (user : User) (p : Proposal) (s : Tables)
    → ((apply_pending now new_id user p s).1.connections ≡ s.connections)
      ⊎ ((apply_pending now new_id user p s).1.connections
          ≡ (apply_payload new_id user p.site_id p.payload s).1.connections)
unfolding apply_pending
apply_pending_cases now new_id user p s = ground arith

apply_pending-Undirected :
    (now new_id : ℕ) (user : User) (p : Proposal) (s : Tables)
    → Undirected s.connections
    → Undirected (apply_pending now new_id user p s).1.connections
unfolding apply_pending
apply_pending-Undirected now new_id user p s u =
    let applied_rows = apply_payload-Undirected new_id user p.site_id p.payload s u in
    elim (apply_pending_cases now new_id user p s) [ inl e ↦ rw e u | inr e ↦ rw e applied_rows ]

-- Applying a proposal keeps the camera map undirected: the ends of each connection rise, so that no
-- camera is connected to itself, and no two connections have the same ends.
pub apply_proposal-Undirected :
    (now new_id : ℕ) (user : User) (proposal_id : ℕ) (s : Tables)
    → Undirected s.connections
    → Undirected (apply_proposal now new_id user proposal_id s).1.connections
unfolding apply_proposal
apply_proposal-Undirected now new_id user k s u =
    elim (Option-cases (load_proposal_for_user user k s.proposals)) [
      | inl e ↦ rw (e, apply_proposal) u
      | inr (p, e) ↦
          rw (e, apply_proposal)
            (elim (Status-cases p.status) [
              | inr f ↦ rw (apply_loaded-settled now new_id user p s f) u
              | inl f ↦
                  rw (apply_loaded_pending now new_id user p s f)
                    (apply_pending-Undirected now new_id user p s u)
            ])
    ]
