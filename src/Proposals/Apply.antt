-- ===== src/Proposals/Apply.antt =====
-- What applying a proposal does, once and again, and to whom it is open.
use nightfury.Prelude.{
  ℕ, ◌<◌, List, [], ◌∷◌, ◌≡◌, ◌⊎◌, refl, inl, inr, Option, none, some, true, false, leb, ◌==◌,
  ==_refl, first, arith, Bool-cases, Option-cases,
}
use nightfury.Access.{Role, User, has_role}
use nightfury.Proposals.{
  Proposal, Payload, alert_rule, camera_connection, Status, pending, applied, rejected, expired,
  Tables, ConnectionBody, Site, HttpError, not_found, conflict, err, ok, already, created,
  load_proposal_for_user, apply_alert_rule, find_site, connect, apply_to_site,
  apply_camera_connection, apply_payload, write_proposal, apply_pending, apply_loaded,
  apply_proposal, is_pending, with_db,
}

-- The rows besides the proposals.
abbrev pub SameRows : Tables → Tables → Type 0
SameRows s s' = (s'.rules ≡ s.rules) × (s'.connections ≡ s.connections)

-- Appliers leave the proposals alone.
connect-proposals :
    (new_id : ℕ) (site : Site) (body : ConnectionBody) (s : Tables)
    → (connect new_id site body s).1.proposals ≡ s.proposals
unfolding connect
connect-proposals new_id site body s = ground arith

apply_payload-proposals :
    (new_id : ℕ) (user : User) (site_id : Option ℕ) (payload : Payload) (s : Tables)
    → (apply_payload new_id user site_id payload s).1.proposals ≡ s.proposals
unfolding apply_payload apply_alert_rule apply_camera_connection apply_to_site
apply_payload-proposals new_id user site_id (alert_rule body) s = refl
apply_payload-proposals new_id user none (camera_connection body) s = refl
apply_payload-proposals new_id user (some site_id) (camera_connection body) s =
    elim (Option-cases (find_site user site_id s.sites)) [
      | inl e ↦ rw (e, apply_camera_connection) refl
      | inr (site, e) ↦
          rw (e, apply_camera_connection) (ground (arith, connect-proposals new_id site body s))
    ]

-- An applier that raises has written nothing.
apply_payload-err :
    (new_id : ℕ) (user : User) (site_id : Option ℕ) (payload : Payload) (s : Tables) (e : HttpError)
    → (apply_payload new_id user site_id payload s).0 ≡ err e
    → (apply_payload new_id user site_id payload s).1 ≡ s
unfolding apply_payload apply_alert_rule apply_camera_connection apply_to_site
apply_payload-err new_id user site_id (alert_rule body) s e h = cc
apply_payload-err new_id user none (camera_connection body) s e h = refl
apply_payload-err new_id user (some site_id) (camera_connection body) s e h =
    elim (Option-cases (find_site user site_id s.sites)) [
      | inl f ↦ rw (f, apply_camera_connection) refl
      | inr (site, f) ↦ rw (f, apply_camera_connection) (ground arith)
    ]

-- What must hold for a proposal to be applied.
pub record Guarded (now : ℕ) (user : User) (proposal_id : ℕ) (s : Tables) : Type 0 where
  pub proposal : Proposal
  pub found : first (λ p. p.id == proposal_id) s.proposals ≡ some proposal
  pub own : proposal.org_id ≡ user.org_id
  pub waits : proposal.status ≡ pending
  pub live : now < proposal.expires_at
  pub admin : has_role user Role.admin ≡ true

apply_pending-guarded :
    (now new_id : ℕ) (user : User) (p : Proposal) (s : Tables)
    → SameRows s (apply_pending now new_id user p s).1
      ⊎ ((now < p.expires_at) × (has_role user Role.admin ≡ true))
unfolding apply_pending
apply_pending-guarded now new_id user p s = elim (Bool-cases (leb p.expires_at now)) [
  | inl e ↦ inl (rw e (refl, refl))
  | inr e ↦ elim (Bool-cases (has_role user Role.admin)) [
    | inl f ↦ inr (ground arith, f)
    | inr f ↦ inl (rw (e, f) (refl, refl))
  ]
]

pub Status-cases : (st : Status) → (st ≡ pending) ⊎ (is_pending st ≡ false)
Status-cases pending = inl refl
Status-cases applied = inr refl
Status-cases rejected = inr refl
Status-cases expired = inr refl

module _ (now new_id : ℕ) (user : User) (p : Proposal) (s : Tables) where
  pub apply_loaded_pending :
      p.status ≡ pending → apply_loaded now new_id user p s ≡ apply_pending now new_id user p s
  unfolding apply_loaded
  apply_loaded_pending e = simp (e, apply_loaded)

  pub apply_loaded-settled : is_pending p.status ≡ false → (apply_loaded now new_id user p s).1 ≡ s
  unfolding apply_loaded
  apply_loaded-settled e = ground arith

load-first :
    (user : User) (k : ℕ) (ps : List Proposal) (p : Proposal)
    → load_proposal_for_user user k ps ≡ some p
    → (first (λ p. p.id == k) ps ≡ some p) × (p.org_id ≡ user.org_id)
unfolding load_proposal_for_user
load-first user k ps p h = elim (Option-cases (first (λ p. p.id == k) ps)) [
  | inl e ↦ cc
  | inr (q, e) ↦ ground arith
]

-- Applying a proposal leaves the rules and the connections as they are, unless it is one of the
-- user's organisation, pending and not expired, and the user is an admin or above.
pub apply_proposal-Guarded :
    (now new_id : ℕ) (user : User) (proposal_id : ℕ) (s : Tables)
    → SameRows s (apply_proposal now new_id user proposal_id s).1 ⊎ Guarded now user proposal_id s
unfolding apply_proposal
apply_proposal-Guarded now new_id user k s =
    elim (Option-cases (load_proposal_for_user user k s.proposals)) [
      | inl e ↦ inl (rw (e, apply_proposal) (refl, refl))
      | inr (p, e) ↦
          let (found, own) = load-first user k s.proposals p e in
          elim (Status-cases p.status) [
            | inr f ↦
                inl
                  (rw (e, apply_proposal, apply_loaded-settled now new_id user p s f) (refl, refl))
            | inl f ↦
                rw (e, apply_proposal, apply_loaded_pending now new_id user p s f)
                  (elim (apply_pending-guarded now new_id user p s) [
                    | inl same ↦ inl same
                    | inr (live, admin) ↦ inr (record {
                      proposal = p;
                      found = found;
                      own = own;
                      waits = f;
                      live = live;
                      admin = admin;
                    })
                  ])
          ]
    ]

-- The row that was written is found again.
first-write :
    (k : ℕ) (ps : List Proposal) (p q : Proposal)
    → first (λ p. p.id == k) ps ≡ some p
    → q.id ≡ p.id
    → first (λ p. p.id == k) (write_proposal q ps) ≡ some q
unfolding first
first-write k [] p q h e = cc
first-write k (x ∷ ps) p q h e = ground (arith, first-write k ps p q)

apply_pending-created :
    (now new_id : ℕ) (user : User) (p : Proposal) (s : Tables) (id : ℕ)
    → (apply_pending now new_id user p s).0 ≡ ok (created id)
    → (apply_pending now new_id user p s).1.proposals
      ≡ write_proposal (record p { status = applied; applied_at = some now }) s.proposals
unfolding apply_pending
apply_pending-created now new_id user p s id h =
    ground (arith, apply_payload-proposals new_id user p.site_id p.payload s)

-- Behind an application the row is one of the organisation, and applied.
abbrev IsApplied : ℕ → ℕ → Tables → Type 0
IsApplied k org_id s =
    (q : Proposal) × (first (λ p. p.id == k) s.proposals ≡ some q)
    × (q.org_id ≡ org_id)
    × (q.status ≡ applied)

apply_pending-IsApplied :
    (now new_id k : ℕ) (user : User) (p : Proposal) (s : Tables) (id : ℕ)
    → first (λ p. p.id == k) s.proposals ≡ some p
    → p.org_id ≡ user.org_id
    → (apply_pending now new_id user p s).0 ≡ ok (created id)
    → IsApplied k user.org_id (apply_pending now new_id user p s).1
apply_pending-IsApplied now new_id k user p s id found own h =
    let q : Proposal = record p { status = applied; applied_at = some now } in
    (
      q,
      rw (apply_pending-created now new_id user p s id h)
          (first-write k s.proposals p q found refl),
      own,
      refl,
    )

apply_loaded-IsApplied :
    (now new_id k : ℕ) (user : User) (p : Proposal) (s : Tables) (id : ℕ)
    → first (λ p. p.id == k) s.proposals ≡ some p
    → p.org_id ≡ user.org_id
    → (apply_loaded now new_id user p s).0 ≡ ok (created id)
    → IsApplied k user.org_id (apply_loaded now new_id user p s).1
apply_loaded-IsApplied now new_id k user p s id found own h = elim (Status-cases p.status) [
  | inl e ↦
      let step = apply_loaded_pending now new_id user p s e in
      rw step (apply_pending-IsApplied now new_id k user p s id found own (rw step at h))
  | inr e ↦ unfold apply_loaded in ground arith
]

apply_proposal-IsApplied :
    (now new_id k : ℕ) (user : User) (s : Tables) (id : ℕ)
    → (apply_proposal now new_id user k s).0 ≡ ok (created id)
    → IsApplied k user.org_id (apply_proposal now new_id user k s).1
unfolding apply_proposal
apply_proposal-IsApplied now new_id k user s id h =
    elim (Option-cases (load_proposal_for_user user k s.proposals)) [
      | inl e ↦ let no : err not_found ≡ ok (created id) = (rw (e, apply_proposal) at h) in cc
      | inr (p, e) ↦
          let (found, own) = load-first user k s.proposals p e in
          rw (e, apply_proposal)
            (apply_loaded-IsApplied now new_id k user p s id found own
              (rw (e, apply_proposal) at h))
    ]

apply_proposal-already :
    (now new_id k : ℕ) (user : User) (s : Tables)
    → IsApplied k user.org_id s
    → apply_proposal now new_id user k s ≡ (ok already, s)
unfolding apply_proposal load_proposal_for_user apply_loaded
apply_proposal-already now new_id k user s (q, found, own, done) =
    simp (found, own, ==_refl, done, apply_proposal, load_proposal_for_user, apply_loaded)

-- A proposal that was applied is not applied again: whenever and by whomever of the organisation, the
-- second call reports so and changes nothing.
pub apply_proposal-once :
    (now later new_id next_id : ℕ) (user other : User) (proposal_id id : ℕ) (s : Tables)
    → (apply_proposal now new_id user proposal_id s).0 ≡ ok (created id)
    → other.org_id ≡ user.org_id
    → let s' = (apply_proposal now new_id user proposal_id s).1 in
      apply_proposal later next_id other proposal_id s' ≡ (ok already, s')
apply_proposal-once now later new_id next_id user other k id s h same =
    apply_proposal-already later next_id k other (apply_proposal now new_id user k s).1
      (rw same (apply_proposal-IsApplied now new_id k user s id h))

apply_proposal_late :
    (now new_id k : ℕ) (user : User) (p : Proposal) (s : Tables)
    → first (λ p. p.id == k) s.proposals ≡ some p
    → p.org_id ≡ user.org_id
    → p.status ≡ pending
    → leb p.expires_at now ≡ true
    → (apply_proposal now new_id user k s).0 ≡ err conflict
unfolding apply_proposal load_proposal_for_user apply_pending
apply_proposal_late now new_id k user p s found own waits late =
    let step = apply_loaded_pending now new_id user p s waits in
    ground (arith, found, own, step, ==_refl p.org_id)

-- Within a session of the database, applying a pending proposal of the user's organisation that has
-- expired is refused and leaves every row as it is: the status "expired" is rolled back.
pub with_db-expired :
    (now new_id : ℕ) (user : User) (proposal_id : ℕ) (p : Proposal) (s : Tables)
    → first (λ p. p.id == proposal_id) s.proposals ≡ some p
    → p.org_id ≡ user.org_id
    → p.status ≡ pending
    → leb p.expires_at now ≡ true
    → with_db (apply_proposal now new_id user proposal_id) s ≡ (err conflict, s)
unfolding with_db
with_db-expired now new_id user k p s found own waits late =
    rw (apply_proposal_late now new_id k user p s found own waits late, with_db) refl
