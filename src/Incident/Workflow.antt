-- ===== src/Incident/Workflow.antt =====
-- The columns of an event stay consistent, the first acknowledgement stands, and a refused request
-- writes nothing.
use nightfury.Prelude.{
  ℕ, List, [], ◌∷◌, ◌≡◌, ◌≢◌, ◌⊎◌, refl, Option, none, some, Bool, true, false, Bool-cases,
  Option-cases, inl, inr, arith, In, here, there, In-keep, keep, ◌==◌, ==_iff,
}
use Prim.Native.String.{String}
use nightfury.Access.{User, super_admin, operator, has_role, user_may_access_site}
use nightfury.Access.Scope.{scope_to_sites-may_access, own_or_super_admin}
use mathlib.Core.Path.{subst}
use nightfury.Incident.{
  Status, new, acknowledged, resolved, dismissed, Event, updated, in_org, apply_status, note_on,
  event_query, find_event, write_event, set_event_status, first_acknowledge,
}

abbrev pub is_set : Option ℕ → Bool
is_set none = false
is_set (some u) = true

-- Who acknowledged and when come together.
abbrev pub Paired : Event → Type 0
Paired e = is_set e.acknowledged_by ≡ is_set e.acknowledged_at

abbrev pub Sets : Event → Bool → Bool → Type 0
Sets e ack closed =
    (is_set e.acknowledged_by ≡ ack)
    × (is_set e.acknowledged_at ≡ ack)
    × (is_set e.resolved_by ≡ closed)
    × (is_set e.resolved_at ≡ closed)

-- What the columns say in each status.
abbrev pub Attributed : Status → Event → Type 0
Attributed new e = Sets e false false
Attributed acknowledged e = Sets e true false
Attributed resolved e = Sets e true true
Attributed dismissed e = Sets e true true

-- A change of status leaves the attribution columns as the new status wants them: none for `new`,
-- an acknowledger and a time for the others, a resolver and a time for the closed ones. That holds
-- from any event in which acknowledger and acknowledgement time come together.
pub apply_status-Attributed :
    (s : Status) (user now : ℕ) (e : Event)
    → Paired e
    → let e' = apply_status s user now e in (e'.status ≡ s) × Attributed s e' × Paired e'
unfolding apply_status
apply_status-Attributed new user now e p = ground arith
apply_status-Attributed acknowledged user now e p = ground arith
apply_status-Attributed resolved user now e p = ground arith
apply_status-Attributed dismissed user now e p = ground arith

-- Unless an event is handed back to `new`, an acknowledgement that stands is never rewritten.
pub apply_status-first_wins :
    (s : Status) (user now t : ℕ) (e : Event)
    → s ≢ new
    → e.acknowledged_at ≡ some t
    → let e' = apply_status s user now e in
      (e'.acknowledged_by ≡ e.acknowledged_by) × (e'.acknowledged_at ≡ some t)
unfolding apply_status
apply_status-first_wins s user now t e other h = ground arith

find_event-In :
    (id : ℕ) (rows : List (ℕ × Event)) (e : Event) → find_event id rows ≡ some e → In (id, e) rows
unfolding find_event
find_event-In id [] e h = cc
find_event-In id ((i, x) ∷ rows) e h = elim (Bool-cases (i == id)) [
  | inl eq ↦
      let same : some x ≡ some e = (rw eq at h) in
      let row : ◌≡◌ {A = ℕ × Event} (i, x) (id, e) = cc ((==_iff i id).0 eq) in
      subst (λ r. In r ((i, x) ∷ rows)) row here
  | inr ne ↦ there (find_event-In id rows e (rw ne at h))
]

event_query-In :
    (user : User) (table : List (ℕ × Event)) (id : ℕ) (e : Event)
    → In (id, e) (event_query user table)
    → In (id, e) table
      × (in_org user e ≡ true)
      × (user_may_access_site user (some e.site_id) ≡ true)
unfolding event_query
event_query-In user table id e m =
    let (kept, site) =
      (scope_to_sites-may_access (λ r. r.1.site_id) user (keep (λ r. in_org user r.1) table)
          (id, e)).0
        m in
    let (n, org) = In-keep (λ r. in_org user r.1) table kept in (n, org, site)

-- The caller's organisation is that of the event, unless the caller is a super admin.
abbrev pub Own : User → Event → Type 0
Own user e = (user.role ≡ super_admin) ⊎ (e.org_id ≡ user.org_id)

-- What stands in a column when the first value stays.
abbrev pub kept_or : Option ℕ → ℕ → Option ℕ → Option ℕ
kept_or none v old = some v
kept_or (some t) v old = old

-- Who acknowledged and resolved the event, and when, after a change to the status.
abbrev pub Columns : Status → (user now : ℕ) → (before after : Event) → Type 0
Columns new user now e e' = Sets e' false false
Columns acknowledged user now e e' =
    (e'.acknowledged_by ≡ kept_or e.acknowledged_at user e.acknowledged_by)
    × (e'.acknowledged_at ≡ kept_or e.acknowledged_at now e.acknowledged_at)
    × (e'.resolved_by ≡ none)
    × (e'.resolved_at ≡ none)
Columns resolved user now e e' =
    (e'.acknowledged_by ≡ kept_or e.acknowledged_at user e.acknowledged_by)
    × (e'.acknowledged_at ≡ kept_or e.acknowledged_at now e.acknowledged_at)
    × (e'.resolved_by ≡ some user)
    × (e'.resolved_at ≡ some now)
Columns dismissed user now e e' =
    (e'.acknowledged_by ≡ kept_or e.acknowledged_at user e.acknowledged_by)
    × (e'.acknowledged_at ≡ kept_or e.acknowledged_at now e.acknowledged_at)
    × (e'.resolved_by ≡ some user)
    × (e'.resolved_at ≡ some now)

abbrev pub or_old : Option String → Option String → Option String
or_old none old = old
or_old (some n) old = some n

-- An event as a change to the status leaves it.
pub record Moved (status : Status) (user now : ℕ) (note : Option String) (before after : Event)
    : Type 0 where
  pub org_id : after.org_id ≡ before.org_id
  pub site_id : after.site_id ≡ before.site_id
  pub set : after.status ≡ status
  pub noted : after.resolution_note ≡ or_old note before.resolution_note
  pub columns : Columns status user now before after

apply_status-Columns :
    (s : Status) (user now : ℕ) (e : Event) → Columns s user now e (apply_status s user now e)
unfolding apply_status
apply_status-Columns new user now e = ground arith
apply_status-Columns acknowledged user now e = ground arith
apply_status-Columns resolved user now e = ground arith
apply_status-Columns dismissed user now e = ground arith

apply_status-keeps :
    (s : Status) (user now : ℕ) (e : Event)
    → let e' = apply_status s user now e in
      (e'.org_id ≡ e.org_id)
      × (e'.site_id ≡ e.site_id)
      × (e'.status ≡ s)
      × (e'.resolution_note ≡ e.resolution_note)
unfolding apply_status first_acknowledge
apply_status-keeps new user now e = ground arith
apply_status-keeps acknowledged user now e = ground arith
apply_status-keeps resolved user now e = ground arith
apply_status-keeps dismissed user now e = ground arith

note_on-Columns :
    (s : Status) (user now : ℕ) (note : Option String) (e e' : Event)
    → Columns s user now e e'
    → Columns s user now e (note_on note e')
note_on-Columns s user now none e e' h = h
note_on-Columns new user now (some n) e e' h = h
note_on-Columns acknowledged user now (some n) e e' h = h
note_on-Columns resolved user now (some n) e e' h = h
note_on-Columns dismissed user now (some n) e e' h = h

apply_status-Moved :
    (s : Status) (user now : ℕ) (note : Option String) (e : Event)
    → Moved s user now note e (note_on note (apply_status s user now e))
apply_status-Moved s user now note e =
    let (org, site, set, old) = apply_status-keeps s user now e in
    let columns = note_on-Columns s user now note e _ (apply_status-Columns s user now e) in
    elim note
        as (λ n.
          Columns s user now e (note_on n (apply_status s user now e))
          → Moved s user now n e (note_on n (apply_status s user now e))) [
            | none ↦
                λ c. record { org_id = org; site_id = site; set = set; noted = old; columns = c }
            | some n ↦
                λ c. record { org_id = org; site_id = site; set = set; noted = refl; columns = c }
          ]
      columns

-- A request either leaves the table as it was, or comes from an operator or above, names a row that
-- the table holds under the given id, at a site that the caller may access and, unless the caller is
-- a super admin, of the caller's organisation, and replaces the event of that id by the one that it
-- returns: the one with the requested status, the note if there is one, and the columns
-- of attribution that the status asks for, where the first acknowledgement stands.
pub set_event_status-scoped :
    (user : User) (id : ℕ) (status : Option Status) (body_note : Option String) (now : ℕ)
    (table : List (ℕ × Event))
    → let (reply, table') = set_event_status user id status body_note now table in
      (table' ≡ table)
      ⊎ ((s : Status) × (e e' : Event) × (has_role user operator ≡ true)
          × (status ≡ some s)
          × In (id, e) table
          × Own user e
          × (user_may_access_site user (some e.site_id) ≡ true)
          × Moved s user.id now body_note e e'
          × (reply ≡ updated e')
          × (table' ≡ write_event id e' table))
unfolding set_event_status
set_event_status-scoped user id status body_note now table =
    elim (Bool-cases (has_role user operator)) [
      | inr low ↦ rw low (inl refl)
      | inl high ↦ elim (Option-cases status) [
        | inl e ↦ rw (high, e) (inl refl)
        | inr (s, es) ↦ elim (Option-cases (find_event id (event_query user table))) [
          | inl e ↦ rw (high, es, e) (inl refl)
          | inr (e, found) ↦
              let (known, org, site) =
                event_query-In user table id e (find_event-In id _ e found) in
              rw (high, es, found)
                (inr (
                  s,
                  e,
                  _,
                  refl,
                  refl,
                  known,
                  own_or_super_admin user e.org_id org,
                  site,
                  apply_status-Moved s user.id now body_note e,
                  refl,
                  refl,
                ))
        ]
      ]
    ]
