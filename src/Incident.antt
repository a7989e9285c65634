-- ===== src/Incident.antt =====
-- The control-room workflow of an event: `set_event_status` of backend/app/api/events.py.
pub mod Workflow
mod Tests
use nightfury.Prelude.{
  ℕ, List, [], ◌∷◌, map, Option, none, some, Bool, true, if◌then◌else◌, ◌==◌, keep,
}
use nightfury.Access.{User, super_admin, operator, has_role, scope_to_sites}
use Prim.Native.String.{String}

pub data Status : Type 0 where
  new acknowledged resolved dismissed : Status

-- The columns of an event that the workflow reads or writes.
pub record Event : Type 0 where
  pub org_id : ℕ
  pub site_id : ℕ
  pub status : Status
  pub acknowledged_by : Option ℕ
  pub acknowledged_at : Option ℕ
  pub resolved_by : Option ℕ
  pub resolved_at : Option ℕ
  pub resolution_note : Option String

pub data Reply : Type 0 where
  forbidden bad_status not_found : Reply
  updated : Event → Reply

-- `if event.acknowledged_at is None: …`
pub first_acknowledge : ℕ → ℕ → Event → Event
first_acknowledge user now e = elim e.acknowledged_at [
  | none ↦ record e { acknowledged_by = some user; acknowledged_at = some now }
  | some _ ↦ e
]

-- The assignments that depend on the new status.
pub apply_status : Status → ℕ → ℕ → Event → Event
unfolding first_acknowledge
apply_status new user now e = record e {
  status = new;
  acknowledged_by = none;
  acknowledged_at = none;
  resolved_by = none;
  resolved_at = none;
}
apply_status acknowledged user now e = record (first_acknowledge user now e) {
  status = acknowledged;
  resolved_by = none;
  resolved_at = none;
}
apply_status resolved user now e = record (first_acknowledge user now e) {
  status = resolved;
  resolved_by = some user;
  resolved_at = some now;
}
apply_status dismissed user now e = record (first_acknowledge user now e) {
  status = dismissed;
  resolved_by = some user;
  resolved_at = some now;
}

abbrev pub note_on : Option String → Event → Event
note_on none e = e
note_on (some n) e = record e { resolution_note = some n }

abbrev pub in_org : User → Event → Bool
in_org user e = elim user.role [ super_admin ↦ true | _ ↦ e.org_id == user.org_id ]

-- `_event_query(user)`, on the rows of the table with their ids.
pub event_query : User → List (ℕ × Event) → List (ℕ × Event)
unfolding scope_to_sites
event_query user rows = scope_to_sites (λ r. r.1.site_id) user (keep (λ r. in_org user r.1) rows)

-- `.where(Event.id == event_id)` with `scalar_one_or_none`, for ids that are a primary key.
pub find_event : ℕ → List (ℕ × Event) → Option Event
find_event id [] = none
find_event id ((i, e) ∷ rows) = if i == id then some e else find_event id rows

abbrev pub write_event : ℕ → Event → List (ℕ × Event) → List (ℕ × Event)
write_event id e = map (λ r. if r.0 == id then (r.0, e) else r)

-- `body_status` is `none` for a text that is not one of EVENT_STATUSES.
pub set_event_status :
    User → ℕ → Option Status → Option String → ℕ → List (ℕ × Event) → Reply × List (ℕ × Event)
unfolding event_query find_event apply_status has_role
set_event_status user event_id body_status note now table =
    if has_role user operator
    then elim body_status [
      | none ↦ (bad_status, table)
      | some status ↦ elim (find_event event_id (event_query user table)) [
        | none ↦ (not_found, table)
        | some e ↦
            let e' = note_on note (apply_status status user.id now e) in
            (updated e', write_event event_id e' table)
      ]
    ]
    else (forbidden, table)
