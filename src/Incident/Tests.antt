-- ===== src/Incident/Tests.antt =====
-- The theorems on the workflow at an event that was acknowledged.
use nightfury.Prelude.{ℕ, [], ◌∷◌, ◌≡◌, ◌⊎◌, none, some, true, In, arith}
use nightfury.Access.{User, operator, has_role, user_may_access_site}
use nightfury.Incident.{
  Status, Event, updated, resolved, acknowledged, set_event_status, write_event,
}
use nightfury.Incident.Workflow.{Paired, Own, Moved, set_event_status-scoped}

abbrev event : Event
event = record {
  org_id = 1;
  site_id = 3;
  status = acknowledged;
  acknowledged_by = some 8;
  acknowledged_at = some 100;
  resolved_by = none;
  resolved_at = none;
  resolution_note = none;
}

abbrev guard : User
guard = record { id = 7; org_id = 1; role = operator; sites_access = 3 ∷ [] }

event-Paired : Paired event
event-Paired = ground arith

set_event_status-scoped_example :
    let (reply, table') = set_event_status guard 20 (some resolved) none 120 ((20, event) ∷ []) in
    (table' ≡ (20, event) ∷ [])
    ⊎ ((s : Status) × (e e' : Event) × (has_role guard operator ≡ true)
        × (some resolved ≡ some s)
        × In {A = ℕ × Event} (20, e) ((20, event) ∷ [])
        × Own guard e
        × (user_may_access_site guard (some e.site_id) ≡ true)
        × Moved s 7 120 none e e'
        × (reply ≡ updated e')
        × (table' ≡ write_event 20 e' ((20, event) ∷ [])))
set_event_status-scoped_example =
    set_event_status-scoped guard 20 (some resolved) none 120 ((20, event) ∷ [])
