-- ===== src/Alerts/Tests.antt =====
-- Two sweeps and a cooldown, and the theorems there.
use nightfury.Prelude.{ℕ, [], ◌∷◌, Option, none, some, Bool, true, false, ◌≡◌, refl}
use nightfury.Incident.{new}
use nightfury.Alerts.{
  Event, AlertRule, AlertHistory, Contact, Window, high, matches, in_time_window, severity_order,
  due_from, due_rungs, fired_rungs, notify, climb, sweep_rule, sweep_rules, sweep_events, sweep,
  is_in_cooldown, set_cooldown, evaluate_event, evaluate_rules,
}
use nightfury.Alerts.Ladder.{sweep-once}

abbrev guard : Contact
guard = record { channel = 1; recipient = 20 }

abbrev manager : Contact
manager = record { channel = 2; recipient = 21 }

-- From 22:00 to 06:00, on any day.
abbrev night : Window
night = record { start = some 79_200; end = some 21_600; days = [] }

abbrev rule : AlertRule
rule = record {
  id = 5;
  org_id = 1;
  enabled = true;
  deleted = false;
  site_id = none;
  event_types = 3 ∷ [];
  min_severity = high;
  cameras = [];
  time_window = some night;
  zones = [];
  notify_contacts = guard ∷ [];
  cooldown_seconds = 300;
  escalation =
      record { after_seconds = some 60; contacts = guard ∷ manager ∷ [] }
      ∷ record { after_seconds = none; contacts = guard ∷ [] }
      ∷ record { after_seconds = some 600; contacts = manager ∷ [] }
      ∷ [];
}

-- An event at 23:00.
abbrev event : Event
event = record {
  id = 9;
  org_id = 1;
  site_id = 2;
  camera_id = 4;
  event_type = 3;
  severity = high;
  status = new;
  timestamp = 82_800;
  zone = none;
}

abbrev send : Contact → Event → AlertRule → Bool
send c e r = true

abbrev row : ℕ → ℕ → Option ℕ → AlertHistory
row channel recipient rung = record {
  org_id = 1;
  rule_id = 5;
  event_id = 9;
  channel = channel;
  recipient = recipient;
  sent = true;
  escalation_rung = rung;
}

first_sweep :
    sweep send 82_900 (event ∷ []) (rule ∷ []) [] ≡ row 1 20 (some 0) ∷ row 2 21 (some 0) ∷ []
unfolding sweep sweep_events sweep_rules sweep_rule matches in_time_window severity_order due_rungs
    due_from fired_rungs climb notify
first_sweep = refl

evaluated : evaluate_event send 82_801 event (rule ∷ []) [] ≡ (
  row 1 20 none ∷ [],
  record { rule_id = 5; camera_id = 4; event_type = 3; expires = 83_101 } ∷ [],
)
unfolding evaluate_event evaluate_rules matches in_time_window severity_order notify is_in_cooldown
    set_cooldown
evaluated = refl

sweep-once_example :
    sweep send 82_900 (event ∷ []) (rule ∷ []) (sweep send 82_900 (event ∷ []) (rule ∷ []) [])
    ≡ sweep send 82_900 (event ∷ []) (rule ∷ []) []
sweep-once_example = sweep-once send 82_900 (event ∷ []) (rule ∷ []) []
