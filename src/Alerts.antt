-- ===== src/Alerts.antt =====
-- Alert rules and their escalation: backend/app/services/alert_service.py and alert_escalation.py.
-- Times are seconds since the epoch, in UTC; a notification's delivery is a parameter.
pub mod Ladder
pub mod Repeats
mod Tests
use nightfury.Prelude.{
  ℕ, suc, ◌+◌, ◌-◌, ◌/◌, ◌%◌, ◌≤◌, List, [], ◌∷◌, ◌++◌, map, Option, none, some, Bool, true, false,
  not, ◌&&◌, ◌||◌, ltb, leb, ◌==◌, option_eq, if◌then◌else◌, keep, any, elem, length,
}
use nightfury.Prelude.Dict.{get_or}
use nightfury.Incident.{Status, new}

-- `other` is any text that is no key of SEVERITY_ORDER.
pub data Severity : Type 0 where
  low medium high critical other : Severity

pub severity_order : Severity → ℕ
severity_order low = 0
severity_order medium = 1
severity_order high = 2
severity_order critical = 3
severity_order other = 0

-- The columns of an event that the rules read; `zone` is that of its metadata.
pub record Event : Type 0 where
  pub id : ℕ
  pub org_id : ℕ
  pub site_id : ℕ
  pub camera_id : ℕ
  pub event_type : ℕ
  pub severity : Severity
  pub status : Status
  pub timestamp : ℕ
  pub zone : Option ℕ

pub record Window : Type 0 where
  pub start : Option ℕ
  pub end : Option ℕ
  pub days : List ℕ

pub record Contact : Type 0 where
  pub channel : ℕ
  pub recipient : ℕ

-- `after_seconds` is `none` where it is missing or no number.
pub record Rung : Type 0 where
  pub after_seconds : Option ℕ
  pub contacts : List Contact

pub record AlertRule : Type 0 where
  pub id : ℕ
  pub org_id : ℕ
  pub enabled : Bool
  pub deleted : Bool
  pub site_id : Option ℕ
  pub event_types : List ℕ
  pub min_severity : Severity
  pub cameras : List ℕ
  pub time_window : Option Window
  pub zones : List ℕ
  pub notify_contacts : List Contact
  pub cooldown_seconds : ℕ
  pub escalation : List Rung

pub record AlertHistory : Type 0 where
  pub org_id : ℕ
  pub rule_id : ℕ
  pub event_id : ℕ
  pub channel : ℕ
  pub recipient : ℕ
  pub sent : Bool
  pub escalation_rung : Option ℕ

-- A key `cooldown:…` of Redis.
pub record Cooldown : Type 0 where
  pub rule_id : ℕ
  pub camera_id : ℕ
  pub event_type : ℕ
  pub expires : ℕ

-- Seconds of the day, and the day of the week from 0 for Thursday, the first day of the epoch.
abbrev pub time_of : ℕ → ℕ
time_of t = t % 86_400

abbrev pub day_of : ℕ → ℕ
day_of t = (t / 86_400) % 7

abbrev pub is_empty {ℓ} : {A : Type ℓ} → List A → Bool
is_empty [] = true
is_empty (_ ∷ _) = false

-- `_in_time_window`
pub in_time_window : ℕ → Window → Bool
in_time_window timestamp window =
    let start = get_or 0 window.start in
    let end = get_or 86_340 window.end in
    let t = time_of timestamp in
    if not (is_empty window.days) && not (elem (day_of timestamp) window.days)
    then false
    else if leb start end
    then leb start t && leb t end
    else leb start t || leb t end

abbrev pub in_optional_window : ℕ → Option Window → Bool
in_optional_window timestamp none = true
in_optional_window timestamp (some window) = in_time_window timestamp window

abbrev pub zone_fits : Option ℕ → List ℕ → Bool
zone_fits none zones = true
zone_fits (some z) zones = is_empty zones || elem z zones

-- `_matches`
pub matches : AlertRule → Event → Bool
unfolding severity_order in_time_window
matches rule event =
    (option_eq rule.site_id none || option_eq rule.site_id (some event.site_id))
    && (is_empty rule.event_types || elem event.event_type rule.event_types)
    && leb (severity_order rule.min_severity) (severity_order event.severity)
    && (is_empty rule.cameras || elem event.camera_id rule.cameras)
    && in_optional_window event.timestamp rule.time_window
    && zone_fits event.zone rule.zones

abbrev pub is_key : AlertRule → Event → Cooldown → Bool
is_key rule event c =
    c.rule_id == rule.id && c.camera_id == event.camera_id && c.event_type == event.event_type

pub is_in_cooldown : ℕ → AlertRule → Event → List Cooldown → Bool
is_in_cooldown now rule event = any (λ c. is_key rule event c && ltb now c.expires)

pub set_cooldown : ℕ → AlertRule → Event → List Cooldown → List Cooldown
set_cooldown now rule event cooldowns =
    record {
      rule_id = rule.id;
      camera_id = event.camera_id;
      event_type = event.event_type;
      expires = now + rule.cooldown_seconds;
    }
    ∷ keep (λ c. not (is_key rule event c)) cooldowns

abbrev pub is_active : AlertRule → Bool
is_active rule = rule.enabled && not rule.deleted

-- The rungs of `enumerate(escalation)` from a position on that should fire now. The age that the
-- source passes is `now - timestamp`, which is negative for an event of the future.
pub due_from : ℕ → List Rung → (timestamp now : ℕ) → List ℕ → List (ℕ × Rung)
due_from index [] timestamp now fired = []
due_from index (rung ∷ rungs) timestamp now fired =
    let rest = due_from (suc index) rungs timestamp now fired in
    if elem index fired then rest else elim rung.after_seconds [
      | none ↦ rest
      | some after ↦ if leb (timestamp + after) now then (index, rung) ∷ rest else rest
    ]

pub due_rungs : List Rung → (timestamp now : ℕ) → List ℕ → List (ℕ × Rung)
unfolding due_from
due_rungs escalation = due_from 0 escalation

-- `_fired_rungs`: the set, as a list of its members.
pub fired_rungs : ℕ → ℕ → List AlertHistory → List ℕ
fired_rungs event_id rule_id [] = []
fired_rungs event_id rule_id (h ∷ history) =
    let rest = fired_rungs event_id rule_id history in
    if h.event_id == event_id && h.rule_id == rule_id
    then elim h.escalation_rung [ none ↦ rest | some r ↦ r ∷ rest ]
    else rest

abbrev pub max_lookback : ℕ
max_lookback = 86_400

-- `Event.status.notin_(ACKNOWLEDGED_STATUSES)` and the cutoff.
abbrev pub is_waiting : ℕ → Event → Bool
is_waiting now event =
    (elim event.status [ new ↦ true | _ ↦ false ]) && leb now (event.timestamp + max_lookback)

module _ (send : Contact → Event → AlertRule → Bool) where
  -- The loop over contacts: a notification and a row of history for each.
  pub notify : Option ℕ → AlertRule → Event → List Contact → List AlertHistory
  notify rung rule event = map (λ c. record {
    org_id = event.org_id;
    rule_id = rule.id;
    event_id = event.id;
    channel = c.channel;
    recipient = c.recipient;
    sent = send c event rule;
    escalation_rung = rung;
  })

  -- `evaluate_event`, over the rules that its query gives: the rows it adds, and the cooldowns.
  pub evaluate_rules :
      ℕ → Event → List AlertRule → List Cooldown → List AlertHistory × List Cooldown
  evaluate_rules now event [] cooldowns = ([], cooldowns)
  evaluate_rules now event (rule ∷ rules) cooldowns =
      let fires = matches rule event && not (is_in_cooldown now rule event cooldowns) in
      let (rows, cooldowns') =
        evaluate_rules now event rules
          (if fires then set_cooldown now rule event cooldowns else cooldowns) in
      ((if fires then notify none rule event rule.notify_contacts ++ rows else rows), cooldowns')

  pub evaluate_event :
      ℕ → Event → List AlertRule → List Cooldown → List AlertHistory × List Cooldown
  evaluate_event now event rules =
      evaluate_rules now event (keep (λ r. r.org_id == event.org_id && is_active r) rules)

  -- The loop over the rungs that are due.
  pub climb : AlertRule → Event → List (ℕ × Rung) → List AlertHistory
  climb rule event [] = []
  climb rule event ((index, rung) ∷ rungs) =
      notify (some index) rule event rung.contacts ++ climb rule event rungs

  -- One event and one rule of `sweep`: the history after it.
  pub sweep_rule : ℕ → Event → AlertRule → List AlertHistory → List AlertHistory
  sweep_rule now event rule history =
      if rule.org_id == event.org_id && matches rule event
      then history
        ++ climb rule event
            (due_rungs rule.escalation event.timestamp now (fired_rungs event.id rule.id history))
      else history

  pub sweep_rules : ℕ → Event → List AlertRule → List AlertHistory → List AlertHistory
  sweep_rules now event [] history = history
  sweep_rules now event (rule ∷ rules) history =
      sweep_rules now event rules (sweep_rule now event rule history)

  pub sweep_events : ℕ → List Event → List AlertRule → List AlertHistory → List AlertHistory
  sweep_events now [] rules history = history
  sweep_events now (event ∷ events) rules history =
      sweep_events now events rules (sweep_rules now event rules history)

  -- `sweep`: the history after it; the number that it returns is that of the rows it adds.
  pub sweep : ℕ → List Event → List AlertRule → List AlertHistory → List AlertHistory
  unfolding sweep_events
  sweep now events rules history =
      sweep_events now (keep (is_waiting now) events) (keep is_active rules) history
