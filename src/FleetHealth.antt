-- ===== src/FleetHealth.antt =====
-- Failover of agents that stop reporting: backend/app/services/fleet_health.py. Times are in seconds;
-- a message is its recipient and the values that its text is made of.
pub mod Failover
pub mod Vacated
pub mod Notices
mod Tests
use nightfury.Prelude.{
  ℕ, ◌+◌, List, [], ◌∷◌, ◌++◌, map, Option, none, some, Bool, true, false, ◌&&◌, ltb, ◌==◌,
  option_eq, if◌then◌else◌, keep, first, length,
}
use nightfury.Reconcile.{
  Camera, Agent, AgentStatus, LoadStatus, Fleet, is_live, is_online, reconcile_site,
}

abbrev pub failover_after : ℕ
failover_after = 300

-- An entry of `whatsapp_alert_contacts`.
pub record Contact : Type 0 where
  pub number : Option ℕ
  pub enabled : Bool

pub record Organization : Type 0 where
  pub id : ℕ
  pub contacts : List Contact

pub record Message : Type 0 where
  pub number : ℕ
  pub machine_id : ℕ
  pub camera_count : ℕ
  pub unassigned : ℕ

abbrev pub seen_before : ℕ → Option ℕ → Bool
seen_before now none = false
seen_before now (some seen) = ltb (seen + failover_after) now

-- The statement of `sweep`.
abbrev pub is_stale : ℕ → Agent → Bool
is_stale now a = is_online a.status && seen_before now a.last_seen_at

abbrev pub is_on : ℕ → Camera → Bool
is_on agent_id c = option_eq c.agent_id (some agent_id) && is_live c.deleted_at

pub mark_offline : ℕ → Agent → Agent
mark_offline agent_id a =
    if a.id == agent_id
    then record a { status = AgentStatus.offline; load_state = LoadStatus.ok; load_reason = none }
    else a

abbrev pub enabled_number : Contact → List ℕ
enabled_number c = elim c.number [ none ↦ [] | some n ↦ if c.enabled then n ∷ [] else [] ]

pub enabled_numbers : List Contact → List ℕ
enabled_numbers [] = []
enabled_numbers (c ∷ contacts) = enabled_number c ++ enabled_numbers contacts

-- `_notify_coverage_gap`: the messages that it tries to send.
pub notify_coverage_gap : List Organization → Agent → ℕ → ℕ → List Message
unfolding enabled_numbers
notify_coverage_gap orgs agent camera_count unassigned =
    elim (first (λ o. o.id == agent.org_id) orgs) [
      | none ↦ []
      | some org ↦
          map
            (λ n. record {
              number = n;
              machine_id = agent.machine_id;
              camera_count = camera_count;
              unassigned = unassigned;
            })
            (enabled_numbers org.contacts)
    ]

module _ (orgs : List Organization) where
  abbrev pub marked : Agent → Fleet → Fleet
  marked agent db = record db { agents = map (mark_offline agent.id) db.agents }

  -- One round of the loop of `sweep`.
  pub fail_over : Agent → Fleet → List Message × Fleet
  unfolding notify_coverage_gap
  fail_over agent db =
      let camera_count = length (keep (is_on agent.id) db.cameras) in
      let (plan, db') = reconcile_site agent.org_id agent.site_id (marked agent db) in
      (notify_coverage_gap orgs agent camera_count (length plan.unassigned), db')

  pub fail_over_all : List Agent → Fleet → List Message × Fleet
  unfolding fail_over
  fail_over_all [] db = ([], db)
  fail_over_all (a ∷ agents) db =
      let (sent, db') = fail_over a db in
      let (more, db'') = fail_over_all agents db' in (sent ++ more, db'')

  -- The number of agents that were failed over, the messages, and the tables.
  pub sweep : ℕ → Fleet → ℕ × List Message × Fleet
  unfolding fail_over_all
  sweep now db =
      let stale = keep (is_stale now) db.agents in
      let (sent, db') = fail_over_all stale db in (length stale, sent, db')
