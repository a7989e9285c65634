-- ===== src/FleetHealth/Notices.antt =====
-- Who is told of an agent that a sweep fails over.
use nightfury.Prelude.{
  ℕ, List, [], ◌∷◌, ◌≡◌, refl, some, true, In, here, there, In-append_left, In-append_right, In-map,
  keep, keep-In, first, ◌==◌,
}
use nightfury.Reconcile.{Agent, Fleet}
use nightfury.FleetHealth.{
  Organization, Contact, Message, is_stale, enabled_number, enabled_numbers, notify_coverage_gap,
  fail_over, fail_over_all, sweep,
}

enabled_numbers-In :
    (contacts : List Contact) (c : Contact) (n : ℕ)
    → In c contacts
    → c.number ≡ some n
    → c.enabled ≡ true
    → In n (enabled_numbers contacts)
unfolding enabled_numbers
enabled_numbers-In (x ∷ contacts) c n here e on =
    In-append_left (enabled_numbers contacts) (rw (e, on) here)
enabled_numbers-In (x ∷ contacts) c n (there m) e on =
    In-append_right (enabled_number x) (enabled_numbers-In contacts c n m e on)
enabled_numbers-In [] c n m e on = elim m [ ]

module _ (orgs : List Organization) (a : Agent) (org : Organization) (c : Contact) (n : ℕ)
    (found : first (λ o. o.id == a.org_id) orgs ≡ some org) (listed : In c org.contacts)
    (number : c.number ≡ some n) (on : c.enabled ≡ true) where
  -- A message about the agent to the contact.
  abbrev Told : List Message → Type 0
  Told sent = (m : Message) × In m sent × (m.number ≡ n) × (m.machine_id ≡ a.machine_id)

  notify_coverage_gap-Told : (count lost : ℕ) → Told (notify_coverage_gap orgs a count lost)
  unfolding notify_coverage_gap
  notify_coverage_gap-Told count lost =
      rw (found, notify_coverage_gap)
        (_, In-map _ _ (enabled_numbers-In org.contacts c n listed number on), refl, refl)

  fail_over_all-Told :
      (agents : List Agent) (db : Fleet) → In a agents → Told (fail_over_all orgs agents db).0
  unfolding fail_over_all fail_over
  fail_over_all-Told (x ∷ agents) db here =
      let (m, k, to, about) = notify_coverage_gap-Told _ _ in (m, In-append_left _ k, to, about)
  fail_over_all-Told (x ∷ agents) db (there m) =
      let (msg, k, to, about) = fail_over_all-Told agents _ m in
      (msg, In-append_right (fail_over orgs x db).0 k, to, about)
  fail_over_all-Told [] db m = elim m [ ]

-- A sweep sends a message about each agent that was online and had not been seen for five minutes,
-- to each number that its organisation has listed and enabled.
pub sweep-notifies :
    (orgs : List Organization) (now : ℕ) (db : Fleet) (a : Agent) (org : Organization) (c : Contact)
    (n : ℕ)
    → In a db.agents
    → is_stale now a ≡ true
    → first (λ o. o.id == a.org_id) orgs ≡ some org
    → In c org.contacts
    → c.number ≡ some n
    → c.enabled ≡ true
    → (m : Message) × In m (sweep orgs now db).1 × (m.number ≡ n) × (m.machine_id ≡ a.machine_id)
unfolding sweep
sweep-notifies orgs now db a org c n m s found listed number on =
    fail_over_all-Told orgs a org c n found listed number on (keep (is_stale now) db.agents) db
      (keep-In (is_stale now) db.agents m s)
