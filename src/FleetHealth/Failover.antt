-- ===== src/FleetHealth/Failover.antt =====
-- What a sweep leaves: no agent that is stale, and no camera on an agent that was.
use nightfury.Prelude.{
  ℕ, List, [], ◌∷◌, map, ◌≡◌, refl, true, All, All-In, All-map_list, All-of_In, keep, keep-In,
  keep-eq-nil, In-map, elem-In, elem, arith,
}
use nightfury.Reconcile.{Agent, Fleet}
use nightfury.Reconcile.Rows.{reconcile_site-agents}
use nightfury.FleetHealth.{
  Organization, is_stale, mark_offline, marked, fail_over, fail_over_all, sweep,
}

module _ (orgs : List Organization) (now : ℕ) where
  -- The stale agents are among those that are still to be failed over.
  abbrev Pending : List ℕ → Agent → Type 0
  Pending ids a = is_stale now a ≡ true → elem a.id ids ≡ true

  mark_offline-Pending :
      (k : ℕ) (ids : List ℕ) (a : Agent) → Pending (k ∷ ids) a → Pending ids (mark_offline k a)
  unfolding mark_offline
  mark_offline-Pending k ids a h s = ground (arith, h)

  fail_over-Pending :
      (a : Agent) (ids : List ℕ) (db : Fleet)
      → All (Pending (a.id ∷ ids)) db.agents
      → All (Pending ids) (fail_over orgs a db).1.agents
  unfolding fail_over
  fail_over-Pending a ids db h =
      reconcile_site-agents (Pending ids) (λ count version b h. h) a.org_id a.site_id
        (marked orgs a db)
        (All-map_list (Pending (a.id ∷ ids)) (Pending ids) (mark_offline a.id) db.agents
          (mark_offline-Pending a.id ids) h)

  fail_over_all-Pending :
      (agents : List Agent) (db : Fleet)
      → All (Pending (map (λ a. a.id) agents)) db.agents
      → All (Pending []) (fail_over_all orgs agents db).1.agents
  unfolding fail_over_all
  fail_over_all-Pending [] db h = h
  fail_over_all-Pending (a ∷ agents) db h =
      fail_over_all-Pending agents (fail_over orgs a db).1
        (fail_over-Pending a (map (λ a. a.id) agents) db h)

  no_stale : (agents : List Agent) → All (Pending []) agents → keep (is_stale now) agents ≡ []
  no_stale agents h =
      keep-eq-nil (is_stale now) agents (λ a m. ground (arith, All-In (Pending []) h m))

  stale_ids_lem :
      (agents : List Agent) → All (Pending (map (λ a. a.id) (keep (is_stale now) agents))) agents
  stale_ids_lem agents = All-of_In _ agents (λ a m s.
      elem-In a.id
        (In-map (λ a. a.id) (keep (is_stale now) agents) (keep-In (is_stale now) agents m s)))

-- A second sweep at the same time fails over no agent, sends nothing and changes no row.
pub sweep-idempotent :
    (orgs : List Organization) (now : ℕ) (db : Fleet)
    → let db' = (sweep orgs now db).2 in sweep orgs now db' ≡ (0, [], db')
unfolding sweep fail_over_all
sweep-idempotent orgs now db =
    let stale = keep (is_stale now) db.agents in
    rw
      (no_stale orgs now _
        (fail_over_all-Pending orgs now stale db (stale_ids_lem orgs now db.agents)))
      refl
