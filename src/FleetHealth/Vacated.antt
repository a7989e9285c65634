-- ===== src/FleetHealth/Vacated.antt =====
-- A sweep leaves no camera on an agent that was stale.
use nightfury.Prelude.{
  ℕ, List, [], ◌∷◌, ◌≡◌, ◌≢◌, ◌⊎◌, inl, inr, Option, some, true, false, In, here, there, All,
  All-In, All-map_list, All-of_In, Bool-cases, keep, keep-In, arith,
}
use nightfury.Prelude.Sort.{Distinct, Distinct-map}
use nightfury.Reconcile.{
  Camera, Agent, Fleet, selects_camera, is_online, apply_camera, plan_of, reconcile_site,
}
use nightfury.Reconcile.Rows.{reconcile_site-agents, apply_camera-id}
use nightfury.Reconcile.Assigned.{
  reconcile_site-cameras, reconcile_site-hosts, reconcile_site-other,
}
use nightfury.FleetHealth.{
  Organization, is_stale, mark_offline, marked, fail_over, fail_over_all, sweep,
}

-- The agent is offline, and no live camera that its reconciliation selects is on it.
record Vacated (a : Agent) (db : Fleet) : Type 0 where
  offline : All (λ b. b.id ≡ a.id → is_online b.status ≡ false) db.agents
  empty :
      (c : Camera)
      → In c db.cameras
      → selects_camera a.org_id a.site_id c ≡ true
      → c.agent_id ≢ some a.id

abbrev Known : Fleet → Type 0
Known db = Distinct (λ c. c.id) db.cameras

module _ (org_id : ℕ) (site : Option ℕ) (db : Fleet) where
  reconcile_site-Known : Known db → Known (reconcile_site org_id site db).1
  reconcile_site-Known d = rw (reconcile_site-cameras org_id site db) (
      Distinct-map (λ c. c.id) (apply_camera org_id site (plan_of org_id site db))
        (apply_camera-id org_id site (plan_of org_id site db)) db.cameras d)

  -- A camera behind the writes is on an agent that is online, or is as it was.
  reconcile_site-empty :
      (a : Agent) (c : Camera)
      → Known db
      → All (λ b. b.id ≡ a.id → is_online b.status ≡ false) db.agents
      → In c (reconcile_site org_id site db).1.cameras
      → (selects_camera org_id site c ≡ true) ⊎ (In c db.cameras → c.agent_id ≢ some a.id)
      → c.agent_id ≢ some a.id
  reconcile_site-empty a c d off m before e = elim (Bool-cases (selects_camera org_id site c)) [
    | inl sel ↦
        let (b, n, key, _, on, _, _) = reconcile_site-hosts org_id site db c a.id d m sel e in
        let down = All-In (λ b. b.id ≡ a.id → is_online b.status ≡ false) off n key in cc
    | inr out ↦ elim before [
      | inl sel ↦ cc
      | inr h ↦ h (reconcile_site-other org_id site db c m out) e
    ]
  ]

module _ (orgs : List Organization) where
  mark_offline-offline :
      (k : ℕ) (a : Agent) (b : Agent)
      → (b.id ≡ k → is_online b.status ≡ false)
      → (mark_offline a.id b).id ≡ k
      → is_online (mark_offline a.id b).status ≡ false
  unfolding mark_offline
  mark_offline-offline k a b h e = ground (arith, h)

  mark_offline_self :
      (a b : Agent)
      → (mark_offline a.id b).id ≡ a.id
      → is_online (mark_offline a.id b).status ≡ false
  unfolding mark_offline
  mark_offline_self a b e = ground arith

  fail_over-Known : (a : Agent) (db : Fleet) → Known db → Known (fail_over orgs a db).1
  unfolding fail_over
  fail_over-Known a db d = reconcile_site-Known a.org_id a.site_id (marked orgs a db) d

  fail_over-Vacated : (a : Agent) (db : Fleet) → Known db → Vacated a (fail_over orgs a db).1
  unfolding fail_over
  fail_over-Vacated a db d =
      let off =
        All-map_list (λ _. Unit {0}) (λ b. b.id ≡ a.id → is_online b.status ≡ false)
          (mark_offline a.id) db.agents (λ b _. mark_offline_self a b)
          (All-of_In _ _ (λ b _. tt)) in
      record {
        offline =
            reconcile_site-agents (λ b. b.id ≡ a.id → is_online b.status ≡ false) (λ _ _ b h. h)
              a.org_id a.site_id (marked orgs a db) off;
        empty = λ c m sel.
            reconcile_site-empty a.org_id a.site_id (marked orgs a db) a c d off m (inl sel);
      }

  fail_over-keeps :
      (a b : Agent) (db : Fleet) → Known db → Vacated a db → Vacated a (fail_over orgs b db).1
  unfolding fail_over
  fail_over-keeps a b db d v =
      let off =
        All-map_list (λ b. b.id ≡ a.id → is_online b.status ≡ false)
          (λ b. b.id ≡ a.id → is_online b.status ≡ false) (mark_offline b.id) db.agents
          (mark_offline-offline a.id b) v.offline in
      record {
        offline =
            reconcile_site-agents (λ b. b.id ≡ a.id → is_online b.status ≡ false) (λ _ _ b h. h)
              b.org_id b.site_id (marked orgs b db) off;
        empty = λ c m sel.
            reconcile_site-empty b.org_id b.site_id (marked orgs b db) a c d off m
              (inr (λ old. v.empty c old sel));
      }

  fail_over_all-keeps :
      (a : Agent) (agents : List Agent) (db : Fleet)
      → Known db
      → Vacated a db
      → Vacated a (fail_over_all orgs agents db).1
  unfolding fail_over_all
  fail_over_all-keeps a [] db d v = v
  fail_over_all-keeps a (b ∷ agents) db d v =
      fail_over_all-keeps a agents (fail_over orgs b db).1 (fail_over-Known b db d)
        (fail_over-keeps a b db d v)

  fail_over_all-Vacated :
      (a : Agent) (agents : List Agent) (db : Fleet)
      → Known db
      → In a agents
      → Vacated a (fail_over_all orgs agents db).1
  unfolding fail_over_all
  fail_over_all-Vacated a (b ∷ agents) db d here =
      fail_over_all-keeps b agents (fail_over orgs b db).1 (fail_over-Known b db d)
        (fail_over-Vacated b db d)
  fail_over_all-Vacated a (b ∷ agents) db d (there m) =
      fail_over_all-Vacated a agents (fail_over orgs b db).1 (fail_over-Known b db d) m
  fail_over_all-Vacated a [] db d m = elim m [ ]

-- With distinct camera ids, after a sweep every agent that was online and had not been seen for
-- five minutes is offline, and no live camera of its organisation, or of its site when it has one, is
-- assigned to it.
pub sweep-vacates :
    (orgs : List Organization) (now : ℕ) (db : Fleet) (a : Agent)
    → Distinct (λ c. c.id) db.cameras
    → In a db.agents
    → is_stale now a ≡ true
    → let db' = (sweep orgs now db).2 in
      ((b : Agent) → In b db'.agents → b.id ≡ a.id → is_online b.status ≡ false)
      × ((c : Camera)
          → In c db'.cameras
          → selects_camera a.org_id a.site_id c ≡ true
          → c.agent_id ≢ some a.id)
unfolding sweep
sweep-vacates orgs now db a d m s =
    let v =
      fail_over_all-Vacated orgs a (keep (is_stale now) db.agents) db d
        (keep-In (is_stale now) db.agents m s) in
    (λ b n. All-In (λ b. b.id ≡ a.id → is_online b.status ≡ false) v.offline n, v.empty)
