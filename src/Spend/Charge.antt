-- ===== src/Spend/Charge.antt =====
-- A call of `try_charge` that runs alone.
use nightfury.Prelude.{
  ℕ, ◌+◌, ◌-◌, ◌≤◌, ◌<◌, ◌≡◌, ◌⊎◌, refl, Option, none, some, true, false, Bool-cases, Option-cases,
  inl, inr, arith, ◌==◌, if◌then◌else◌,
}
use nightfury.Prelude.Dict.{Dict, insert, lookup-insert}
use nightfury.Spend.{Counters, SpendTracker, total_of, charge, charge_org, capped_site, try_charge}

-- A charge that is refused leaves every total alone; one that goes through adds the cost to the one
-- total, which then is within the cap.
charge_lem :
    (counter : Dict ℕ) (key cost cap k : ℕ)
    → let (counter', ok) = charge counter key cost cap in
      total_of counter' k ≡ (
        if ok
        then (if k == key then total_of counter k + cost else total_of counter k)
        else total_of counter k)
unfolding charge
charge_lem counter key cost cap k =
    let charged = insert key (total_of counter key + cost) counter in
    ground (
      arith,
      lookup-insert key k (total_of counter key + cost) counter,
      lookup-insert key key (total_of counter key + cost) counter,
      lookup-insert key k (total_of charged key - cost) charged,
    )

charge-le-cap :
    (counter : Dict ℕ) (key cost cap : ℕ)
    → (charge counter key cost cap).1 ≡ true
    → total_of (charge counter key cost cap).0 key ≤ cap
unfolding charge
charge-le-cap counter key cost cap h =
    ground (arith, lookup-insert key key (total_of counter key + cost) counter)

charge_org-refused :
    (t : SpendTracker) (org_id cost : ℕ) (c : Counters) (k : ℕ)
    → let (c', ok) = charge_org t org_id cost none c in
      ok ≡ false → (total_of c'.org k ≡ total_of c.org k) × (total_of c'.site k ≡ total_of c.site k)
unfolding charge_org
charge_org-refused t org_id cost c k = ground (arith, charge_lem c.org org_id cost t.cap k)

-- The organisation's refusal refunds a site that was charged.
charge_org-refunds :
    (t : SpendTracker) (org_id cost s cap : ℕ) (c : Counters) (k : ℕ)
    → (charge c.site s cost cap).1 ≡ true
    → let (c', ok) =
        charge_org t org_id cost (some s) (record c { site = (charge c.site s cost cap).0 }) in
      ok ≡ false → (total_of c'.org k ≡ total_of c.org k) × (total_of c'.site k ≡ total_of c.site k)
unfolding charge_org
charge_org-refunds t org_id cost s cap c k h =
    let site = (charge c.site s cost cap).0 in
    ground (
      arith,
      charge_lem c.org org_id cost t.cap k,
      charge_lem c.site s cost cap k,
      charge_lem c.site s cost cap s,
      lookup-insert s k (total_of site s - cost) site,
    )

-- A call of `try_charge` that returns false leaves every total as it found it.
pub try_charge-refused :
    (t : SpendTracker) (org_id cost : ℕ) (site_id : Option ℕ) (c : Counters) (k : ℕ)
    → (try_charge t org_id cost site_id c).1 ≡ false
    → let c' = (try_charge t org_id cost site_id c).0 in
      (total_of c'.org k ≡ total_of c.org k) × (total_of c'.site k ≡ total_of c.site k)
unfolding try_charge
try_charge-refused t org_id cost site_id c k h =
    elim (Option-cases (capped_site site_id t.site_cap)) [
      | inl e ↦ rw (e, try_charge) (charge_org-refused t org_id cost c k (rw (e, try_charge) at h))
      | inr ((s, cap), e) ↦ elim (Bool-cases (charge c.site s cost cap).1) [
        | inl ok ↦
            rw (e, try_charge, ok)
              (charge_org-refunds t org_id cost s cap c k ok (rw (e, try_charge, ok) at h))
        | inr over ↦ rw (e, try_charge, over) (refl, ground (arith, charge_lem c.site s cost cap k))
      ]
    ]

charge_org-accepted :
    (t : SpendTracker) (org_id cost : ℕ) (o : Option ℕ) (c : Counters)
    → (charge_org t org_id cost o c).1 ≡ true
    → let c' = (charge_org t org_id cost o c).0 in
      (c'.site ≡ c.site)
      × (total_of c'.org org_id ≡ total_of c.org org_id + cost)
      × (total_of c'.org org_id ≤ t.cap)
unfolding charge_org
charge_org-accepted t org_id cost o c h =
    ground (arith, charge_lem c.org org_id cost t.cap org_id, charge-le-cap c.org org_id cost t.cap)

-- A call of `try_charge` that returns true adds the cost to the organisation's total, which is then
-- within its cap, and, if the call has a site and sites are capped, to that site's total, which is
-- then within the site's cap.
pub try_charge-accepted :
    (t : SpendTracker) (org_id cost : ℕ) (site_id : Option ℕ) (c : Counters)
    → (try_charge t org_id cost site_id c).1 ≡ true
    → let c' = (try_charge t org_id cost site_id c).0 in
      (total_of c'.org org_id ≡ total_of c.org org_id + cost)
      × (total_of c'.org org_id ≤ t.cap)
      × ((capped_site site_id t.site_cap ≡ none) × (c'.site ≡ c.site)
          ⊎ ((s : ℕ) × (cap : ℕ) × (capped_site site_id t.site_cap ≡ some (s, cap))
              × (total_of c'.site s ≡ total_of c.site s + cost)
              × (total_of c'.site s ≤ cap)))
unfolding try_charge
try_charge-accepted t org_id cost site_id c h =
    elim (Option-cases (capped_site site_id t.site_cap)) [
      | inl e ↦
          let (same, up, within) =
            charge_org-accepted t org_id cost none c (rw (e, try_charge) at h) in
          rw (e, try_charge) (up, within, inl (refl, same))
      | inr ((s, cap), e) ↦ elim (Bool-cases (charge c.site s cost cap).1) [
        | inl ok ↦
            let c' = record c { site = (charge c.site s cost cap).0 } in
            let (same, up, within) =
              charge_org-accepted t org_id cost (some s) c' (rw (e, try_charge, ok) at h) in
            rw (e, try_charge, ok)
              (
                up,
                within,
                inr (
                  s,
                  cap,
                  refl,
                  rw same (ground (arith, charge_lem c.site s cost cap s)),
                  rw same (charge-le-cap c.site s cost cap ok),
                ),
              )
        | inr over ↦ let never : false ≡ true = (rw (e, try_charge, over) at h) in cc
      ]
    ]

charge-over :
    (counter : Dict ℕ) (key cost cap : ℕ)
    → (charge counter key cost cap).1 ≡ false
    → cap < total_of counter key + cost
unfolding charge
charge-over counter key cost cap h = ground arith

-- Without a site, a charge is refused only where it would exceed the organisation's cap.
pub try_charge-over :
    (t : SpendTracker) (org_id cost : ℕ) (c : Counters)
    → (try_charge t org_id cost none c).1 ≡ false
    → t.cap < total_of c.org org_id + cost
unfolding try_charge charge_org
try_charge-over t org_id cost c h = ground (arith, charge-over c.org org_id cost t.cap)
