-- ===== src/Spend.antt =====
-- The daily spend cap: backend/app/services/digest/spend_tracker.py. Amounts are whole numbers of a
-- small unit, so that charges and refunds are exact. The counters are those of one day.
pub mod Charge
pub mod Race
mod Tests
use nightfury.Prelude.{ℕ, ◌+◌, ◌-◌, Option, none, some, Bool, true, false, ltb, if◌then◌else◌}
use nightfury.Prelude.Dict.{Dict, lookup, insert, get_or}

-- The Redis keys of `_key` and `_site_key` for the day, by organisation and by site.
pub record Counters : Type 0 where
  pub org : Dict ℕ
  pub site : Dict ℕ

pub record SpendTracker : Type 0 where
  pub cap : ℕ
  pub site_cap : Option ℕ

abbrev pub total_of : Dict ℕ → ℕ → ℕ
total_of counter key = get_or 0 (lookup key counter)

-- `_charge`: INCRBYFLOAT, and its reversal if the new total is over the cap.
unfoldable pub charge : Dict ℕ → ℕ → ℕ → ℕ → Dict ℕ × Bool
charge counter key cost cap =
    let new_total = total_of counter key + cost in
    let charged = insert key new_total counter in
    if ltb cap new_total
    then (insert key (total_of charged key - cost) charged, false)
    else (charged, true)

-- The organisation's charge, and the refund of the site if it fails.
unfoldable pub charge_org : SpendTracker → ℕ → ℕ → Option ℕ → Counters → Counters × Bool
charge_org t org_id cost charged_site c =
    let (org, ok) = charge c.org org_id cost t.cap in
    let c' = record c { org = org } in
    if ok then (c', true) else elim charged_site [
      | none ↦ (c', false)
      | some s ↦ (record c' { site = insert s (total_of c'.site s - cost) c'.site }, false)
    ]

abbrev pub capped_site : Option ℕ → Option ℕ → Option (ℕ × ℕ)
capped_site none cap = none
capped_site (some s) none = none
capped_site (some s) (some cap) = some (s, cap)

unfoldable pub try_charge : SpendTracker → ℕ → ℕ → Option ℕ → Counters → Counters × Bool
try_charge t org_id cost site_id c = elim (capped_site site_id t.site_cap) [
  | none ↦ charge_org t org_id cost none c
  | some (s, cap) ↦
      let (site, ok) = charge c.site s cost cap in
      let c' = record c { site = site } in
      if ok then charge_org t org_id cost (some s) c' else (c', false)
]
