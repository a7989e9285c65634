-- ===== src/Spend/Tests.antt =====
-- The theorems on spending at a budget of 10 for the organisation and 6 for the site.
use nightfury.Prelude.{ℕ, List, Bool, ◌≤◌, [], ◌∷◌, ◌≡◌, inl, inr, refl, some, true, false, arith}
use nightfury.Prelude.Dict.{lookup, insert}
use nightfury.Spend.{Counters, SpendTracker, charge, charge_org, try_charge}
use nightfury.Spend.Race.{
  World, accepted, unsited_accepted, charge_unsited_within, site_spent_sum, charge_site_within,
  charge_org_within, Reach, here, next, advance_call, started, spent_sum,
}
use nightfury.Spend.Race.Caps.{race_within_caps, race_settles}

abbrev tracker : SpendTracker
tracker = record { cap = 10; site_cap = some 6 }

abbrev counters : Counters
counters = record { org = (1, 8) ∷ []; site = (3, 2) ∷ [] }

-- The site has room for 3, the organisation has not.
refused : (try_charge tracker 1 3 (some 3) counters).1 ≡ false
unfolding try_charge charge_org charge lookup insert
refused = refl

accepted_2 : (try_charge tracker 1 2 (some 3) counters).1 ≡ true
unfolding try_charge charge_org charge lookup insert
accepted_2 = refl

-- A call of 4 for the site and one of 5 for no site, which go through.
abbrev spent_9 : World
spent_9 = record {
  site_total = 4;
  org_total = 9;
  calls =
      record { cost = 4; phase = accepted } ∷ record { cost = 5; phase = unsited_accepted } ∷ [];
}

abbrev asked : List (ℕ × Bool)
asked = (4, true) ∷ (5, false) ∷ []

spent_9-Reach : Reach 6 10 (started true asked) spent_9
unfolding advance_call
spent_9-Reach =
    next
      (next (next here (charge_site_within 0 refl refl (omega arith)))
        (charge_unsited_within 1 refl refl (omega arith)))
      (charge_org_within 0 refl refl (omega arith))

race_within_caps_example : (spent_sum spent_9.calls ≤ 10) × (site_spent_sum spent_9.calls ≤ 6)
race_within_caps_example = race_within_caps 6 10 true asked spent_9-Reach

race_settles_example :
    (spent_9.site_total ≡ site_spent_sum spent_9.calls)
    × (spent_9.org_total ≡ spent_sum spent_9.calls)
race_settles_example = race_settles 6 10 true asked spent_9-Reach (inl refl, (inr (inr refl), tt))
