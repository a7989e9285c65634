-- ===== src/Spend/Race.antt =====
-- Concurrent calls of `try_charge` for one organisation, each for one and the same site or for none.
-- Redis runs one command at a time, so a step is one command of one call; the commands of several
-- calls interleave freely.
pub mod Caps
use nightfury.Prelude.{
  ℕ, zero, suc, ◌+◌, ◌-◌, ◌≤◌, ◌<◌, List, [], ◌∷◌, get_elem?, total, map, All, ◌≡◌, ◌⊎◌, ◌∙◌, inl,
  inr, sym, refl, some, Bool, true, false, arith,
}

-- How far a call has come: before the site's INCRBYFLOAT; over the site's cap, with the refund due;
-- before the organisation's; over the organisation's cap; with the site's refund due; returned. A call
-- that does not charge the site is before the organisation's INCRBYFLOAT, over the
-- organisation's cap, or returned.
pub data Phase : Type 0 where
  start site_over site_charged org_over org_refunded accepted rejected : Phase
  unsited unsited_over unsited_accepted : Phase

pub record Call : Type 0 where
  pub cost : ℕ
  pub phase : Phase

pub record World : Type 0 where
  pub site_total : ℕ
  pub org_total : ℕ
  pub calls : List Call

-- The call at a position moves to a phase.
unfoldable pub advance_call : ℕ → Phase → List Call → List Call
advance_call i p [] = []
advance_call zero p (c ∷ cs) = record c { phase = p } ∷ cs
advance_call (suc i) p (c ∷ cs) = c ∷ advance_call i p cs

module _ (site_cap cap : ℕ) where
  -- One Redis command of call `i`.
  pub data Step (w : World) : World → Type 0 where
    charge_site_over :
        (i : ℕ) {c : Call}
        → get_elem? w.calls i ≡ some c
        → c.phase ≡ start
        → site_cap < w.site_total + c.cost
        → Step w (record w {
          site_total = w.site_total + c.cost;
          calls = advance_call i site_over w.calls;
        })
    charge_site_within :
        (i : ℕ) {c : Call}
        → get_elem? w.calls i ≡ some c
        → c.phase ≡ start
        → w.site_total + c.cost ≤ site_cap
        → Step w (record w {
          site_total = w.site_total + c.cost;
          calls = advance_call i site_charged w.calls;
        })
    refund_site_over :
        (i : ℕ) {c : Call}
        → get_elem? w.calls i ≡ some c
        → c.phase ≡ site_over
        → Step w (record w {
          site_total = w.site_total - c.cost;
          calls = advance_call i rejected w.calls;
        })
    charge_org_over :
        (i : ℕ) {c : Call}
        → get_elem? w.calls i ≡ some c
        → c.phase ≡ site_charged
        → cap < w.org_total + c.cost
        → Step w
            (record w { org_total = w.org_total + c.cost; calls = advance_call i org_over w.calls })
    charge_org_within :
        (i : ℕ) {c : Call}
        → get_elem? w.calls i ≡ some c
        → c.phase ≡ site_charged
        → w.org_total + c.cost ≤ cap
        → Step w
            (record w { org_total = w.org_total + c.cost; calls = advance_call i accepted w.calls })
    refund_org :
        (i : ℕ) {c : Call}
        → get_elem? w.calls i ≡ some c
        → c.phase ≡ org_over
        → Step w (record w {
          org_total = w.org_total - c.cost;
          calls = advance_call i org_refunded w.calls;
        })
    refund_site :
        (i : ℕ) {c : Call}
        → get_elem? w.calls i ≡ some c
        → c.phase ≡ org_refunded
        → Step w (record w {
          site_total = w.site_total - c.cost;
          calls = advance_call i rejected w.calls;
        })
    charge_unsited_over :
        (i : ℕ) {c : Call}
        → get_elem? w.calls i ≡ some c
        → c.phase ≡ unsited
        → cap < w.org_total + c.cost
        → Step w (record w {
          org_total = w.org_total + c.cost;
          calls = advance_call i unsited_over w.calls;
        })
    charge_unsited_within :
        (i : ℕ) {c : Call}
        → get_elem? w.calls i ≡ some c
        → c.phase ≡ unsited
        → w.org_total + c.cost ≤ cap
        → Step w (record w {
          org_total = w.org_total + c.cost;
          calls = advance_call i unsited_accepted w.calls;
        })
    refund_unsited :
        (i : ℕ) {c : Call}
        → get_elem? w.calls i ≡ some c
        → c.phase ≡ unsited_over
        → Step w
            (record w { org_total = w.org_total - c.cost; calls = advance_call i rejected w.calls })

  pub data Reach (w : World) : World → Type 0 where
    here : Reach w w
    next : {v u : World} → Reach w v → Step v u → Reach w u

-- What a call has added to each counter, and what it has spent, in all and of the site's budget.
abbrev pub on_site : Phase → ℕ → ℕ
on_site start n = 0
on_site rejected n = 0
on_site unsited n = 0
on_site unsited_over n = 0
on_site unsited_accepted n = 0
on_site _ n = n

abbrev pub on_org : Phase → ℕ → ℕ
on_org org_over n = n
on_org accepted n = n
on_org unsited_over n = n
on_org unsited_accepted n = n
on_org _ n = 0

abbrev pub spent : Phase → ℕ → ℕ
spent accepted n = n
spent unsited_accepted n = n
spent _ n = 0

abbrev pub site_spent : Phase → ℕ → ℕ
site_spent accepted n = n
site_spent _ n = 0

abbrev pub site_sum : List Call → ℕ
site_sum = total (λ c. on_site c.phase c.cost)

abbrev pub org_sum : List Call → ℕ
org_sum = total (λ c. on_org c.phase c.cost)

abbrev pub spent_sum : List Call → ℕ
spent_sum = total (λ c. spent c.phase c.cost)

abbrev pub site_spent_sum : List Call → ℕ
site_spent_sum = total (λ c. site_spent c.phase c.cost)

-- What a call holds of the site's budget once the site let it through.
abbrev pub held : Phase → ℕ → ℕ
held start n = 0
held rejected n = 0
held site_over n = 0
held unsited n = 0
held unsited_over n = 0
held unsited_accepted n = 0
held _ n = n

abbrev pub held_sum : List Call → ℕ
held_sum = total (λ c. held c.phase c.cost)

-- `site_id is not None and self.site_cap is not None`
abbrev pub first_phase : (has_site has_site_cap : Bool) → Phase
first_phase true true = start
first_phase true false = unsited
first_phase false has_site_cap = unsited

-- Calls of the given costs, with a site or without, none of which has run a command.
abbrev pub started : (has_site_cap : Bool) → List (ℕ × Bool) → World
started has_site_cap asked = record {
  site_total = 0;
  org_total = 0;
  calls = map (λ a. record { cost = a.0; phase = first_phase a.1 has_site_cap }) asked;
}

-- A call that has returned.
abbrev pub Returned : Call → Type 0
Returned c = (c.phase ≡ accepted) ⊎ ((c.phase ≡ rejected) ⊎ (c.phase ≡ unsited_accepted))
