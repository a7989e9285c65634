-- ===== src/Spend/Race/Caps.antt =====
-- What concurrent charges keep to, however their commands interleave.
use nightfury.Prelude.{
  ℕ, zero, suc, ◌+◌, ◌≤◌, List, [], ◌∷◌, get_elem?, total, All, ◌≡◌, ◌∙◌, inl, inr, sym, refl, some,
  Bool, true, false, arith,
}
use nightfury.Spend.Race.{
  Phase, start, site_over, site_charged, org_over, org_refunded, accepted, rejected, unsited,
  unsited_over, unsited_accepted, Call, World, advance_call, Step, charge_site_over,
  charge_site_within, refund_site_over, charge_org_over, charge_org_within, refund_org, refund_site,
  charge_unsited_over, charge_unsited_within, refund_unsited, Reach, here, next, on_site, on_org,
  spent, site_spent, site_sum, org_sum, spent_sum, site_spent_sum, held, held_sum, first_phase,
  started, Returned,
}

total-advance_call :
    (f : Phase → ℕ → ℕ) (i : ℕ) (p q : Phase) (cs : List Call) (c : Call)
    → get_elem? cs i ≡ some c
    → c.phase ≡ q
    → total (λ x. f x.phase x.cost) (advance_call i p cs) + f q c.cost
      ≡ total (λ x. f x.phase x.cost) cs + f p c.cost
unfolding advance_call
total-advance_call f i p q [] c e ph = cc
total-advance_call f zero p q (x ∷ cs) c e ph =
    let same : f x.phase x.cost ≡ f q c.cost = cc in
    let cost : f p x.cost ≡ f p c.cost = cc in omega arith
total-advance_call f (suc i) p q (x ∷ cs) c e ph =
    omega (arith, total-advance_call f i p q cs c e ph)

module _ (f g : Phase → ℕ → ℕ) (le : (p : Phase) (n : ℕ) → f p n ≤ g p n) where
  total_mono :
      (cs : List Call) → total (λ c. f c.phase c.cost) cs ≤ total (λ c. g c.phase c.cost) cs
  total_mono [] = omega arith
  total_mono (c ∷ cs) = omega (arith, le c.phase c.cost, total_mono cs)

spent-le-org : (p : Phase) (n : ℕ) → spent p n ≤ on_org p n
spent-le-org p n = ground arith

site_spent-le-held : (p : Phase) (n : ℕ) → site_spent p n ≤ held p n
site_spent-le-held p n = ground arith

held-le-site : (p : Phase) (n : ℕ) → held p n ≤ on_site p n
held-le-site p n = ground arith

module _ (site_cap cap : ℕ) where
  -- Each counter holds what the calls have added to it; what the site let through is within the
  -- site's cap, and what was accepted within the organisation's.
  pub record IsSafe (w : World) : Type 0 where
    pub site_exact : w.site_total ≡ site_sum w.calls
    pub org_exact : w.org_total ≡ org_sum w.calls
    pub within_org : spent_sum w.calls ≤ cap
    pub within_site : held_sum w.calls ≤ site_cap

  -- One call moves from phase `q` to phase `p`, and the counters follow it.
  move :
      {w : World} (i : ℕ) (p q : Phase) {c : Call} (site_total org_total : ℕ)
      → get_elem? w.calls i ≡ some c
      → c.phase ≡ q
      → site_total + on_site q c.cost ≡ w.site_total + on_site p c.cost
      → org_total + on_org q c.cost ≡ w.org_total + on_org p c.cost
      → spent_sum w.calls + spent p c.cost ≤ cap + spent q c.cost
      → held_sum w.calls + held p c.cost ≤ site_cap + held q c.cost
      → IsSafe w
      → IsSafe (record {
        site_total = site_total;
        org_total = org_total;
        calls = advance_call i p w.calls;
      })
  move {w} i p q {c} s o at ph hs ho hp hh v = record {
    site_exact = omega (arith, total-advance_call on_site i p q w.calls c at ph, v.site_exact);
    org_exact = omega (arith, total-advance_call on_org i p q w.calls c at ph, v.org_exact);
    within_org = omega (arith, total-advance_call spent i p q w.calls c at ph);
    within_site = omega (arith, total-advance_call held i p q w.calls c at ph);
  }

  on_site-le :
      {w : World} (i : ℕ) (q : Phase) {c : Call}
      → get_elem? w.calls i ≡ some c
      → c.phase ≡ q
      → IsSafe w
      → on_site q c.cost ≤ w.site_total
  on_site-le {w} i q {c} at ph v =
      omega (arith, total-advance_call on_site i rejected q w.calls c at ph, v.site_exact)

  on_org-le :
      {w : World} (i : ℕ) (q : Phase) {c : Call}
      → get_elem? w.calls i ≡ some c
      → c.phase ≡ q
      → IsSafe w
      → on_org q c.cost ≤ w.org_total
  on_org-le {w} i q {c} at ph v =
      omega (arith, total-advance_call on_org i rejected q w.calls c at ph, v.org_exact)

  Step-IsSafe : {w v : World} → Step site_cap cap w v → IsSafe w → IsSafe v
  Step-IsSafe (charge_site_over i at ph over) v =
      move i site_over start _ _ at ph (omega arith) (omega arith) (omega (arith, v.within_org))
        (omega (arith, v.within_site)) v
  Step-IsSafe {w} (charge_site_within i at ph fits) v =
      let room = total_mono held on_site held-le-site w.calls in
      move i site_charged start _ _ at ph (omega arith) (omega arith) (omega (arith, v.within_org))
        (omega (arith, v.site_exact)) v
  Step-IsSafe (refund_site_over i at ph) v =
      let paid = on_site-le i site_over at ph v in
      move i rejected site_over _ _ at ph (omega arith) (omega arith) (omega (arith, v.within_org))
        (omega (arith, v.within_site)) v
  Step-IsSafe (charge_org_over i at ph over) v =
      move i org_over site_charged _ _ at ph (omega arith) (omega arith)
        (omega (arith, v.within_org)) (omega (arith, v.within_site)) v
  Step-IsSafe {w} (charge_org_within i at ph fits) v =
      let room = total_mono spent on_org spent-le-org w.calls in
      move i accepted site_charged _ _ at ph (omega arith) (omega arith)
        (omega (arith, v.org_exact)) (omega (arith, v.within_site)) v
  Step-IsSafe (refund_org i at ph) v =
      let paid = on_org-le i org_over at ph v in
      move i org_refunded org_over _ _ at ph (omega arith) (omega arith)
        (omega (arith, v.within_org)) (omega (arith, v.within_site)) v
  Step-IsSafe (refund_site i at ph) v =
      let paid = on_site-le i org_refunded at ph v in
      move i rejected org_refunded _ _ at ph (omega arith) (omega arith)
        (omega (arith, v.within_org)) (omega (arith, v.within_site)) v
  Step-IsSafe (charge_unsited_over i at ph over) v =
      move i unsited_over unsited _ _ at ph (omega arith) (omega arith)
        (omega (arith, v.within_org)) (omega (arith, v.within_site)) v
  Step-IsSafe {w} (charge_unsited_within i at ph fits) v =
      let room = total_mono spent on_org spent-le-org w.calls in
      move i unsited_accepted unsited _ _ at ph (omega arith) (omega arith)
        (omega (arith, v.org_exact)) (omega (arith, v.within_site)) v
  Step-IsSafe (refund_unsited i at ph) v =
      let paid = on_org-le i unsited_over at ph v in
      move i rejected unsited_over _ _ at ph (omega arith) (omega arith)
        (omega (arith, v.within_org)) (omega (arith, v.within_site)) v

  Reach-IsSafe : {w v : World} → Reach site_cap cap w v → IsSafe w → IsSafe v
  Reach-IsSafe here h = h
  Reach-IsSafe (next r st) h = Step-IsSafe st (Reach-IsSafe r h)

-- A measure of a call that is nothing before its first command.
abbrev Fresh : (Phase → ℕ → ℕ) → Type 0
Fresh f = ((n : ℕ) → f start n ≡ 0) × ((n : ℕ) → f unsited n ≡ 0)

Fresh-first_phase :
    (f : Phase → ℕ → ℕ) (has_site has_site_cap : Bool) (n : ℕ)
    → Fresh f
    → f (first_phase has_site has_site_cap) n ≡ 0
Fresh-first_phase f true true n h = h.0 n
Fresh-first_phase f true false n h = h.1 n
Fresh-first_phase f false has_site_cap n h = h.1 n

total-started :
    (f : Phase → ℕ → ℕ) (has_site_cap : Bool) (asked : List (ℕ × Bool))
    → Fresh f
    → total (λ c. f c.phase c.cost) (started has_site_cap asked).calls ≡ 0
total-started f has_site_cap [] h = refl
total-started f has_site_cap ((n, has_site) ∷ asked) h =
    omega
      (arith, Fresh-first_phase f has_site has_site_cap n h, total-started f has_site_cap asked h)

started-IsSafe :
    (site_cap cap : ℕ) (has_site_cap : Bool) (asked : List (ℕ × Bool))
    → IsSafe site_cap cap (started has_site_cap asked)
started-IsSafe site_cap cap has_site_cap asked =
    let zero_at = λ (f : Phase → ℕ → ℕ) (h : Fresh f). total-started f has_site_cap asked h in
    record {
      site_exact = sym (zero_at on_site ((λ n. refl), (λ n. refl)));
      org_exact = sym (zero_at on_org ((λ n. refl), (λ n. refl)));
      within_org = omega (arith, zero_at spent ((λ n. refl), (λ n. refl)));
      within_site = omega (arith, zero_at held ((λ n. refl), (λ n. refl)));
    }

total-Returned :
    (f g : Phase → ℕ → ℕ) (cs : List Call)
    → ((n : ℕ) → f accepted n ≡ g accepted n)
    → ((n : ℕ) → f rejected n ≡ g rejected n)
    → ((n : ℕ) → f unsited_accepted n ≡ g unsited_accepted n)
    → All Returned cs
    → total (λ c. f c.phase c.cost) cs ≡ total (λ c. g c.phase c.cost) cs
total-Returned f g [] a r u h = refl
total-Returned f g (c ∷ cs) a r u (inl e, h) =
    simp (e, a c.cost, total-Returned f g cs a r u h) refl
total-Returned f g (c ∷ cs) a r u (inr (inl e), h) =
    simp (e, r c.cost, total-Returned f g cs a r u h) refl
total-Returned f g (c ∷ cs) a r u (inr (inr e), h) =
    simp (e, u c.cost, total-Returned f g cs a r u h) refl

-- However the commands of concurrent calls interleave, what the accepted calls have spent is within
-- the organisation's cap at every moment, and what those that charge the site have spent is within the
-- site's: all that have a site, if a site cap is set.
pub race_within_caps :
    (site_cap cap : ℕ) (has_site_cap : Bool) (asked : List (ℕ × Bool)) {w : World}
    → Reach site_cap cap (started has_site_cap asked) w
    → (spent_sum w.calls ≤ cap) × (site_spent_sum w.calls ≤ site_cap)
race_within_caps site_cap cap has_site_cap asked {w} r =
    let v = Reach-IsSafe site_cap cap r (started-IsSafe site_cap cap has_site_cap asked) in
    let mono = total_mono site_spent held site_spent-le-held w.calls in
    (v.within_org, omega (arith, v.within_site))

-- Once every concurrent call has returned, the organisation's counter holds exactly what the accepted
-- calls have spent, and the site's what those that charge the site have: no refused charge is
-- left behind.
pub race_settles :
    (site_cap cap : ℕ) (has_site_cap : Bool) (asked : List (ℕ × Bool)) {w : World}
    → Reach site_cap cap (started has_site_cap asked) w
    → All Returned w.calls
    → (w.site_total ≡ site_spent_sum w.calls) × (w.org_total ≡ spent_sum w.calls)
race_settles site_cap cap has_site_cap asked {w} r h =
    let v = Reach-IsSafe site_cap cap r (started-IsSafe site_cap cap has_site_cap asked) in
    (
      v.site_exact
          ∙ total-Returned on_site site_spent w.calls (λ n. refl) (λ n. refl) (λ n. refl) h,
      v.org_exact ∙ total-Returned on_org spent w.calls (λ n. refl) (λ n. refl) (λ n. refl) h,
    )
