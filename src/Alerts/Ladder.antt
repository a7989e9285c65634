-- ===== src/Alerts/Ladder.antt =====
-- Sweeps of the escalation ladder that are run twice.
use nightfury.Prelude.{
  ℕ, suc, ◌+◌, List, [], ◌∷◌, ◌++◌, some, Bool, true, false, Bool-cases, Option-cases, List-cases,
  ◌&&◌, ◌||◌, leb, ◌==◌, ==_refl, keep, elem, ◌≡◌, refl, ap, ◌∙◌, inl, inr, In, here, there, All,
  arith,
}
use mathlib.Core.Path.{subst}
use nightfury.Alerts.{
  Event, AlertRule, AlertHistory, Rung, Contact, matches, due_from, due_rungs, fired_rungs,
  is_waiting, is_active, notify, climb, sweep_rule, sweep_rules, sweep_events, sweep,
}

-- A history that records every rung that another one does.
abbrev Grown : List AlertHistory → List AlertHistory → Type 0
Grown h h' = (e r k : ℕ) → elem k (fired_rungs e r h) ≡ true → elem k (fired_rungs e r h') ≡ true

fired_rungs-append :
    (e r k : ℕ) (h x : List AlertHistory)
    → elem k (fired_rungs e r (h ++ x)) ≡ (elem k (fired_rungs e r h) || elem k (fired_rungs e r x))
unfolding fired_rungs
fired_rungs-append e r k [] x = refl
fired_rungs-append e r k (y ∷ h) x = ground (arith, fired_rungs-append e r k h x)

module _ (send : Contact → Event → AlertRule → Bool) (event : Event) (rule : AlertRule) where
  -- A rung that was climbed is recorded, unless it has no contact.
  climb-fired_rungs :
      (due : List (ℕ × Rung)) (k : ℕ) (rung : Rung) (c : Contact) (cs : List Contact)
      → In (k, rung) due
      → rung.contacts ≡ c ∷ cs
      → elem k (fired_rungs event.id rule.id (climb send rule event due)) ≡ true
  unfolding climb notify fired_rungs
  climb-fired_rungs ((k, rung) ∷ due) k' rung' c cs here e =
      rw e (ground (arith, ==_refl event.id, ==_refl rule.id))
  climb-fired_rungs ((j, other) ∷ due) k rung c cs (there m) e =
      fired_rungs-append event.id rule.id k (notify send (some j) rule event other.contacts)
        (climb send rule event due)
      ∙ ground (arith, climb-fired_rungs due k rung c cs m e)
  climb-fired_rungs [] k rung c cs m e = elim m [ ]

  due_from_there :
      (index : ℕ) (r : Rung) (rungs : List Rung) (now : ℕ) (fired : List ℕ) (x : ℕ × Rung)
      → In x (due_from (suc index) rungs event.timestamp now fired)
      → In x (due_from index (r ∷ rungs) event.timestamp now fired)
  unfolding due_from
  due_from_there index r rungs now fired x m = elim (Bool-cases (elem index fired)) [
    | inl q ↦ rw q m
    | inr q ↦ elim (Option-cases r.after_seconds) [
      | inl a ↦ rw (q, a) m
      | inr (after, a) ↦ elim (Bool-cases (leb (event.timestamp + after) now)) [
        | inl l ↦ rw (q, a, l) (there m)
        | inr l ↦ rw (q, a, l) m
      ]
    ]
  ]

  due_from_here :
      (index : ℕ) (r : Rung) (rungs : List Rung) (now after : ℕ) (fired : List ℕ)
      → elem index fired ≡ false
      → r.after_seconds ≡ some after
      → leb (event.timestamp + after) now ≡ true
      → In (index, r) (due_from index (r ∷ rungs) event.timestamp now fired)
  unfolding due_from
  due_from_here index r rungs now after fired q a l = simp (q, a, l) here

  -- Nothing is due any more where the history has every rung that was due.
  climb_again :
      (index : ℕ) (rungs : List Rung) (now : ℕ) (fired fired' : List ℕ)
      → ((k : ℕ) → elem k fired ≡ true → elem k fired' ≡ true)
      → ((k : ℕ) (rung : Rung) (c : Contact) (cs : List Contact)
          → In (k, rung) (due_from index rungs event.timestamp now fired)
          → rung.contacts ≡ c ∷ cs
          → elem k fired' ≡ true)
      → climb send rule event (due_from index rungs event.timestamp now fired') ≡ []
  unfolding climb due_from notify
  climb_again index [] now fired fired' grow done = refl
  climb_again index (rung ∷ rungs) now fired fired' grow done =
      let rest =
        climb_again (suc index) rungs now fired fired' grow
          (λ k r c cs m e. done k r c cs (due_from_there index rung rungs now fired (k, r) m) e) in
      elim (Bool-cases (elem index fired')) [
        | inl q ↦ rw q rest
        | inr q ↦ elim (Option-cases rung.after_seconds) [
          | inl a ↦ rw (q, a) rest
          | inr (after, a) ↦ elim (Bool-cases (leb (event.timestamp + after) now)) [
            | inr l ↦ rw (q, a, l) rest
            | inl l ↦ elim (List-cases rung.contacts) [
              | inl e ↦ rw (q, a, l, e) rest
              | inr (c, cs, e) ↦
                  let old : elem index fired ≡ false = elim (Bool-cases (elem index fired)) [
                    | inl p ↦ cc (grow index p)
                    | inr p ↦ p
                  ] in
                  cc (
                    done index rung c cs (due_from_here index rung rungs now after fired old a l) e)
            ]
          ]
        ]
      ]

  -- A history to which a sweep adds nothing for this event and rule.
  Quiet : ℕ → List AlertHistory → Type 0
  Quiet now h =
      (rule.org_id == event.org_id && matches rule event) ≡ true
      → climb send rule event
          (due_rungs rule.escalation event.timestamp now (fired_rungs event.id rule.id h))
        ≡ []

  append_nil : (h : List AlertHistory) → h ++ [] ≡ h
  append_nil [] = refl
  append_nil (x ∷ h) = ap (◌∷◌ x) (append_nil h)

  sweep_rule_same :
      (now : ℕ) (h : List AlertHistory) → Quiet now h → sweep_rule send now event rule h ≡ h
  unfolding sweep_rule Quiet
  sweep_rule_same now h q = elim (Bool-cases (rule.org_id == event.org_id && matches rule event)) [
    | inl e ↦ rw (e, sweep_rule) (ap (λ x. h ++ x) (q e) ∙ append_nil h)
    | inr e ↦ rw (e, sweep_rule) refl
  ]

  sweep_rule-Grown : (now : ℕ) (h : List AlertHistory) → Grown h (sweep_rule send now event rule h)
  unfolding sweep_rule
  sweep_rule-Grown now h e r k m =
      elim (Bool-cases (rule.org_id == event.org_id && matches rule event)) [
        | inl q ↦
            let rows =
              climb send rule event
                (due_rungs rule.escalation event.timestamp now (fired_rungs event.id rule.id h)) in
            rw (q, sweep_rule) (ground (arith, m, fired_rungs-append e r k h rows))
        | inr q ↦ rw (q, sweep_rule) m
      ]

  Quiet-Grown : (now : ℕ) (h h' : List AlertHistory) → Quiet now h → Grown h h' → Quiet now h'
  unfolding Quiet due_rungs fired_rungs
  Quiet-Grown now h h' q grow e =
      climb_again 0 rule.escalation now (fired_rungs event.id rule.id h)
        (fired_rungs event.id rule.id h') (grow event.id rule.id)
        (λ k rung c cs m n.
          let due =
            due_from 0 rule.escalation event.timestamp now (fired_rungs event.id rule.id h) in
          let recorded : elem k (fired_rungs event.id rule.id []) ≡ true =
            subst (λ x. elem k (fired_rungs event.id rule.id x) ≡ true) (q e)
              (climb-fired_rungs due k rung c cs m n) in
          cc)

  sweep_rule-Quiet :
      (now : ℕ) (h : List AlertHistory) → Quiet now (sweep_rule send now event rule h)
  unfolding Quiet due_rungs sweep_rule
  sweep_rule-Quiet now h e =
      let fired = fired_rungs event.id rule.id h in
      let due = due_from 0 rule.escalation event.timestamp now fired in
      let rows = climb send rule event due in
      let grown = fired_rungs-append event.id rule.id in
      rw e (
        climb_again 0 rule.escalation now fired (fired_rungs event.id rule.id (h ++ rows))
          (λ k m. ground (arith, m, grown k h rows))
          (λ k rung c cs m n.
            ground (arith, grown k h rows, climb-fired_rungs due k rung c cs m n)))

module _ (send : Contact → Event → AlertRule → Bool) (now : ℕ) where
  sweep_rules-Grown :
      (event : Event) (rules : List AlertRule) (h : List AlertHistory)
      → Grown h (sweep_rules send now event rules h)
  unfolding sweep_rules
  sweep_rules-Grown event [] h e r k m = m
  sweep_rules-Grown event (rule ∷ rules) h e r k m =
      sweep_rules-Grown event rules (sweep_rule send now event rule h) e r k
        (sweep_rule-Grown send event rule now h e r k m)

  sweep_events-Grown :
      (events : List Event) (rules : List AlertRule) (h : List AlertHistory)
      → Grown h (sweep_events send now events rules h)
  unfolding sweep_events
  sweep_events-Grown [] rules h e r k m = m
  sweep_events-Grown (event ∷ events) rules h e r k m =
      sweep_events-Grown events rules (sweep_rules send now event rules h) e r k
        (sweep_rules-Grown event rules h e r k m)

  sweep_rules-Quiet :
      (event : Event) (rules : List AlertRule) (h h' : List AlertHistory)
      → Grown (sweep_rules send now event rules h) h'
      → All (λ rule. Quiet send event rule now h') rules
  unfolding sweep_rules
  sweep_rules-Quiet event [] h h' g = tt
  sweep_rules-Quiet event (rule ∷ rules) h h' g =
      let first = sweep_rule send now event rule h in
      (
        Quiet-Grown send event rule now first h' (sweep_rule-Quiet send event rule now h)
            (λ e r k m. g e r k (sweep_rules-Grown event rules first e r k m)),
        sweep_rules-Quiet event rules first h' g,
      )

  sweep_rules_same :
      (event : Event) (rules : List AlertRule) (h : List AlertHistory)
      → All (λ rule. Quiet send event rule now h) rules
      → sweep_rules send now event rules h ≡ h
  unfolding sweep_rules
  sweep_rules_same event [] h q = refl
  sweep_rules_same event (rule ∷ rules) h (q, qs) =
      rw (sweep_rule_same send event rule now h q) (sweep_rules_same event rules h qs)

  sweep_events_same :
      (events : List Event) (rules : List AlertRule) (h h' : List AlertHistory)
      → Grown (sweep_events send now events rules h) h'
      → sweep_events send now events rules h' ≡ h'
  unfolding sweep_events
  sweep_events_same [] rules h h' g = refl
  sweep_events_same (event ∷ events) rules h h' g =
      let first = sweep_rules send now event rules h in
      rw
        (sweep_rules_same event rules h' (
          sweep_rules-Quiet event rules h h'
            (λ e r k m. g e r k (sweep_events-Grown events rules first e r k m))))
        (sweep_events_same events rules first h' g)

  -- A second sweep at the same time, over the same events and rules, adds no row to the
  -- history.
  pub sweep-once :
      (events : List Event) (rules : List AlertRule) (h : List AlertHistory)
      → sweep send now events rules (sweep send now events rules h) ≡ sweep send now events rules h
  unfolding sweep
  sweep-once events rules h =
      sweep_events_same (keep (is_waiting now) events) (keep is_active rules) h
        (sweep_events send now (keep (is_waiting now) events) (keep is_active rules) h)
        (λ e r k m. m)
