-- ===== src/Assistant/Bounds.antt =====
-- How long a turn runs, and what it spends.
use nightfury.Prelude.{
  ℕ, zero, suc, ◌+◌, ◌*◌, ◌≤◌, ◌<◌, List, [], ◌∷◌, ◌++◌, ◌≡◌, refl, ap, ◌∙◌, ◌⊎◌, inl, inr, none,
  Option, Bool, false, arith, Bool-cases, Option-cases, List-cases,
}
use mathlib.Core.Path.{subst}
use nightfury.Spend.{Counters, SpendTracker, try_charge, total_of}
use nightfury.Spend.Charge.{try_charge-accepted, try_charge-refused, try_charge-over}
use nightfury.Assistant.{
  Registry, Wording, Response, Content, FunctionCall, ChatTurn, Text, Outcome, finished,
  spend_cap_reached, generate_failed, Turn, model_turn, first_parts, max_iterations, function_calls,
  run_calls, run_from, run_turn,
}

module _ (S : Type 0) (wording : Wording) (registry : Registry S) (is_space : ℕ → Bool)
    (generate : ℕ → List Content → Option Response) (spend : SpendTracker) (org_id cost : ℕ) where
  abbrev pub spent : Turn S → ℕ
  spent t = total_of t.counters.org org_id

  -- The tools do not touch the counters.
  run_calls-counters :
      (calls : List FunctionCall) (t : Turn S)
      → (run_calls S wording registry is_space generate spend org_id cost calls t).counters
        ≡ t.counters
  unfolding run_calls
  run_calls-counters [] t = refl
  run_calls-counters (call ∷ calls) t = run_calls-counters calls _

  run_calls-generated :
      (calls : List FunctionCall) (t : Turn S)
      → (run_calls S wording registry is_space generate spend org_id cost calls t).generated
        ≡ t.generated
  unfolding run_calls
  run_calls-generated [] t = refl
  run_calls-generated (call ∷ calls) t = run_calls-generated calls _

  -- How the loop may end after `n` calls of the model, with the iterations and the turns before it.
  abbrev pub Ends : (left turns n : ℕ) → Outcome → Turn S → Type 0
  Ends left turns n (finished r) t =
      (n ≤ left) × (r.turns ≡ turns + n) × ((r.stopped_early ≡ false) ⊎ (n ≡ left))
  Ends left turns n generate_failed t = (1 ≤ n) × (n ≤ left)
  Ends left turns n spend_cap_reached t = (n < left) × (spend.cap < spent t + cost)

  -- The calls of the model that the loop made, and their charges.
  abbrev pub Paid : (left turns before calls : ℕ) → Outcome → Turn S → Type 0
  Paid left turns before calls o t =
      (n : ℕ) × (t.generated ≡ calls + n) × (spent t ≡ before + n * cost) × Ends left turns n o t

  Ends-next :
      (left turns n : ℕ) (o : Outcome) (t : Turn S)
      → Ends left (turns + 1) n o t
      → Ends (suc left) turns (suc n) o t
  Ends-next left turns n (finished r) t (le, same, inl late) = (omega arith, omega arith, inl late)
  Ends-next left turns n (finished r) t (le, same, inr all_left) =
      (omega arith, omega arith, inr (omega arith))
  Ends-next left turns n generate_failed t (pos, le) = (omega arith, omega arith)
  Ends-next left turns n spend_cap_reached t (lt, over) = (omega arith, over)

  Paid-next :
      (left turns before calls : ℕ) (o : Outcome) (t : Turn S)
      → Paid left (turns + 1) (before + cost) (calls + 1) o t
      → Paid (suc left) turns before calls o t
  Paid-next left turns before calls o t (n, made, paid, ends) =
      (suc n, omega arith, omega arith, Ends-next left turns n o t ends)

  run_from-Paid :
      (left turns : ℕ) (t : Turn S)
      → let (o, t') =
          run_from S wording registry is_space generate spend org_id cost left turns t in
        Paid left turns (spent t) t.generated o t'
  unfolding run_from
  run_from-Paid zero turns t = (0, omega arith, omega arith, (omega arith, omega arith, inr refl))
  run_from-Paid (suc left) turns t =
      let c = (try_charge spend org_id cost none t.counters).0 in
      elim (Bool-cases (try_charge spend org_id cost none t.counters).1) [
        | inr e ↦
            let (same, _) = try_charge-refused spend org_id cost none t.counters org_id e in
            let over = try_charge-over spend org_id cost t.counters e in
            rw (e, run_from)
              (0, omega arith, omega (arith, same), (omega arith, omega (arith, same, over)))
        | inl e ↦
            let (up, _, _) = try_charge-accepted spend org_id cost none t.counters e in
            elim (Option-cases (generate turns t.contents)) [
              | inl g ↦
                  rw (e, g, run_from)
                    (1, omega arith, omega (arith, up), (omega arith, omega arith))
              | inr (response, g) ↦ elim (List-cases (function_calls response)) [
                | inl f ↦
                    rw (e, g, f, run_from)
                      (1, omega arith, omega (arith, up), (omega arith, omega arith, inl refl))
                | inr (call, calls, f) ↦
                    let start : Turn S = record t {
                      contents = t.contents ++ model_turn (first_parts response.candidates) ∷ [];
                      counters = c;
                      generated = t.generated + 1;
                    } in
                    let next =
                      run_calls S wording registry is_space generate spend org_id cost
                        (call ∷ calls) start in
                    let paid : spent next ≡ spent t + cost =
                      ap (λ k. total_of k.org org_id) (run_calls-counters (call ∷ calls) start)
                      ∙ up in
                    let made : next.generated ≡ t.generated + 1 =
                      run_calls-generated (call ∷ calls) start in
                    let (o, last) =
                      run_from S wording registry is_space generate spend org_id cost left
                        (turns + 1) next in
                    rw (e, g, f, run_from)
                      (Paid-next left turns (spent t) t.generated o last (
                        subst (λ b. Paid left (turns + 1) b (t.generated + 1) o last) paid
                          (subst (λ k. Paid left (turns + 1) (spent next) k o last) made
                            (run_from-Paid left (turns + 1) next))))
              ]
            ]
      ]

-- For some number of at most five, a turn calls the model that often, and the organisation's total
-- grows by the cost of as many charges, however the turn ends. A turn that finishes reports that
-- number, which is five if it stops early; one that meets the cap has called the model less than
-- five times, and one more charge would exceed the cap; one that ends as the model fails has called
-- it at least once.
pub run_turn-Paid :
    (S : Type 0) (wording : Wording) (registry : Registry S) (is_space : ℕ → Bool)
    (generate : ℕ → List Content → Option Response) (spend : SpendTracker) (org_id cost : ℕ)
    (now : ℕ) (history : List ChatTurn) (user_message : Text) (counters : Counters) (s : S)
    → let (o, t) =
        run_turn S wording registry is_space generate spend org_id cost now history user_message
          counters s in
      Paid S wording registry is_space generate spend org_id cost max_iterations 0
        (total_of counters.org org_id)
        0
        o
        t
unfolding run_turn
run_turn-Paid S wording registry is_space generate spend org_id cost now history user_message
      counters s =
    run_from-Paid S wording registry is_space generate spend org_id cost max_iterations 0 _
