-- ===== src/Assistant/Reported.antt =====
-- What the result of a turn reports of its tools.
use nightfury.Prelude.{
  ℕ, zero, suc, ◌+◌, List, [], ◌∷◌, ◌++◌, map, ◌≡◌, refl, sym, ap, ◌∙◌, inl, inr, Option, none,
  some, Bool, Bool-cases, Option-cases, List-cases, option_list,
}
use mathlib.Core.List.{append_assoc, append-nil}
use nightfury.Spend.{Counters, SpendTracker, try_charge}
use nightfury.Assistant.{
  Registry, Wording, Response, Content, said, asked, model_turn, tool_result, FunctionCall,
  ToolResult, ChatTurn, Text, Outcome, finished, spend_cap_reached, generate_failed, Turn,
  first_parts, max_iterations, function_calls, dispatch, or_else, with_id, build_contents,
  run_calls, run_from, run_turn,
}

-- The proposals among the results of tools, in the order of the contents.
abbrev pub reported : List Content → List ℕ
reported [] = []
reported (said u t ∷ cs) = reported cs
reported (asked n t ∷ cs) = reported cs
reported (model_turn ps ∷ cs) = reported cs
reported (tool_result n r ∷ cs) = option_list r.proposal_id ++ reported cs

-- The last navigation among the results of tools.
abbrev pub navigated : Option ℕ → List Content → Option ℕ
navigated o [] = o
navigated o (said u t ∷ cs) = navigated o cs
navigated o (asked n t ∷ cs) = navigated o cs
navigated o (model_turn ps ∷ cs) = navigated o cs
navigated o (tool_result n r ∷ cs) = navigated (or_else r.navigate o) cs

reported-append : (xs ys : List Content) → reported (xs ++ ys) ≡ reported xs ++ reported ys
reported-append [] ys = refl
reported-append (said u t ∷ xs) ys = reported-append xs ys
reported-append (asked n t ∷ xs) ys = reported-append xs ys
reported-append (model_turn ps ∷ xs) ys = reported-append xs ys
reported-append (tool_result n r ∷ xs) ys =
    rw (reported-append xs ys)
      (sym (append_assoc (option_list r.proposal_id) (reported xs) (reported ys)))

navigated-append :
    (o : Option ℕ) (xs ys : List Content) → navigated o (xs ++ ys) ≡ navigated (navigated o xs) ys
navigated-append o [] ys = refl
navigated-append o (said u t ∷ xs) ys = navigated-append o xs ys
navigated-append o (asked n t ∷ xs) ys = navigated-append o xs ys
navigated-append o (model_turn ps ∷ xs) ys = navigated-append o xs ys
navigated-append o (tool_result n r ∷ xs) ys = navigated-append (or_else r.navigate o) xs ys

with_id-append : (o : Option ℕ) (ids : List ℕ) → with_id o ids ≡ ids ++ option_list o
with_id-append none ids = sym (append-nil ids)
with_id-append (some id) ids = refl

module _ (S : Type 0) (wording : Wording) (registry : Registry S) (is_space : ℕ → Bool)
    (generate : ℕ → List Content → Option Response) (spend : SpendTracker) (org_id cost : ℕ) where
  abbrev Tells : Turn S → Type 0
  Tells t = (t.proposal_ids ≡ reported t.contents) × (t.navigate ≡ navigated none t.contents)

  Tells-model :
      (t : Turn S) (ps : List (Option FunctionCall)) (c : Counters) (n : ℕ)
      → Tells t
      → Tells
          (record t { contents = t.contents ++ model_turn ps ∷ []; counters = c; generated = n })
  Tells-model t ps c n (ids, nav) = (
    ids ∙ sym (reported-append t.contents (model_turn ps ∷ []) ∙ append-nil (reported t.contents)),
    nav ∙ sym (navigated-append none t.contents (model_turn ps ∷ [])),
  )

  Tells-result :
      (t : Turn S) (name : ℕ) (r : ToolResult) (s : S)
      → Tells t
      → Tells (record t {
        contents = t.contents ++ tool_result name r ∷ [];
        proposal_ids = with_id r.proposal_id t.proposal_ids;
        navigate = or_else r.navigate t.navigate;
        state = s;
      })
  Tells-result t name r s (ids, nav) = (
    with_id-append r.proposal_id t.proposal_ids
        ∙ ap (λ l. l ++ option_list r.proposal_id) ids
        ∙ sym (
            reported-append t.contents (tool_result name r ∷ [])
            ∙ ap (λ l. reported t.contents ++ l) (append-nil (option_list r.proposal_id))),
    ap (or_else r.navigate) nav ∙ sym (navigated-append none t.contents (tool_result name r ∷ [])),
  )

  run_calls-Tells :
      (calls : List FunctionCall) (t : Turn S)
      → Tells t
      → Tells (run_calls S wording registry is_space generate spend org_id cost calls t)
  unfolding run_calls
  run_calls-Tells [] t h = h
  run_calls-Tells (call ∷ calls) t h =
      let (r, s) = dispatch S wording registry call.name call.args t.state in
      run_calls-Tells calls _ (Tells-result t call.name r s h)

  abbrev pub Reports : Outcome → Turn S → Type 0
  Reports spend_cap_reached t = Unit
  Reports generate_failed t = Unit
  Reports (finished r) t =
      (r.proposal_ids ≡ reported t.contents) × (r.navigate ≡ navigated none t.contents)

  run_from-Reports :
      (left turns : ℕ) (t : Turn S)
      → Tells t
      → let (o, t') =
          run_from S wording registry is_space generate spend org_id cost left turns t in
        Reports o t'
  unfolding run_from
  run_from-Reports zero turns t h = h
  run_from-Reports (suc left) turns t h =
      elim (Bool-cases (try_charge spend org_id cost none t.counters).1) [
        | inr e ↦ rw (e, run_from) tt
        | inl e ↦ elim (Option-cases (generate turns t.contents)) [
          | inl g ↦ rw (e, g, run_from) tt
          | inr (response, g) ↦ elim (List-cases (function_calls response)) [
            | inl f ↦ rw (e, g, f, run_from) h
            | inr (call, calls, f) ↦
                let next : Turn S = record t {
                  contents = t.contents ++ model_turn (first_parts response.candidates) ∷ [];
                  counters = (try_charge spend org_id cost none t.counters).0;
                  generated = t.generated + 1;
                } in
                let told = run_calls-Tells (call ∷ calls) next (
                  Tells-model t (first_parts response.candidates) next.counters next.generated h) in
                rw (e, g, f, run_from) (run_from-Reports left (turns + 1) _ told)
          ]
        ]
      ]

reported-history :
    (history : List ChatTurn) → reported (map (λ t. said t.by_user t.content) history) ≡ []
reported-history [] = refl
reported-history (t ∷ history) = reported-history history

navigated-history :
    (history : List ChatTurn) → navigated none (map (λ t. said t.by_user t.content) history) ≡ none
navigated-history [] = refl
navigated-history (t ∷ history) = navigated-history history

-- A turn that finishes reports the proposals that its tools returned, each once and in order, and the
-- navigation that a tool returned last.
pub run_turn-Reports :
    (S : Type 0) (wording : Wording) (registry : Registry S) (is_space : ℕ → Bool)
    (generate : ℕ → List Content → Option Response) (spend : SpendTracker) (org_id cost : ℕ)
    (now : ℕ) (history : List ChatTurn) (user_message : Text) (counters : Counters) (s : S)
    → let (o, t) =
        run_turn S wording registry is_space generate spend org_id cost now history user_message
          counters s in
      Reports S wording registry is_space generate spend org_id cost o t
unfolding run_turn build_contents
run_turn-Reports S wording registry is_space generate spend org_id cost now history user_message
      counters s =
    let told = map (λ t. said t.by_user t.content) history in
    run_from-Reports S wording registry is_space generate spend org_id cost max_iterations 0 _ (
      sym (
          reported-append told (asked now user_message ∷ [])
          ∙ append-nil (reported told)
          ∙ reported-history history),
      sym (navigated-append none told (asked now user_message ∷ []) ∙ navigated-history history),
    )
