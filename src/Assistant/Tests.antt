-- ===== src/Assistant/Tests.antt =====
-- The theorems on a turn, with a model that calls a tool once and then answers.
use nightfury.Prelude.{
  ℕ, List, [], ◌∷◌, zero, suc, ◌≡◌, ◌==◌, refl, Option, none, some, Bool, false,
}
use nightfury.Prelude.Dict.{lookup, insert}
use nightfury.Spend.{Counters, SpendTracker, try_charge, charge_org, charge, total_of}
use nightfury.Assistant.{
  Registry, Wording, Response, Content, returned, answer, finished, run_turn, run_from, run_calls,
  dispatch, function_calls, build_contents, strip, lstrip, max_iterations,
}
use nightfury.Assistant.Bounds.{Paid, run_turn-Paid}
use nightfury.Assistant.Reported.{Reports, run_turn-Reports}

abbrev wording : Wording
wording = record {
  unknown_tool = λ name. name ∷ [];
  bad_arguments = λ name e. e;
  tool_failed = λ name e. e;
}

-- Its one tool proposes, and counts its calls.
abbrev registry : Registry ℕ
registry =
    (
      3,
      λ args s. (
        returned (record { error = none; proposal_id = some 77; navigate = none; rest = [] }),
        s,
      ),
    )
    ∷ []

abbrev is_space : ℕ → Bool
is_space c = c == 32

abbrev generate : ℕ → List Content → Option Response
generate turn contents = elim turn [
  | zero ↦
      some (record { candidates = (some (record { name = 3; args = [] }) ∷ []) ∷ []; text = [] })
  | suc _ ↦ some (record { candidates = []; text = 32 ∷ 65 ∷ 32 ∷ [] })
]

abbrev spend : SpendTracker
spend = record { cap = 100; site_cap = none }

abbrev counters : Counters
counters = record { org = []; site = [] }

run_turn_run :
    (run_turn ℕ wording registry is_space generate spend 1 30 500 [] (66 ∷ []) counters 0).0
    ≡ finished (record {
      text = answer (65 ∷ []);
      proposal_ids = 77 ∷ [];
      navigate = none;
      turns = 2;
      stopped_early = false;
    })
unfolding run_turn run_from run_calls dispatch function_calls build_contents strip lstrip try_charge
    charge_org charge lookup insert
run_turn_run = refl

run_turn-Paid_example :
    Paid ℕ wording registry is_space generate spend 1 30 max_iterations 0
      (total_of counters.org 1)
      0
      (run_turn ℕ wording registry is_space generate spend 1 30 500 [] (66 ∷ []) counters 0).0
      (run_turn ℕ wording registry is_space generate spend 1 30 500 [] (66 ∷ []) counters 0).1
run_turn-Paid_example =
    run_turn-Paid ℕ wording registry is_space generate spend 1 30 500 [] (66 ∷ []) counters 0

run_turn-Reports_example :
    Reports ℕ wording registry is_space generate spend 1 30
      (run_turn ℕ wording registry is_space generate spend 1 30 500 [] (66 ∷ []) counters 0).0
      (run_turn ℕ wording registry is_space generate spend 1 30 500 [] (66 ∷ []) counters 0).1
run_turn-Reports_example =
    run_turn-Reports ℕ wording registry is_space generate spend 1 30 500 [] (66 ∷ []) counters 0
