-- ===== src/Assistant.antt =====
-- One turn of the assistant: backend/app/services/assistant/loop.py and registry.py. The language
-- model and the tools are parameters: any answer for each turn and contents, or an exception, and any
-- function of the arguments and of a state of the tools' own. Texts are lists of characters.
pub mod Bounds
pub mod Reported
mod Tests
use nightfury.Prelude.{
  ℕ, zero, suc, ◌+◌, List, [], ◌∷◌, ◌++◌, map, Option, none, some, Bool, true, false, if◌then◌else◌,
}
use nightfury.Prelude.Dict.{Dict, lookup, insert, has}
use nightfury.Spend.{Counters, SpendTracker, try_charge}

abbrev pub max_iterations : ℕ
max_iterations = 5

abbrev pub Text : Type 0
Text = List ℕ

pub record FunctionCall : Type 0 where
  pub name : ℕ
  pub args : Text

-- The dict that a tool returns, by the keys that the loop looks at.
pub record ToolResult : Type 0 where
  pub error : Option Text
  pub proposal_id : Option ℕ
  pub navigate : Option ℕ
  pub rest : Text

-- A part of the model's content, which is a call or a text.
abbrev pub Part : Type 0
Part = Option FunctionCall

-- A response; a candidate has no parts where its content is missing.
pub record Response : Type 0 where
  pub candidates : List (List Part)
  pub text : Text

pub data Content : Type 0 where
  said : (by_user : Bool) → Text → Content
  asked : (now : ℕ) → Text → Content
  model_turn : List Part → Content
  tool_result : (name : ℕ) → ToolResult → Content

-- A turn of `history`.
pub record ChatTurn : Type 0 where
  pub by_user : Bool
  pub content : Text

abbrev pub calls_of : List Part → List FunctionCall
calls_of [] = []
calls_of (none ∷ parts) = calls_of parts
calls_of (some c ∷ parts) = c ∷ calls_of parts

-- `_function_calls`
pub function_calls : Response → List FunctionCall
function_calls r = elim r.candidates [ [] ↦ [] | parts ∷ _ ↦ calls_of parts ]

-- `_model_turn`; it is called where there is a candidate.
abbrev pub first_parts : List (List Part) → List Part
first_parts [] = []
first_parts (parts ∷ more) = parts

-- `_build_contents`
pub build_contents : ℕ → List ChatTurn → Text → List Content
build_contents now history user_message =
    map (λ t. said t.by_user t.content) history ++ asked now user_message ∷ []

-- What a tool does: it returns, or raises TypeError or another exception with a text.
pub data ToolRun : Type 0 where
  returned : ToolResult → ToolRun
  type_error raised : Text → ToolRun

-- The texts of `dispatch`, around a name and a message.
pub record Wording : Type 0 where
  pub unknown_tool : ℕ → Text
  pub bad_arguments : ℕ → Text → Text
  pub tool_failed : ℕ → Text → Text

abbrev pub error_result : Text → ToolResult
error_result e = record { error = some e; proposal_id = none; navigate = none; rest = [] }

module _ (S : Type 0) where
  -- The tools behind their names.
  abbrev pub Registry : Type 0
  Registry = Dict (Text → S → ToolRun × S)

  -- `register`; it raises for a name that is taken.
  pub register : ℕ → (Text → S → ToolRun × S) → Registry → Option Registry
  register name fn registry = if has name registry then none else some (insert name fn registry)

  module _ (wording : Wording) (registry : Registry) where
    open wording use {unknown_tool, bad_arguments, tool_failed}

    abbrev pub outcome_of : ℕ → ToolRun → ToolResult
    outcome_of name (returned r) = r
    outcome_of name (type_error e) = error_result (bad_arguments name e)
    outcome_of name (raised e) = error_result (tool_failed name e)

    pub dispatch : ℕ → Text → S → ToolResult × S
    dispatch name args s = elim (lookup name registry) [
      | none ↦ (error_result (unknown_tool name), s)
      | some fn ↦ let (run, s') = fn args s in (outcome_of name run, s')
    ]

-- What the result says: a text of the model, or one of the two fixed ones.
pub data Reply : Type 0 where
  answer : Text → Reply
  no_answer unfinished : Reply

pub record AssistantResult : Type 0 where
  pub text : Reply
  pub proposal_ids : List ℕ
  pub navigate : Option ℕ
  pub turns : ℕ
  pub stopped_early : Bool

pub data Outcome : Type 0 where
  spend_cap_reached generate_failed : Outcome
  finished : AssistantResult → Outcome

-- `(response.text or "").strip()`
pub lstrip : (ℕ → Bool) → Text → Text
lstrip is_space [] = []
lstrip is_space (c ∷ cs) = let rest = lstrip is_space cs in if is_space c then rest else c ∷ cs

abbrev pub reversed : Text → Text
reversed [] = []
reversed (c ∷ cs) = reversed cs ++ c ∷ []

pub strip : (ℕ → Bool) → Text → Text
unfolding lstrip
strip is_space text = reversed (lstrip is_space (reversed (lstrip is_space text)))

abbrev pub reply_of : Text → Reply
reply_of [] = no_answer
reply_of (c ∷ cs) = answer (c ∷ cs)

abbrev pub or_else : Option ℕ → Option ℕ → Option ℕ
or_else none old = old
or_else (some new) old = some new

abbrev pub with_id : Option ℕ → List ℕ → List ℕ
with_id none ids = ids
with_id (some id) ids = ids ++ id ∷ []

module _ (S : Type 0) where
  -- The local variables of `run_turn`, the spend counters, the tools' state, and how often
  -- `client.generate` was called.
  pub record Turn : Type 0 where
    pub contents : List Content
    pub proposal_ids : List ℕ
    pub navigate : Option ℕ
    pub counters : Counters
    pub state : S
    pub generated : ℕ

  module _ (wording : Wording) (registry : Registry S) (is_space : ℕ → Bool)
      (generate : ℕ → List Content → Option Response) (spend : SpendTracker) (org_id cost : ℕ) where
    -- The loop over the calls of a response.
    pub run_calls : List FunctionCall → Turn → Turn
    unfolding dispatch
    run_calls [] t = t
    run_calls (call ∷ calls) t =
        let (result, s) = dispatch S wording registry call.name call.args t.state in
        run_calls calls (record t {
          contents = t.contents ++ tool_result call.name result ∷ [];
          proposal_ids = with_id result.proposal_id t.proposal_ids;
          navigate = or_else result.navigate t.navigate;
          state = s;
        })

    abbrev pub result_of : Reply → ℕ → Bool → Turn → AssistantResult
    result_of text turns stopped_early t = record {
      text = text;
      proposal_ids = t.proposal_ids;
      navigate = t.navigate;
      turns = turns;
      stopped_early = stopped_early;
    }

    -- The loop `while turns < MAX_ITERATIONS`, with the iterations left, which are MAX_ITERATIONS less
    -- the turns taken.
    pub run_from : ℕ → ℕ → Turn → Outcome × Turn
    unfolding function_calls strip run_calls
    run_from zero turns t = (finished (result_of unfinished turns true t), t)
    run_from (suc left) turns t =
        let (counters, charged) = try_charge spend org_id cost none t.counters in
        let t' = record t { counters = counters } in
        let t'' = record t' { generated = t.generated + 1 } in
        elim charged [
          | false ↦ (spend_cap_reached, t')
          | true ↦ elim (generate turns t.contents) [
            | none ↦ (generate_failed, t'')
            | some response ↦ elim (function_calls response) [
              | [] ↦ (
                finished
                    (result_of (reply_of (strip is_space response.text)) (turns + 1) false t''),
                t'',
              )
              | call ∷ calls ↦ run_from left (turns + 1) (
                  run_calls (call ∷ calls) (record t'' {
                    contents = t.contents ++ model_turn (first_parts response.candidates) ∷ [];
                  }))
            ]
          ]
        ]

    pub run_turn : ℕ → List ChatTurn → Text → Counters → S → Outcome × Turn
    unfolding build_contents run_from
    run_turn now history user_message counters s = run_from max_iterations 0 (record {
      contents = build_contents now history user_message;
      proposal_ids = [];
      navigate = none;
      counters = counters;
      state = s;
      generated = 0;
    })
