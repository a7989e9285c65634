-- ===== src/Pairing.antt =====
-- Pair codes of agents: backend/app/services/pairing_service.py. A zero-padded code of six digits is
-- its number; the codes that are drawn at random, and the clock, are arguments.
pub mod Redeem
mod Tests
use nightfury.Prelude.{
  ℕ, zero, suc, ◌+◌, List, [], ◌∷◌, ◌++◌, map, Option, none, some, Bool, leb, ◌==◌, if◌then◌else◌,
  first,
}

abbrev pub pair_code_ttl_seconds : ℕ
pair_code_ttl_seconds = 600

pub record AgentPairCode : Type 0 where
  pub code : ℕ
  pub org_id : ℕ
  pub created_by : ℕ
  pub expires_at : ℕ
  pub consumed_at : Option ℕ

pub data PairError : Type 0 where
  unknown_code consumed expired : PairError

pub data Redeemed : Type 0 where
  failed : PairError → Redeemed
  paired : (org_id : ℕ) → Redeemed

-- `get_code`, also the query of `mint_code`; the code is the primary key.
pub get_code : ℕ → List AgentPairCode → Option AgentPairCode
get_code code = first (λ r. r.code == code)

-- The loop of `mint_code`, with the rounds left: `none` is the `else` branch, which raises.
pub free_code : ℕ → (ℕ → ℕ) → List AgentPairCode → Option ℕ
free_code zero draw rows = none
free_code (suc n) draw rows =
    let later = free_code n draw rows in
    elim (get_code (draw n) rows) [ none ↦ some (draw n) | some _ ↦ later ]

pub mint_code :
    (now : ℕ)
    → (ℕ → ℕ)
    → (org_id user_id : ℕ) → List AgentPairCode
    → Option (ℕ × List AgentPairCode)
unfolding free_code
mint_code now draw org_id user_id rows = elim (free_code 10 draw rows) [
  | none ↦ none
  | some code ↦ some (
    code,
    rows
        ++ record {
          code = code;
          org_id = org_id;
          created_by = user_id;
          expires_at = now + pair_code_ttl_seconds;
          consumed_at = none;
        }
          ∷ [],
  )
]

abbrev pub write_code : AgentPairCode → List AgentPairCode → List AgentPairCode
write_code row = map (λ r. if r.code == row.code then row else r)

pub redeem_code : (now code : ℕ) → List AgentPairCode → Redeemed × List AgentPairCode
redeem_code now code rows = elim (get_code code rows) [
  | none ↦ (failed unknown_code, rows)
  | some row ↦ elim row.consumed_at [
    | some _ ↦ (failed consumed, rows)
    | none ↦
        if leb row.expires_at now
        then (failed expired, rows)
        else (paired row.org_id, write_code (record row { consumed_at = some now }) rows)
  ]
]
