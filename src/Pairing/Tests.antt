-- ===== src/Pairing/Tests.antt =====
-- The theorems on pair codes at a table where the first code drawn is taken.
use nightfury.Prelude.{ℕ, ◌==◌, if◌then◌else◌, [], ◌∷◌, Option, none, some, ◌≡◌, refl, first}
use nightfury.Pairing.{
  AgentPairCode, paired, consumed, failed, get_code, free_code, mint_code, redeem_code,
}
use nightfury.Pairing.Redeem.{redeem_code-once}

abbrev row : ℕ → ℕ → Option ℕ → AgentPairCode
row code expires used = record {
  code = code;
  org_id = 1;
  created_by = 2;
  expires_at = expires;
  consumed_at = used;
}

abbrev draw : ℕ → ℕ
draw n = if n == 9 then 123_456 else n

minted :
    mint_code 50 draw 1 2 (row 123_456 20 none ∷ [])
    ≡ some (8, row 123_456 20 none ∷ row 8 650 none ∷ [])
unfolding mint_code free_code get_code first
minted = refl

redeemed : (redeem_code 60 8 (row 8 650 none ∷ [])).0 ≡ paired 1
unfolding redeem_code get_code first
redeemed = refl

redeem_code-once_example :
    redeem_code 61 8 (redeem_code 60 8 (row 8 650 none ∷ [])).1
    ≡ (failed consumed, (redeem_code 60 8 (row 8 650 none ∷ [])).1)
redeem_code-once_example = redeem_code-once 60 61 8 1 (row 8 650 none ∷ []) redeemed
