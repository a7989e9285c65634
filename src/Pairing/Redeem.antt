-- ===== src/Pairing/Redeem.antt =====
-- The life of a pair code.
use nightfury.Prelude.{
  ℕ, zero, suc, ◌+◌, ◌<◌, List, [], ◌∷◌, ◌++◌, Option, none, some, Bool-cases, Option-cases, leb,
  ◌==◌, ==_iff, first, ◌≡◌, refl, sym, inl, inr, first-append, first-In, arith,
}
use mathlib.Core.Path.{subst}
use nightfury.Pairing.{
  AgentPairCode, consumed, failed, paired, get_code, free_code, mint_code, write_code, redeem_code,
  pair_code_ttl_seconds,
}

free_code-get_code :
    (n : ℕ) (draw : ℕ → ℕ) (rows : List AgentPairCode) (code : ℕ)
    → free_code n draw rows ≡ some code
    → get_code code rows ≡ none
unfolding free_code
free_code-get_code zero draw rows code h = cc
free_code-get_code (suc n) draw rows code h = elim (Option-cases (get_code (draw n) rows)) [
  | inl e ↦
      let same : some (draw n) ≡ some code = (rw (e, free_code) at h) in
      let eq : draw n ≡ code = cc in subst (λ c. get_code c rows ≡ none) eq e
  | inr (r, e) ↦ free_code-get_code n draw rows code (rw (e, free_code) at h)
]

abbrev minted_row : ℕ → ℕ → ℕ → ℕ → AgentPairCode
minted_row now code org_id user_id = record {
  code = code;
  org_id = org_id;
  created_by = user_id;
  expires_at = now + pair_code_ttl_seconds;
  consumed_at = none;
}

-- A code that was minted at `now` is new, and pairs with the organisation that minted it when it is
-- redeemed less than ten minutes later.
pub mint_code-redeem_code :
    (now at : ℕ) (draw : ℕ → ℕ) (org_id user_id : ℕ) (rows rows' : List AgentPairCode) (code : ℕ)
    → mint_code now draw org_id user_id rows ≡ some (code, rows')
    → at < now + pair_code_ttl_seconds
    → (get_code code rows ≡ none) × ((redeem_code at code rows').0 ≡ paired org_id)
unfolding mint_code first get_code redeem_code
mint_code-redeem_code now at draw org_id user_id rows rows' code h lt =
    elim (Option-cases (free_code 10 draw rows)) [
      | inl e ↦ cc (rw (e, mint_code) at h)
      | inr (c, e) ↦
          let minted : ◌≡◌ {A = Option (ℕ × List AgentPairCode)}
              (some (c, rows ++ minted_row now c org_id user_id ∷ [])) (some (code, rows')) =
            (rw (e, mint_code) at h) in
          let same : c ≡ code = cc in
          let grown : rows ++ minted_row now c org_id user_id ∷ [] ≡ rows' = cc in
          let fresh = free_code-get_code 10 draw rows c e in
          let found : get_code c (rows ++ minted_row now c org_id user_id ∷ [])
              ≡ some (minted_row now c org_id user_id) =
            first-append (λ r. r.code == c) rows (minted_row now c org_id user_id) fresh
              (ground arith) in
          let paired_now : (redeem_code at c (rows ++ minted_row now c org_id user_id ∷ [])).0
              ≡ paired org_id =
            simp (found, redeem_code) (ground arith) in
          (subst (λ k. get_code k rows ≡ none) same fresh, cc)
    ]

get_code-write_code :
    (row : AgentPairCode) (rows : List AgentPairCode) (r : AgentPairCode)
    → get_code row.code rows ≡ some r
    → get_code row.code (write_code row rows) ≡ some row
unfolding get_code first
get_code-write_code row [] r h = cc
get_code-write_code row (x ∷ rows) r h = ground (arith, get_code-write_code row rows r)

-- A code pairs once: after a redemption that succeeds, every later one of the same code says that it
-- was consumed.
pub redeem_code-once :
    (now at code org_id : ℕ) (rows : List AgentPairCode)
    → (redeem_code now code rows).0 ≡ paired org_id
    → redeem_code at code (redeem_code now code rows).1
      ≡ (failed consumed, (redeem_code now code rows).1)
unfolding redeem_code first get_code
redeem_code-once now at code org_id rows h = elim (Option-cases (get_code code rows)) [
  | inl e ↦ cc (rw (e, redeem_code) at h)
  | inr (row, e) ↦ elim (Option-cases row.consumed_at) [
    | inr (t, c) ↦ cc (rw (e, redeem_code, c) at h)
    | inl c ↦ elim (Bool-cases (leb row.expires_at now)) [
      | inl q ↦ cc (rw (e, redeem_code, c, q) at h)
      | inr q ↦
          let row' : AgentPairCode = record row { consumed_at = some now } in
          let key : row.code ≡ code =
            (==_iff row.code code).0 (first-In (λ r. r.code == code) rows row e).1 in
          let done : redeem_code now code rows ≡ (paired row.org_id, write_code row' rows) =
            simp (e, redeem_code, c, q) in
          let after : get_code code (write_code row' rows) ≡ some row' =
            subst (λ k. get_code k (write_code row' rows) ≡ some row') key
              (get_code-write_code row' rows row
                (subst (λ k. get_code k rows ≡ some row) (sym key) e)) in
          simp (done, after, redeem_code) refl
    ]
  ]
]
