-- ===== src/RateLimit/Window.antt =====
-- What the sliding window lets through.
use nightfury.Prelude.{
  ℕ, ◌+◌, ◌*◌, ◌≤◌, ◌<◌, List, [], ◌∷◌, ◌++◌, ltb, length, length-append, ◌≡◌, ◌⊎◌, inl, inr, refl,
  Bool-cases, arith,
}
use nightfury.RateLimit.{allowed, refused, trim, retry_after, check_rate_limit}

retry_after-pos : (now_ms window_ms : ℕ) (scores : List ℕ) → 1 ≤ retry_after now_ms window_ms scores
retry_after-pos now_ms window_ms [] = omega arith
retry_after-pos now_ms window_ms (oldest ∷ _) = omega arith

-- A request is let through exactly when, with it, at most `limit` requests were made in the window
-- before it; otherwise it is told to wait for a second at least.
pub check_rate_limit_lem :
    (now_ms limit window_seconds : ℕ) (scores : List ℕ)
    → let (verdict, scores') = check_rate_limit now_ms limit window_seconds scores in
      let recent = length (trim now_ms (window_seconds * 1000) scores) in
      (length scores' ≡ recent + 1)
      × ((verdict ≡ allowed) × (recent < limit)
          ⊎ ((wait : ℕ) × (verdict ≡ refused wait) × (1 ≤ wait) × (limit ≤ recent)))
unfolding check_rate_limit
check_rate_limit_lem now_ms limit window_seconds scores =
    let window_ms = window_seconds * 1000 in
    let recent = trim now_ms window_ms scores in
    let count = length-append recent (now_ms ∷ []) in
    (
      count,
      elim (Bool-cases (ltb limit (length (recent ++ now_ms ∷ [])))) [
        | inl e ↦ inr (
          retry_after now_ms window_ms (recent ++ now_ms ∷ []),
          rw e refl,
          retry_after-pos now_ms window_ms (recent ++ now_ms ∷ []),
          ground (arith, e, count),
        )
        | inr e ↦ inl (rw e refl, ground (arith, e, count))
      ],
    )
