-- ===== src/RateLimit.antt =====
-- The sliding window of backend/app/core/rate_limit.py. A sorted set of Redis is the list of its
-- scores from the oldest on; members are unique, so that equal scores are kept
-- apart, and the clock does not go back, so that a new score is the highest.
pub mod Window
pub mod Middleware
mod Tests
use nightfury.Prelude.{
  ℕ, ◌+◌, ◌-◌, ◌*◌, ◌/◌, ◌≤◌, max, List, [], ◌∷◌, ◌++◌, Bool, true, false, ltb, leb, if◌then◌else◌,
  keep, length,
}

pub data Verdict : Type 0 where
  allowed : Verdict
  refused : (retry_after : ℕ) → Verdict

-- ZREMRANGEBYSCORE from 0 to the cutoff `now_ms - window_ms`.
abbrev pub trim : (now_ms window_ms : ℕ) → List ℕ → List ℕ
trim now_ms window_ms = keep (λ score. ltb now_ms (score + window_ms))

-- `max(1, math.ceil(retry_ms / 1000))`, until the oldest entry leaves the window.
abbrev pub retry_after : (now_ms window_ms : ℕ) → List ℕ → ℕ
retry_after now_ms window_ms [] = 1
retry_after now_ms window_ms (oldest ∷ _) = max 1 ((oldest + window_ms - now_ms + 999) / 1000)

-- `check_rate_limit` at a time in milliseconds: the request is recorded whether it is let through or
-- not.
pub check_rate_limit : (now_ms limit window_seconds : ℕ) → List ℕ → Verdict × List ℕ
check_rate_limit now_ms limit window_seconds scores =
    let window_ms = window_seconds * 1000 in
    let scores' = trim now_ms window_ms scores ++ now_ms ∷ [] in
    (
      if ltb limit (length scores')
          then refused (retry_after now_ms window_ms scores')
          else allowed,
      scores',
    )
