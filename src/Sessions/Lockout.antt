-- ===== src/Sessions/Lockout.antt =====
-- The lockout of backend/app/core/sessions.py: failed logins, counted in Redis.
use nightfury.Prelude.{
  ℕ, ◌+◌, ◌≤◌, ◌<◌, ◌≡◌, true, ltb, leb, ◌==◌, if◌then◌else◌, List, [], ◌∷◌, length, arith,
}
use mathlib.Core.Path.{subst}
use nightfury.Prelude.Dict.{get_or}
use nightfury.Redis.{Redis}
use nightfury.Sessions.{
  Store, record_failed_login, is_locked_out, lockout_duration, lockout_threshold,
}

-- Each failure comes before the count of the one before it, at `t`, expires.
unfoldable pub Close : ℕ → List ℕ → Type 0
Close t [] = Unit
Close t (u ∷ times) = (u < t + lockout_duration) × Close u times

unfoldable pub last_time : ℕ → List ℕ → ℕ
last_time t [] = t
last_time t (u ∷ times) = last_time u times

module _ ⦃redis : Redis⦄ where
  open redis use {get, get-setex}

  -- Failed logins of one account at the listed times.
  pub record_all : List ℕ → ℕ → Store → Store
  record_all [] username s = s
  record_all (t ∷ times) username s = record_all times username (record_failed_login t username s)

  -- At least `n` failures are counted until the last one expires, and five lock the account.
  Counted : ℕ → ℕ → ℕ → Store → Type 0
  Counted n last username s =
      (at : ℕ)
      → at < last + lockout_duration
      → (n ≤ get_or 0 (get at username s.login_failures))
        × (lockout_threshold ≤ n → is_locked_out at username s ≡ true)

  record_failed_login-Counted :
      (n u username : ℕ) (s : Store)
      → n ≤ get_or 0 (get u username s.login_failures)
      → Counted (n + 1) u username (record_failed_login u username s)
  unfolding record_failed_login is_locked_out Counted
  record_failed_login-Counted n u username s h at lt =
      let count = get_or 0 (get u username s.login_failures) + 1 in
      ground (
        arith,
        get-setex u at username username lockout_duration count s.login_failures,
        get-setex u at username username lockout_duration tt s.lockouts,
      )

  record_all-Counted :
      (times : List ℕ) (n t username : ℕ) (s : Store)
      → Counted n t username s
      → Close t times
      → Counted (n + length times) (last_time t times) username (record_all times username s)
  unfolding record_all Close last_time Counted
  record_all-Counted [] n t username s h close = subst (λ k. Counted k t username s) (omega arith) h
  record_all-Counted (u ∷ times) n t username s h (lt, close) =
      subst
        (λ k.
          Counted k (last_time u times) username
            (record_all times username (record_failed_login u username s)))
        (omega arith)
        (record_all-Counted times (n + 1) u username (record_failed_login u username s)
          (record_failed_login-Counted n u username s (h u lt).0) close)

  -- Five failed logins of an account or more, each within 900 seconds of the one before it, lock it,
  -- whatever the store held, until 900 seconds after the last.
  pub record_all-locks :
      (t username at : ℕ) (times : List ℕ) (s : Store)
      → Close t times
      → lockout_threshold ≤ length (t ∷ times)
      → at < last_time t times + lockout_duration
      → is_locked_out at username (record_all (t ∷ times) username s) ≡ true
  unfolding record_all Counted
  record_all-locks t username at times s close five lt =
      (record_all-Counted times 1 t username (record_failed_login t username s)
          (record_failed_login-Counted 0 t username s (omega arith)) close at lt).1
        (ground arith)

  -- One failure of an account: the lock it sets, or that of before.
  pub record_failed_login-is_locked_out :
      (now at username other : ℕ) (s : Store)
      → is_locked_out at other (record_failed_login now username s) ≡ (
          if other == username
          then (if leb lockout_threshold (get_or 0 (get now username s.login_failures) + 1)
              then ltb at (now + lockout_duration)
              else is_locked_out at other s)
          else is_locked_out at other s)
  unfolding record_failed_login is_locked_out
  record_failed_login-is_locked_out now at username other s =
      ground (arith, get-setex now at username other lockout_duration tt s.lockouts)
