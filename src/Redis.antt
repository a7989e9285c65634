-- ===== src/Redis.antt =====
-- What the backend relies on of Redis, for the keys of one prefix: string values that expire. A time
-- is a number of ticks of a second.
pub mod Memory
use nightfury.Prelude.{ℕ, ◌+◌, Option, none, some, Bool, ltb, ◌==◌, if◌then◌else◌, ◌≡◌}
use mathlib.Core.Option

pub record Redis : Type 1 where
  -- The keys of a prefix, with values of one type.
  pub Keys : Type 0 → Type 0
  pub get : {V : Type 0} → (now key : ℕ) → Keys V → Option V
  pub setex : {V : Type 0} → (now key ttl : ℕ) → V → Keys V → Keys V
  pub delete : {V : Type 0} → (key : ℕ) → Keys V → Keys V
  -- A command that changes a value in place and keeps its expiry, such as SREM.
  pub modify : {V : Type 0} → (key : ℕ) → (V → V) → Keys V → Keys V
  pub get-setex :
      {V : Type 0}
      → (now at k j ttl : ℕ) (v : V) (keys : Keys V)
      → get at j (setex now k ttl v keys)
        ≡ (if j == k then (if ltb at (now + ttl) then some v else none) else get at j keys)
  pub get-delete :
      {V : Type 0}
      → (at k j : ℕ) (keys : Keys V)
      → get at j (delete k keys) ≡ (if j == k then none else get at j keys)
  pub get-modify :
      {V : Type 0}
      → (at k j : ℕ) (f : V → V) (keys : Keys V)
      → get at j (modify k f keys)
        ≡ (if j == k then Option.map f (get at k keys) else get at j keys)
