-- ===== src/Redis/Memory.antt =====
-- An implementation of the interface: a dictionary of values with the time at which each is gone.
use nightfury.Prelude.{ℕ, ◌+◌, [], ◌∷◌, Option, none, some, ltb, ◌==◌, if◌then◌else◌, ◌≡◌, arith}
use nightfury.Prelude.Dict.{Dict, lookup, insert, remove, lookup-insert}
use mathlib.Core.Option
use nightfury.Redis.{Redis}

pub record Entry (V : Type 0) : Type 0 where
  pub value : V
  pub expires : ℕ

module _ {V : Type 0} where
  abbrev pub alive : ℕ → Option (Entry V) → Option V
  alive now none = none
  alive now (some e) = if ltb now e.expires then some e.value else none

  unfoldable pub get : ℕ → ℕ → Dict (Entry V) → Option V
  unfolding lookup
  get now key d = alive now (lookup key d)

  unfoldable pub setex : ℕ → ℕ → ℕ → V → Dict (Entry V) → Dict (Entry V)
  unfolding insert
  setex now key ttl v d = insert key (record { value = v; expires = now + ttl }) d

  unfoldable pub modify : ℕ → (V → V) → Dict (Entry V) → Dict (Entry V)
  modify key f [] = []
  modify key f ((k, e) ∷ d) =
      let rest = modify key f d in
      if k == key then (k, record e { value = f e.value }) ∷ rest else (k, e) ∷ rest

  pub get-setex :
      (now at k j ttl : ℕ) (v : V) (d : Dict (Entry V))
      → get at j (setex now k ttl v d)
        ≡ (if j == k then (if ltb at (now + ttl) then some v else none) else get at j d)
  unfolding get setex
  get-setex now at k j ttl v d =
      ground (arith, lookup-insert k j (record { value = v; expires = now + ttl }) d)

  pub get-remove :
      (at k j : ℕ) (d : Dict (Entry V))
      → get at j (remove k d) ≡ (if j == k then none else get at j d)
  unfolding get remove lookup
  get-remove at k j [] = ground arith
  get-remove at k j ((i, e) ∷ d) = ground (arith, get-remove at k j d)

  pub get-modify :
      (at k j : ℕ) (f : V → V) (d : Dict (Entry V))
      → get at j (modify k f d) ≡ (if j == k then Option.map f (get at k d) else get at j d)
  unfolding get modify lookup
  get-modify at k j f [] = ground arith
  get-modify at k j f ((i, e) ∷ d) = ground (arith, get-modify at k j f d)

instance abbrev pub in_memory : Redis
in_memory = record {
  Keys = λ V. Dict (Entry V);
  get = get;
  setex = setex;
  delete = remove;
  modify = modify;
  get-setex = get-setex;
  get-delete = get-remove;
  get-modify = get-modify;
}
