-- ===== src/Prelude/Dict.antt =====
-- A Python dict with numeric keys, in insertion order.
use nightfury.Prelude.Lists.{length, elem, In, here, there}
use nightfury.Prelude.Tests.{◌==◌, if◌then◌else◌, Bool-cases, ==_iff}
use Prim.Native.Nat.{ℕ, ◌+◌, ◌≤◌}
use mathlib.Core.Bool.{Bool, true, false, not, ◌&&◌, ◌||◌}
use mathlib.Core.Path.{◌≡◌, refl, sym, ap, subst}
use mathlib.Core.Logic.{◌≢◌, ◌⊎◌, inl, inr}
use mathlib.Core.Option.{Option, none, some}
use mathlib.Core.List.{List, [], ◌∷◌, map}
use native.Mathlib.Omega.{arith}

abbrev pub Dict {ℓ} : Type ℓ → Type ℓ
Dict V = List (ℕ × V)

module _ {ℓ} {V : Type ℓ} where
  -- `d.get(k)`
  unfoldable pub lookup : ℕ → Dict V → Option V
  lookup k [] = none
  lookup k ((j, v) ∷ d) = if k == j then some v else lookup k d

  -- `d.get(k, default)`
  abbrev pub get_or : V → Option V → V
  get_or v none = v
  get_or v (some w) = w

  -- `d[k] = v`: a known key keeps its place.
  unfoldable pub insert : ℕ → V → Dict V → Dict V
  insert k v [] = (k, v) ∷ []
  insert k v ((j, w) ∷ d) = if k == j then (j, v) ∷ d else (j, w) ∷ insert k v d

  pub lookup-insert :
      (k j : ℕ) (v : V) (d : Dict V)
      → lookup j (insert k v d) ≡ (if j == k then some v else lookup j d)
  unfolding lookup insert
  lookup-insert k j v [] = refl
  lookup-insert k j v ((i, w) ∷ d) = ground (arith, lookup-insert k j v d)

  -- `{k: v for k, v in pairs}`, on top of a dict.
  unfoldable pub insert_all : List (ℕ × V) → Dict V → Dict V
  insert_all [] d = d
  insert_all ((k, v) ∷ pairs) d = insert_all pairs (insert k v d)

  unfoldable pub dict_of : List (ℕ × V) → Dict V
  unfolding insert_all
  dict_of pairs = insert_all pairs []

  pub lookup-insert_cases :
      (k j : ℕ) (v w : V) (d : Dict V)
      → lookup j (insert k v d) ≡ some w
      → ((j ≡ k) × (v ≡ w)) ⊎ ((j ≢ k) × (lookup j d ≡ some w))
  lookup-insert_cases k j v w d h = elim (Bool-cases (j == k)) [
    | inl e ↦
        let same : some v ≡ some w = (rw (lookup-insert, e) at h) in inl ((==_iff j k).0 e, cc)
    | inr e ↦
        let old : lookup j d ≡ some w = (rw (lookup-insert, e) at h) in inr (ground arith, old)
  ]

  insert_all-In :
      (pairs : List (ℕ × V)) (d : Dict V) (k : ℕ) (v : V)
      → lookup k (insert_all pairs d) ≡ some v
      → In (k, v) pairs ⊎ (lookup k d ≡ some v)
  unfolding insert_all
  insert_all-In [] d k v h = inr h
  insert_all-In ((j, w) ∷ pairs) d k v h = elim (insert_all-In pairs (insert j w d) k v h) [
    | inl m ↦ inl (there m)
    | inr e ↦ elim (lookup-insert_cases j k w v d e) [
      | inl (same, eq) ↦ inl (subst (λ x. In x ((j, w) ∷ pairs)) (λ i. (sym same i, eq i)) here)
      | inr (_, old) ↦ inr old
    ]
  ]

  pub dict_of-In :
      (pairs : List (ℕ × V)) (k : ℕ) (v : V) → lookup k (dict_of pairs) ≡ some v → In (k, v) pairs
  unfolding dict_of lookup
  dict_of-In pairs k v h = elim (insert_all-In pairs [] k v h) [ inl m ↦ m | inr e ↦ cc ]

  -- `d.pop(k, None)`, for what is left.
  unfoldable pub remove : ℕ → Dict V → Dict V
  remove k [] = []
  remove k ((j, w) ∷ d) = let rest = remove k d in if j == k then rest else (j, w) ∷ rest

  -- `k in d`
  unfoldable pub has : ℕ → Dict V → Bool
  has k [] = false
  has k ((j, v) ∷ d) = k == j || has k d

  pub has-remove : (k j : ℕ) (d : Dict V) → has j (remove k d) ≡ (has j d && not (j == k))
  unfolding has remove
  has-remove k j [] = refl
  has-remove k j ((i, w) ∷ d) = ground (arith, has-remove k j d)

  pub has-insert : (k j : ℕ) (v : V) (d : Dict V) → has j (insert k v d) ≡ (j == k || has j d)
  unfolding has insert
  has-insert k j v [] = refl
  has-insert k j v ((i, w) ∷ d) = ground (arith, has-insert k j v d)

  pub has-lookup : (k : ℕ) (d : Dict V) (v : V) → lookup k d ≡ some v → has k d ≡ true
  unfolding has lookup
  has-lookup k [] v h = cc
  has-lookup k ((j, w) ∷ d) v h = ground (arith, has-lookup k d v)

  pub lookup-has : (k : ℕ) (d : Dict V) → has k d ≡ false → lookup k d ≡ none
  unfolding has lookup
  lookup-has k [] h = refl
  lookup-has k ((j, w) ∷ d) h = ground (arith, lookup-has k d)

  pub length-remove : (k : ℕ) (d : Dict V) → length (remove k d) ≤ length d
  unfolding remove
  length-remove k [] = omega arith
  length-remove k ((j, w) ∷ d) = ground (arith, length-remove k d)

  pub length-insert :
      (k : ℕ) (v : V) (d : Dict V)
      → length (insert k v d) ≡ (if has k d then length d else length d + 1)
  unfolding insert has
  length-insert k v [] = refl
  length-insert k v ((j, w) ∷ d) = ground (arith, length-insert k v d)

  pub elem-keys : (k : ℕ) (d : Dict V) → elem k (map (λ e. e.0) d) ≡ has k d
  unfolding has
  elem-keys k [] = refl
  elem-keys k ((j, v) ∷ d) = ap (λ b. k == j || b) (elem-keys k d)
