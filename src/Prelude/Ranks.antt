-- ===== src/Prelude/Ranks.antt =====
-- How many elements come before one in a sorted list.
use Prim.Native.Nat.{ℕ, zero, suc, ◌≤◌, ◌<◌}
use mathlib.Core.Bool.{Bool}
use mathlib.Core.Path.{◌≡◌, refl, subst}
use mathlib.Core.Logic.{inl, inr}
use mathlib.Core.List.{List, [], ◌∷◌}
use native.Mathlib.Omega.{arith}
use nightfury.Prelude.Tests.{leb, ltb, leb→le, if◌then◌else◌, Bool-cases}
use nightfury.Prelude.Lists.{In, In-cons, All, All-map, keep, take, total}
use nightfury.Prelude.Sort.{place_sorted, sorted, sorted-total}

module _ {A : Type 0} where
  pub total-keep_if :
      (f : A → ℕ) (p : A → Bool) (xs : List A)
      → total f (keep p xs) ≡ total (λ x. if p x then f x else 0) xs
  total-keep_if f p [] = refl
  total-keep_if f p (x ∷ xs) = ground (arith, total-keep_if f p xs)

  module _ (key : A → ℕ) where
    -- Counts an element with a key below `k`.
    abbrev pub below : ℕ → A → ℕ
    below k x = if ltb (key x) k then 1 else 0

    -- The keys do not fall.
    abbrev Rising : List A → Type 0
    Rising [] = Unit
    Rising (x ∷ xs) = All (λ y. key x ≤ key y) xs × Rising xs

    place_sorted-All :
        (P : A → Type 0) (a : A) (xs : List A) → P a → All P xs → All P (place_sorted key a xs)
    unfolding place_sorted
    place_sorted-All P a [] h all = (h, tt)
    place_sorted-All P a (x ∷ xs) h all = elim (Bool-cases (leb (key a) (key x))) [
      | inl e ↦ rw e (h, all)
      | inr e ↦ rw e (all.0, place_sorted-All P a xs h all.1)
    ]

    place_sorted-Rising : (a : A) (xs : List A) → Rising xs → Rising (place_sorted key a xs)
    unfolding place_sorted
    place_sorted-Rising a [] h = (tt, tt)
    place_sorted-Rising a (x ∷ xs) h = elim (Bool-cases (leb (key a) (key x))) [
      | inl e ↦
          let le = leb→le (key a) (key x) e in
          rw e ((le, All-map _ _ xs (λ y k. omega arith) h.0), h)
      | inr e ↦ rw e (
        place_sorted-All (λ y. key x ≤ key y) a xs (ground arith) h.0,
        place_sorted-Rising a xs h.1,
      )
    ]

    sorted-Rising : (xs : List A) → Rising (sorted key xs)
    unfolding sorted
    sorted-Rising [] = tt
    sorted-Rising (x ∷ xs) = place_sorted-Rising x (sorted key xs) (sorted-Rising xs)

    below_none : (k : ℕ) (xs : List A) → All (λ y. k ≤ key y) xs → total (below k) xs ≡ 0
    below_none k [] h = refl
    below_none k (x ∷ xs) h = ground (arith, h.0, below_none k xs h.1)

    take-below :
        (n : ℕ) (xs : List A) (y : A) → Rising xs → In y (take n xs) → total (below (key y)) xs < n
    take-below zero xs y h m = elim m [ ]
    take-below (suc n) [] y h m = elim m [ ]
    take-below (suc n) (x ∷ xs) y h m = elim (In-cons m) [
      | inl e ↦
          subst (λ z. total (below (key z)) (x ∷ xs) < suc n) e
            (ground (arith, below_none (key x) xs h.0))
      | inr k ↦ ground (arith, take-below n xs y h.1 k)
    ]

    -- Of the first `n` of the sorted elements, each has fewer than `n` with a smaller key.
    pub sorted-take_below :
        (n : ℕ) (xs : List A) (y : A) → In y (take n (sorted key xs)) → total (below (key y)) xs < n
    sorted-take_below n xs y m = omega (
      arith,
      take-below n (sorted key xs) y (sorted-Rising xs) m,
      sorted-total key (below (key y)) xs,
    )
