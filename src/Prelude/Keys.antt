-- ===== src/Prelude/Keys.antt =====
-- Membership of numbers in filtered and sorted lists, as Boolean equations.
use nightfury.Prelude.Tests.{◌==◌, ==_iff, Bool-cases}
use nightfury.Prelude.Lists.{elem, keep}
use nightfury.Prelude.Sort.{sorted, place_sorted}
use Prim.Native.Nat.{ℕ}
use mathlib.Core.Path.{◌≡◌, refl, ◌∙◌, ap}
use mathlib.Core.Logic.{inl, inr}
use mathlib.Core.Bool.{Bool, ◌&&◌, ◌||◌}
use mathlib.Core.List.{List, [], ◌∷◌, ◌++◌}
use native.Mathlib.Omega.{arith}

pub elem-keep : (p : ℕ → Bool) (k : ℕ) (xs : List ℕ) → elem k (keep p xs) ≡ (elem k xs && p k)
elem-keep p k [] = refl
elem-keep p k (x ∷ xs) = elim (Bool-cases (k == x)) [
  | inl e ↦ let q : p k ≡ p x = ap p ((==_iff k x).0 e) in ground (arith, elem-keep p k xs)
  | inr e ↦ ground (arith, elem-keep p k xs)
]

elem-place_sorted :
    (k a : ℕ) (xs : List ℕ) → elem k (place_sorted (λ x. x) a xs) ≡ (k == a || elem k xs)
unfolding place_sorted
elem-place_sorted k a [] = refl
elem-place_sorted k a (x ∷ xs) = ground (arith, elem-place_sorted k a xs)

pub elem-sorted : (k : ℕ) (xs : List ℕ) → elem k (sorted (λ x. x) xs) ≡ elem k xs
unfolding sorted
elem-sorted k [] = refl
elem-sorted k (x ∷ xs) =
    elem-place_sorted k x (sorted (λ x. x) xs) ∙ ap (λ b. k == x || b) (elem-sorted k xs)

pub elem-append : (k : ℕ) (xs ys : List ℕ) → elem k (xs ++ ys) ≡ (elem k xs || elem k ys)
elem-append k [] ys = refl
elem-append k (x ∷ xs) ys = ground (arith, elem-append k xs ys)
