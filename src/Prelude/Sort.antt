-- ===== src/Prelude/Sort.antt =====
-- Python's stable `sorted(xs, key=f)` with a numeric key, as an insertion sort, and what its
-- clients need: it holds the same elements, and keeps keys distinct.
use nightfury.Prelude.Tests.{leb, if◌then◌else◌, Bool-cases}
use nightfury.Prelude.Lists.{In, here, there, All, All-map_list, keep, total}
use mathlib.Core.Bool.{Bool}
use Prim.Native.Nat.{ℕ, ◌+◌, ◌<◌}
use native.Mathlib.Omega.{arith}
use mathlib.Core.Path.{◌≡◌, refl, sym}
use mathlib.Core.Logic.{◌≢◌, inl, inr}
use mathlib.Core.List.{List, [], ◌∷◌, ◌++◌, map}

module _ {ℓ} {A : Type ℓ} (key : A → ℕ) where
  -- The element goes in front of those with an equal key, since it came first.
  unfoldable pub place_sorted : A → List A → List A
  place_sorted a [] = a ∷ []
  place_sorted a (x ∷ xs) = if leb (key a) (key x) then a ∷ x ∷ xs else x ∷ place_sorted a xs

  unfoldable pub sorted : List A → List A
  unfolding place_sorted
  sorted [] = []
  sorted (x ∷ xs) = place_sorted x (sorted xs)

  In-swap : {b x a : A} {xs : List A} → In b (x ∷ a ∷ xs) → In b (a ∷ x ∷ xs)
  In-swap here = there here
  In-swap (there here) = here
  In-swap (there (there m)) = there (there m)

  -- What is in front and the new element, in either order.
  In-place_sorted : {b : A} (a : A) (xs : List A) → In b (a ∷ xs) → In b (place_sorted a xs)
  unfolding place_sorted
  In-place_sorted a [] m = m
  In-place_sorted a (x ∷ xs) m = elim (Bool-cases (leb (key a) (key x))) [
    | inl e ↦ rw e m
    | inr e ↦ rw e (behind (In-place_sorted a xs) (In-swap m))
  ]
    where
      behind :
          {b : A}
          → (In b (a ∷ xs) → In b (place_sorted a xs))
          → In b (x ∷ a ∷ xs)
          → In b (x ∷ place_sorted a xs)
      behind f here = here
      behind f (there n) = there (f n)

  pub In-sorted : {a : A} (xs : List A) → In a xs → In a (sorted xs)
  unfolding sorted
  In-sorted (x ∷ xs) here = In-place_sorted x (sorted xs) here
  In-sorted (x ∷ xs) (there m) = In-place_sorted x (sorted xs) (there (In-sorted xs m))
  In-sorted [] m = elim m [ ]

  place_sorted-In : {b : A} (a : A) (xs : List A) → In b (place_sorted a xs) → In b (a ∷ xs)
  unfolding place_sorted
  place_sorted-In a [] m = m
  place_sorted-In a (x ∷ xs) m = elim (Bool-cases (leb (key a) (key x))) [
    | inl e ↦ rw e at m
    | inr e ↦ behind (place_sorted-In a xs) (rw e at m)
  ]
    where
      behind :
          {b : A}
          → (In b (place_sorted a xs) → In b (a ∷ xs))
          → In b (x ∷ place_sorted a xs)
          → In b (a ∷ x ∷ xs)
      behind f here = there here
      behind f (there n) = In-swap (there (f n))

  pub sorted-In : {a : A} (xs : List A) → In a (sorted xs) → In a xs
  unfolding sorted
  sorted-In [] m = m
  sorted-In (x ∷ xs) m = tail (sorted-In xs) (place_sorted-In x (sorted xs) m)
    where
      tail : {a : A} → (In a (sorted xs) → In a xs) → In a (x ∷ sorted xs) → In a (x ∷ xs)
      tail f here = here
      tail f (there n) = there (f n)

  place_sorted-total :
      (f : A → ℕ) (a : A) (xs : List A) → total f (place_sorted a xs) ≡ f a + total f xs
  unfolding place_sorted
  place_sorted-total f a [] = refl
  place_sorted-total f a (x ∷ xs) = elim (Bool-cases (leb (key a) (key x))) [
    | inl e ↦ rw e refl
    | inr e ↦ rw e (omega (arith, place_sorted-total f a xs))
  ]

  pub sorted-total : (f : A → ℕ) (xs : List A) → total f (sorted xs) ≡ total f xs
  unfolding sorted
  sorted-total f [] = refl
  sorted-total f (x ∷ xs) = omega (arith, place_sorted-total f x (sorted xs), sorted-total f xs)

  -- No element has the key `k`.
  abbrev pub Lacks : ℕ → List A → Type 0
  Lacks k = All (λ x. key x ≢ k)

  abbrev pub Distinct : List A → Type 0
  Distinct [] = Unit
  Distinct (x ∷ xs) = Lacks (key x) xs × Distinct xs

  pub Lacks-append : (k : ℕ) (xs ys : List A) → Lacks k (xs ++ ys) → Lacks k xs × Lacks k ys
  Lacks-append k [] ys h = (tt, h)
  Lacks-append k (x ∷ xs) ys h = let r = Lacks-append k xs ys h.1 in ((h.0, r.0), r.1)

  pub Lacks-remove :
      (k : ℕ) (xs : List A) (y : A) (ys : List A) → Lacks k (xs ++ y ∷ ys) → Lacks k (xs ++ ys)
  Lacks-remove k [] y ys h = h.1
  Lacks-remove k (x ∷ xs) y ys h = (h.0, Lacks-remove k xs y ys h.1)

  pub Distinct-remove :
      (xs : List A) (y : A) (ys : List A) → Distinct (xs ++ y ∷ ys) → Distinct (xs ++ ys)
  Distinct-remove [] y ys h = h.1
  Distinct-remove (x ∷ xs) y ys h = (Lacks-remove (key x) xs y ys h.0, Distinct-remove xs y ys h.1)

  -- An element between two lists of distinct keys is in neither.
  pub Distinct-middle :
      (xs : List A) (y : A) (ys : List A)
      → Distinct (xs ++ y ∷ ys)
      → Lacks (key y) xs × Lacks (key y) ys
  Distinct-middle [] y ys h = (tt, h.0)
  Distinct-middle (x ∷ xs) y ys h =
      let r = Distinct-middle xs y ys h.1 in
      let before = Lacks-append (key x) xs (y ∷ ys) h.0 in (((λ p. before.1.0 (sym p)), r.0), r.1)

  Lacks-In : {k : ℕ} {a : A} (xs : List A) → Lacks k xs → In a xs → key a ≢ k
  Lacks-In (x ∷ xs) l here = l.0
  Lacks-In (x ∷ xs) l (there m) = Lacks-In xs l.1 m
  Lacks-In [] l m = elim m [ ]

  -- Distinct keys identify the elements.
  pub Distinct-eq :
      (xs : List A) (a b : A) → Distinct xs → In a xs → In b xs → key a ≡ key b → a ≡ b
  Distinct-eq (x ∷ xs) a b d here here e = refl
  Distinct-eq (x ∷ xs) a b d here (there m) e = absurd (Lacks-In xs d.0 m (sym e))
  Distinct-eq (x ∷ xs) a b d (there m) here e = absurd (Lacks-In xs d.0 m e)
  Distinct-eq (x ∷ xs) a b d (there m) (there n) e = Distinct-eq xs a b d.1 m n e
  Distinct-eq [] a b d m n e = elim m [ ]

  pub Lacks-keep : (p : A → Bool) (k : ℕ) (xs : List A) → Lacks k xs → Lacks k (keep p xs)
  Lacks-keep p k [] h = tt
  Lacks-keep p k (x ∷ xs) h = elim (Bool-cases (p x)) [
    | inl e ↦ rw e (h.0, Lacks-keep p k xs h.1)
    | inr e ↦ rw e (Lacks-keep p k xs h.1)
  ]

  pub Distinct-keep : (p : A → Bool) (xs : List A) → Distinct xs → Distinct (keep p xs)
  Distinct-keep p [] d = tt
  Distinct-keep p (x ∷ xs) d = elim (Bool-cases (p x)) [
    | inl e ↦ rw e (Lacks-keep p (key x) xs d.0, Distinct-keep p xs d.1)
    | inr e ↦ rw e (Distinct-keep p xs d.1)
  ]

  -- Updates that keep the keys keep them distinct.
  pub Distinct-map :
      (f : A → A)
      → ((x : A) → key (f x) ≡ key x)
      → (xs : List A) → Distinct xs
      → Distinct (map f xs)
  Distinct-map f same [] d = tt
  Distinct-map f same (x ∷ xs) d = (
    rw same (All-map_list (λ y. key y ≢ key x) (λ y. key y ≢ key x) f xs (λ y h. rw same h) d.0),
    Distinct-map f same xs d.1,
  )

  -- The keys rise.
  abbrev pub Ascending : List A → Type 0
  Ascending [] = Unit
  Ascending (x ∷ xs) = All (λ y. key x < key y) xs × Ascending xs

  place_sorted-first :
      (a : A) (xs : List A) → All (λ y. key a < key y) xs → place_sorted a xs ≡ a ∷ xs
  unfolding place_sorted
  place_sorted-first a [] h = refl
  place_sorted-first a (x ∷ xs) h = ground arith

  pub sorted-Ascending : (xs : List A) → Ascending xs → sorted xs ≡ xs
  unfolding sorted
  sorted-Ascending [] h = refl
  sorted-Ascending (x ∷ xs) h = rw (sorted-Ascending xs h.1) (place_sorted-first x xs h.0)

  -- A change that leaves the key alone does not change the order.
  module _ (f : A → A) (same : (a : A) → key (f a) ≡ key a) where
    place_sorted-map :
        (a : A) (xs : List A) → place_sorted (f a) (map f xs) ≡ map f (place_sorted a xs)
    unfolding place_sorted
    place_sorted-map a [] = refl
    place_sorted-map a (x ∷ xs) = elim (Bool-cases (leb (key a) (key x))) [
      | inl e ↦ rw (same a, same x, e)
      | inr e ↦ rw (same a, same x, e, place_sorted-map a xs)
    ]

    pub sorted-map : (xs : List A) → sorted (map f xs) ≡ map f (sorted xs)
    unfolding sorted
    sorted-map [] = refl
    sorted-map (x ∷ xs) = rw (sorted-map xs, place_sorted-map x (sorted xs))

-- Sorting by one key keeps another one distinct.
module _ {ℓ} {A : Type ℓ} (key id : A → ℕ) where
  place_sorted-Lacks :
      (k : ℕ) (a : A) (xs : List A) → id a ≢ k → Lacks id k xs → Lacks id k (place_sorted key a xs)
  unfolding place_sorted
  place_sorted-Lacks k a [] h l = (h, tt)
  place_sorted-Lacks k a (x ∷ xs) h l = elim (Bool-cases (leb (key a) (key x))) [
    | inl e ↦ rw e (h, l)
    | inr e ↦ rw e (l.0, place_sorted-Lacks k a xs h l.1)
  ]

  place_sorted-Distinct :
      (a : A) (xs : List A)
      → Lacks id (id a) xs
      → Distinct id xs
      → Distinct id (place_sorted key a xs)
  unfolding place_sorted
  place_sorted-Distinct a [] l d = (tt, tt)
  place_sorted-Distinct a (x ∷ xs) l d = elim (Bool-cases (leb (key a) (key x))) [
    | inl e ↦ rw e (l, d)
    | inr e ↦
        rw e (
          place_sorted-Lacks (id x) a xs (λ p. l.0 (sym p)) d.0,
          place_sorted-Distinct a xs l.1 d.1,
        )
  ]

  sorted-Lacks : (k : ℕ) (xs : List A) → Lacks id k xs → Lacks id k (sorted key xs)
  unfolding sorted
  sorted-Lacks k [] l = tt
  sorted-Lacks k (x ∷ xs) l = place_sorted-Lacks k x (sorted key xs) l.0 (sorted-Lacks k xs l.1)

  pub sorted-Distinct_by : (xs : List A) → Distinct id xs → Distinct id (sorted key xs)
  unfolding sorted
  sorted-Distinct_by [] d = tt
  sorted-Distinct_by (x ∷ xs) d =
      place_sorted-Distinct x (sorted key xs) (sorted-Lacks (id x) xs d.0)
        (sorted-Distinct_by xs d.1)

pub sorted-Distinct {ℓ} :
    {A : Type ℓ} (key : A → ℕ) (xs : List A) → Distinct key xs → Distinct key (sorted key xs)
sorted-Distinct key = sorted-Distinct_by key key
