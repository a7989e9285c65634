-- ===== src/Prelude/Lists.antt =====
-- Lists measured by native numbers, membership and predicates that compute, and the list
-- comprehensions of the source.
use Prim.Native.Nat.{ℕ, zero, suc, ◌+◌, ◌-◌, min}
use mathlib.Core.Path.{◌≡◌, refl, sym, subst}
use mathlib.Core.Logic.{◌⊎◌, inl, inr}
use mathlib.Core.Bool.{Bool, true, false, ◌||◌}
use mathlib.Core.List.{List, [], ◌∷◌, ◌++◌, map}
use mathlib.Core.Option.{Option, none, some}
use native.Mathlib.Omega.{arith}
use nightfury.Prelude.Tests.{if◌then◌else◌, ◌==◌, ==_iff, Bool-cases}

module _ {ℓ} {A : Type ℓ} where
  abbrev pub length : List A → ℕ
  length [] = 0
  length (x ∷ xs) = suc (length xs)

  abbrev pub get_elem? : List A → ℕ → Option A
  get_elem? [] i = none
  get_elem? (x ∷ xs) zero = some x
  get_elem? (x ∷ xs) (suc i) = get_elem? xs i

  abbrev pub take : ℕ → List A → List A
  take zero xs = []
  take (suc n) [] = []
  take (suc n) (x ∷ xs) = x ∷ take n xs

  abbrev pub drop : ℕ → List A → List A
  drop zero xs = xs
  drop (suc n) [] = []
  drop (suc n) (x ∷ xs) = drop n xs

  pub length-append : (xs ys : List A) → length (xs ++ ys) ≡ length xs + length ys
  length-append [] ys = omega arith
  length-append (x ∷ xs) ys = omega (arith, length-append xs ys)

  pub length-take : (n : ℕ) (xs : List A) → length (take n xs) ≡ min n (length xs)
  length-take zero xs = omega arith
  length-take (suc n) [] = omega arith
  length-take (suc n) (x ∷ xs) = omega (arith, length-take n xs)

  pub length-drop : (n : ℕ) (xs : List A) → length (drop n xs) ≡ length xs - n
  length-drop zero xs = omega arith
  length-drop (suc n) [] = omega arith
  length-drop (suc n) (x ∷ xs) = omega (arith, length-drop n xs)

  pub List-cases : (xs : List A) → (xs ≡ []) ⊎ ((x : A) × (ys : List A) × (xs ≡ x ∷ ys))
  List-cases [] = inl refl
  List-cases (x ∷ xs) = inr (x, xs, refl)

  -- `[x for x in xs if p(x)]`
  abbrev pub keep : (A → Bool) → List A → List A
  keep p [] = []
  keep p (x ∷ xs) = if p x then x ∷ keep p xs else keep p xs

  -- `any(p(x) for x in xs)`
  abbrev pub any : (A → Bool) → List A → Bool
  any p [] = false
  any p (x ∷ xs) = p x || any p xs

  -- `sum(f(x) for x in xs)`
  abbrev pub total : (A → ℕ) → List A → ℕ
  total f [] = 0
  total f (x ∷ xs) = f x + total f xs

  pub total-append : (f : A → ℕ) (xs ys : List A) → total f (xs ++ ys) ≡ total f xs + total f ys
  total-append f [] ys = omega arith
  total-append f (x ∷ xs) ys = omega (arith, total-append f xs ys)

  -- Where an element stands in a list.
  pub data In (a : A) : List A → Type ℓ where
    here : {xs : List A} → In a (a ∷ xs)
    there : {x : A} {xs : List A} → In a xs → In a (x ∷ xs)

  pub In-append_left : {a : A} {xs : List A} (ys : List A) → In a xs → In a (xs ++ ys)
  In-append_left ys here = here
  In-append_left ys (there m) = there (In-append_left ys m)

  pub In-append_right : {a : A} (xs : List A) {ys : List A} → In a ys → In a (xs ++ ys)
  In-append_right [] m = m
  In-append_right (x ∷ xs) m = there (In-append_right xs m)

  pub In-append : {a : A} (xs : List A) {ys : List A} → In a (xs ++ ys) → In a xs ⊎ In a ys
  In-append [] m = inr m
  In-append (x ∷ xs) here = inl here
  In-append (x ∷ xs) (there m) = elim (In-append xs m) [ inl l ↦ inl (there l) | inr r ↦ inr r ]

  pub In-keep : (p : A → Bool) (xs : List A) {a : A} → In a (keep p xs) → In a xs × (p a ≡ true)
  In-keep p [] m = elim m [ ]
  In-keep p (x ∷ xs) m = elim (Bool-cases (p x)) [
    | inl e ↦ kept e (In-keep p xs) (rw e at m)
    | inr e ↦ let (n, q) = In-keep p xs (rw e at m) in (there n, q)
  ]
    where
      kept :
          {a : A}
          → p x ≡ true
          → (In a (keep p xs) → In a xs × (p a ≡ true))
          → In a (x ∷ keep p xs)
          → In a (x ∷ xs) × (p a ≡ true)
      kept e f here = (here, e)
      kept e f (there n) = let (n', q) = f n in (there n', q)

  pub keep-In : (p : A → Bool) (xs : List A) {a : A} → In a xs → p a ≡ true → In a (keep p xs)
  keep-In p (x ∷ xs) here q = rw q here
  keep-In p (x ∷ xs) (there n) q = elim (Bool-cases (p x)) [
    | inl e ↦ rw e (there (keep-In p xs n q))
    | inr e ↦ rw e (keep-In p xs n q)
  ]
  keep-In p [] m q = elim m [ ]

  pub keep-eq-nil :
      (p : A → Bool) (xs : List A) → ((a : A) → In a xs → p a ≡ false) → keep p xs ≡ []
  keep-eq-nil p [] h = refl
  keep-eq-nil p (x ∷ xs) h = rw (h x here) (keep-eq-nil p xs (λ a m. h a (there m)))

module _ {ℓ} {A : Type ℓ} where
  pub In-cons : {a x : A} {xs : List A} → In a (x ∷ xs) → (x ≡ a) ⊎ In a xs
  In-cons here = inl refl
  In-cons (there m) = inr m

module _ {ℓ κ} {A : Type ℓ} {B : Type κ} where
  pub In-map : (f : A → B) {a : A} (xs : List A) → In a xs → In (f a) (map f xs)
  In-map f [] m = elim m [ ]
  In-map f (x ∷ xs) here = here
  In-map f (x ∷ xs) (there m) = there (In-map f xs m)

  pub map-In : (f : A → B) {b : B} (xs : List A) → In b (map f xs) → (a : A) × In a xs × (f a ≡ b)
  map-In f [] m = elim m [ ]
  map-In f (x ∷ xs) m = elim (In-cons m) [
    | inl e ↦ (x, here, e)
    | inr n ↦ let (a, k, e) = map-In f xs n in (a, there k, e)
  ]

module _ {ℓ} {A : Type ℓ} where
  -- A predicate at every element; it computes to a tuple.
  abbrev pub All {κ} : (A → Type κ) → List A → Type κ
  All P [] = Unit
  All P (x ∷ xs) = P x × All P xs

module _ {ℓ κ} {A : Type ℓ} where
  pub All-append : (P : A → Type κ) (xs ys : List A) → All P xs → All P ys → All P (xs ++ ys)
  All-append P [] ys h k = k
  All-append P (x ∷ xs) ys h k = (h.0, All-append P xs ys h.1 k)

  pub All-of_In : (P : A → Type κ) (xs : List A) → ((a : A) → In a xs → P a) → All P xs
  All-of_In P [] f = tt
  All-of_In P (x ∷ xs) f = (f x here, All-of_In P xs (λ a m. f a (there m)))

  pub All-map {μ} :
      (P : A → Type κ) (Q : A → Type μ) (xs : List A) → ((a : A) → P a → Q a) → All P xs → All Q xs
  All-map P Q [] f h = tt
  All-map P Q (x ∷ xs) f h = (f x h.0, All-map P Q xs f h.1)

  -- What an update makes of every element.
  pub All-map_list {μ} :
      (P : A → Type κ) (Q : A → Type μ) (f : A → A) (xs : List A)
      → ((a : A) → P a → Q (f a))
      → All P xs
      → All Q (map f xs)
  All-map_list P Q f [] h all = tt
  All-map_list P Q f (x ∷ xs) h all = (h x all.0, All-map_list P Q f xs h all.1)

  pub All-In : (P : A → Type κ) {a : A} {xs : List A} → All P xs → In a xs → P a
  All-In P h here = h.0
  All-In P h (there m) = All-In P h.1 m

-- What an optional value adds to a list.
abbrev pub option_list {ℓ} : {A : Type ℓ} → Option A → List A
option_list none = []
option_list (some a) = a ∷ []

-- `x in xs`, for numbers.
abbrev pub elem : ℕ → List ℕ → Bool
elem a [] = false
elem a (x ∷ xs) = a == x || elem a xs

pub elem-In : (a : ℕ) {xs : List ℕ} → In a xs → elem a xs ≡ true
elem-In a here = ground arith
elem-In a (there m) = ground (arith, elem-In a m)

pub In-elem : (a : ℕ) (xs : List ℕ) → elem a xs ≡ true → In a xs
In-elem a [] h = cc
In-elem a (x ∷ xs) h = elim (Bool-cases (a == x)) [
  | inl e ↦ let same : a ≡ x = (==_iff a x).0 e in subst (λ y. In y (x ∷ xs)) (sym same) here
  | inr e ↦ there (In-elem a xs (rw e at h))
]

module _ {ℓ} {A : Type ℓ} where
  pub take-In : (n : ℕ) (xs : List A) {a : A} → In a (take n xs) → In a xs
  take-In zero xs m = elim m [ ]
  take-In (suc n) [] m = elim m [ ]
  take-In (suc n) (x ∷ xs) m = elim (In-cons m) [
    | inl e ↦ subst (λ y. In y (x ∷ xs)) e here
    | inr k ↦ there (take-In n xs k)
  ]

-- The first element that passes a test, and the absence of one.
module _ {ℓ} {A : Type ℓ} (p : A → Bool) where
  unfoldable pub first : List A → Option A
  first [] = none
  first (x ∷ xs) = if p x then some x else first xs

  pub first-none : (xs : List A) → All (λ x. p x ≡ false) xs → first xs ≡ none
  unfolding first
  first-none [] h = refl
  first-none (x ∷ xs) (e, h) = rw e (first-none xs h)

  pub first-In : (xs : List A) (a : A) → first xs ≡ some a → In a xs × (p a ≡ true)
  unfolding first
  first-In [] a h = cc
  first-In (x ∷ xs) a h = elim (Bool-cases (p x)) [
    | inl e ↦
        let same : some x ≡ some a = (rw e at h) in
        let eq : x ≡ a = cc in (subst (λ y. In y (x ∷ xs)) eq here, subst (λ y. p y ≡ true) eq e)
    | inr e ↦ let (n, q) = first-In xs a (rw e at h) in (there n, q)
  ]

  -- Behind rows that fail the test, the first that passes is found.
  pub first-append :
      (xs : List A) (a : A) → first xs ≡ none → p a ≡ true → first (xs ++ a ∷ []) ≡ some a
  unfolding first
  first-append [] a h e = rw e refl
  first-append (x ∷ xs) a h e = elim (Bool-cases (p x)) [
    | inl q ↦ cc (rw q at h)
    | inr q ↦ rw q (first-append xs a (rw q at h) e)
  ]

pub first-map {ℓ} :
    {A : Type ℓ} (p : A → Bool) (f : A → A) (xs : List A)
    → ((x : A) → In x xs → p (f x) ≡ false)
    → first p (map f xs) ≡ none
unfolding first
first-map p f [] h = refl
first-map p f (x ∷ xs) h = rw (h x here) (first-map p f xs (λ y n. h y (there n)))
