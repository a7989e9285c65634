-- ===== src/CameraSetup/Partition.antt =====
-- What the groups of a review hold, measured by a function of the rows' ids.
use nightfury.Prelude.{
  ℕ, ◌+◌, List, [], ◌∷◌, ◌++◌, map, Option, none, some, Bool, true, not, ◌&&◌, ◌||◌, ◌≡◌, refl, ap,
  sym, inl, inr, if◌then◌else◌, keep, total, total-append, Bool-cases, Option-cases, List-cases,
  option_eq, arith,
}
use nightfury.CameraSetup.{
  Status, has_scene, is_confident, CameraSetupProposal, Signature, ReviewGroup, Bucket, is_proposed,
  is_terminal, is_grouped, into_bucket, split_rows,
}
use nightfury.CameraSetup.Grouping.{majority, agrees, agreed, around, group_bucket, group_buckets}

-- The sum of `f` over the rows that a group shows.
abbrev pub weight : (ℕ → ℕ) → ReviewGroup → ℕ
weight f g = total f g.proposal_ids + total f g.differing_proposal_ids

-- What `f` adds for a row of a bucket.
abbrev pub shown : (ℕ → ℕ) → CameraSetupProposal → ℕ
shown f m =
    (if is_proposed m.status then f m.id else 0) + (if is_terminal m.status then f m.id else 0)

module _ {ℓ} {A : Type ℓ} where
  pub total-map :
      {B : Type ℓ} (f : B → ℕ) (g : A → B) (xs : List A)
      → total f (map g xs) ≡ total (λ x. f (g x)) xs
  total-map f g [] = refl
  total-map f g (x ∷ xs) = omega (arith, total-map f g xs)

  total-keep :
      (f : A → ℕ) (p : A → Bool) (xs : List A)
      → total f (keep p xs) + total f (keep (λ x. not (p x)) xs) ≡ total f xs
  total-keep f p [] = refl
  total-keep f p (x ∷ xs) = ground (arith, total-keep f p xs)

  total-two :
      (f : A → ℕ) (p q : A → Bool) (xs : List A)
      → total f (keep p xs) + total f (keep q xs)
        ≡ total (λ x. (if p x then f x else 0) + (if q x then f x else 0)) xs
  total-two f p q [] = refl
  total-two f p q (x ∷ xs) = ground (arith, total-two f p q xs)

one_status :
    (st : Status) (a b : Bool) (n : ℕ)
    → ((((is_proposed st && a) && b) || is_terminal st) ≡ true)
    → (if is_proposed st then n else 0) + (if is_terminal st then n else 0) ≡ n
one_status Status.pending a b n h = cc
one_status Status.proposed a b n h = omega arith
one_status Status.needs_input a b n h = cc
one_status Status.failed a b n h = cc
one_status Status.approved a b n h = omega arith
one_status Status.rejected a b n h = omega arith

module _ (text : Signature → ℕ) (f : ℕ → ℕ) where
  abbrev got : Option ReviewGroup → ℕ
  got none = 0
  got (some g) = weight f g

  abbrev sum_got : Option (List ReviewGroup) → ℕ
  sum_got none = 0
  sum_got (some gs) = total (weight f) gs

  agreed-weight :
      (key : Option ℕ) (agreeing terminal differing : List CameraSetupProposal) (g : ReviewGroup)
      → agreed text key agreeing terminal differing ≡ some g
      → weight f g
        ≡ total (λ m. f m.id) agreeing
          + total (λ m. f m.id) terminal
          + total (λ m. f m.id) differing
  unfolding agreed
  agreed-weight key [] terminal differing g h = cc
  agreed-weight key (m ∷ more) terminal differing g h =
      let a = total-map f (λ r. r.id) ((m ∷ more) ++ terminal) in
      let b = total-append (λ r. f r.id) (m ∷ more) terminal in
      let d = total-map f (λ r. r.id) differing in let e = ap got h in omega (arith, a, b, d, e)

  around-weight :
      (b : Bucket) (s : Signature) (g : ReviewGroup)
      → around text b s ≡ some g
      → weight f g ≡ total (shown f) b.members
  unfolding around
  around-weight b s g h =
      let members = keep (λ m. is_proposed m.status) b.members in
      let two =
        total-two (λ m. f m.id) (λ m. is_proposed m.status) (λ m. is_terminal m.status) b.members in
      let k = agreed-weight b.key (keep (agrees text s) members) _ _ g h in
      let p = total-keep (λ m. f m.id) (agrees text s) members in omega (arith, k, p, two)

  group_bucket-weight :
      (b : Bucket) (g : ReviewGroup)
      → group_bucket text b ≡ some g
      → weight f g ≡ total (shown f) b.members
  unfolding group_bucket around
  group_bucket-weight b g h =
      let members = keep (λ m. is_proposed m.status) b.members in
      let terminal = keep (λ m. is_terminal m.status) b.members in
      let two =
        total-two (λ m. f m.id) (λ m. is_proposed m.status) (λ m. is_terminal m.status) b.members in
      elim (List-cases members) [
        | inl e ↦
            let h' = rw (e, group_bucket) at h in
            let t = ap (total (λ m. f m.id)) e in
            let a = total-map f (λ r. r.id) terminal in
            let k = ap got h' in omega (arith, a, t, k, two)
        | inr (m, more, e) ↦ elim (Option-cases (majority text (m ∷ more))) [
          | inl q ↦ cc (rw (e, q, group_bucket) at h)
          | inr (s, q) ↦ around-weight b s g (rw (e, q, group_bucket) at h)
        ]
      ]

  pub group_buckets-weight :
      (buckets : List Bucket) (gs : List ReviewGroup)
      → group_buckets text buckets ≡ some gs
      → total (weight f) gs ≡ total (λ b. total (shown f) b.members) buckets
  unfolding group_buckets
  group_buckets-weight [] gs h = sym (ap sum_got h)
  group_buckets-weight (b ∷ buckets) gs h = elim (Option-cases (group_bucket text b)) [
    | inl e ↦ cc (rw (e, group_buckets) at h)
    | inr (g, e) ↦ elim (Option-cases (group_buckets text buckets)) [
      | inl q ↦ cc (rw (e, q, group_buckets) at h)
      | inr (more, q) ↦
          let k = ap sum_got (rw (e, q, group_buckets) at h) in
          let w = group_bucket-weight b g e in
          let rest = group_buckets-weight buckets more q in omega (arith, k, w, rest)
    ]
  ]

  into_bucket-weight :
      (r : CameraSetupProposal) (buckets : List Bucket)
      → total (λ b. total (shown f) b.members) (into_bucket r buckets)
        ≡ shown f r + total (λ b. total (shown f) b.members) buckets
  unfolding into_bucket
  into_bucket-weight r [] = omega arith
  into_bucket-weight r (b ∷ buckets) = elim (Bool-cases (option_eq b.key r.scene_type)) [
    | inl e ↦ rw e (omega (arith, total-append (shown f) b.members (r ∷ [])))
    | inr e ↦ rw e (omega (arith, into_bucket-weight r buckets))
  ]

  shown-grouped : (r : CameraSetupProposal) → is_grouped r ≡ true → shown f r ≡ f r.id
  shown-grouped r h =
      one_status r.status (has_scene r.scene_type) (is_confident r.confidence) (f r.id) h

  pub split_rows-weight :
      (rows : List CameraSetupProposal) (buckets : List Bucket)
      → let (done, needs) = split_rows rows buckets in
        total (λ b. total (shown f) b.members) done + total (λ m. f m.id) needs
        ≡ total (λ b. total (shown f) b.members) buckets + total (λ m. f m.id) rows
  unfolding split_rows
  split_rows-weight [] buckets = refl
  split_rows-weight (r ∷ rows) buckets = elim (Bool-cases (is_grouped r)) [
    | inl e ↦ rw e (
        omega (
          arith,
          split_rows-weight rows (into_bucket r buckets),
          into_bucket-weight r buckets,
          shown-grouped r e,
        ))
    | inr e ↦ rw e (omega (arith, split_rows-weight rows buckets))
  ]
