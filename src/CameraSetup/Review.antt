-- ===== src/CameraSetup/Review.antt =====
-- The groups of a review hold every row exactly once.
use nightfury.Prelude.{
  ℕ, List, [], ◌∷◌, ◌++◌, Option, none, some, Bool, true, false, not, ◌&&◌, ◌||◌, ◌≡◌, refl, inl,
  inr, any, total, total-append, In, here, there, Bool-cases, option_eq, arith,
}
use nightfury.Prelude.Sort.{sorted, sorted-total}
use nightfury.CameraSetup.Majority.{group_bucket-some}
use nightfury.CameraSetup.{
  has_scene, is_confident, CameraSetupProposal, Signature, ReviewGroup, Bucket, is_proposed,
  is_terminal, is_grouped, into_bucket, split_rows,
}
use nightfury.CameraSetup.Grouping.{
  key_number, is_text, comparable, group_buckets, needs_input_first, group_proposals,
}
use nightfury.CameraSetup.Partition.{
  weight, shown, total-map, group_buckets-weight, split_rows-weight,
}

-- A string cannot be compared with `None`.
abbrev pub Named : CameraSetupProposal → Type 0
Named r = is_terminal r.status ≡ true → is_text r.scene_type ≡ true

text_grouped :
    (s : Option ℕ) (p c t : Bool)
    → (t ≡ true → is_text s ≡ true)
    → (((p && has_scene s) && c) || t) ≡ true
    → is_text s ≡ true
text_grouped none p c t n h = elim (Bool-cases t) [ inl e ↦ n e | inr e ↦ ground arith ]
text_grouped (some s) p c t n h = refl

grouped-text :
    (r : CameraSetupProposal) → Named r → is_grouped r ≡ true → is_text r.scene_type ≡ true
grouped-text r n h =
    text_grouped r.scene_type (is_proposed r.status) (is_confident r.confidence)
      (is_terminal r.status) n h

abbrev textless : List Bucket → Bool
textless = any (λ b. not (is_text b.key))

into_bucket-text :
    (r : CameraSetupProposal) (buckets : List Bucket)
    → is_text r.scene_type ≡ true
    → textless buckets ≡ false
    → textless (into_bucket r buckets) ≡ false
unfolding into_bucket
into_bucket-text r [] h k = rw h refl
into_bucket-text r (b ∷ buckets) h k = elim (Bool-cases (option_eq b.key r.scene_type)) [
  | inl e ↦ rw e k
  | inr e ↦ rw e (ground (arith, into_bucket-text r buckets h))
]

split_rows-text :
    (rows : List CameraSetupProposal) (buckets : List Bucket)
    → ((r : CameraSetupProposal) → In r rows → Named r)
    → textless buckets ≡ false
    → textless (split_rows rows buckets).0 ≡ false
unfolding split_rows
split_rows-text [] buckets h k = k
split_rows-text (r ∷ rows) buckets h k = elim (Bool-cases (is_grouped r)) [
  | inl e ↦ rw e (
      split_rows-text rows (into_bucket r buckets) (λ x m. h x (there m))
        (into_bucket-text r buckets (grouped-text r (h r here) e) k))
  | inr e ↦ rw e (split_rows-text rows buckets (λ x m. h x (there m)) k)
]

textless-comparable : (buckets : List Bucket) → textless buckets ≡ false → comparable buckets ≡ true
textless-comparable [] h = refl
textless-comparable (b ∷ []) h = refl
textless-comparable (b ∷ c ∷ buckets) h = rw h refl

module _ (text : Signature → ℕ) where
  group_buckets-some :
      (buckets : List Bucket) → (gs : List ReviewGroup) × (group_buckets text buckets ≡ some gs)
  unfolding group_buckets
  group_buckets-some [] = ([], refl)
  group_buckets-some (b ∷ buckets) =
      let (g, e) = group_bucket-some text b in
      let (gs, q) = group_buckets-some buckets in (g ∷ gs, rw (e, q, group_buckets) refl)

  needs_input_first-weight :
      (f : ℕ → ℕ) (rows : List CameraSetupProposal)
      → total (weight f) (needs_input_first text rows) ≡ total (λ r. f r.id) rows
  needs_input_first-weight f [] = refl
  needs_input_first-weight f (r ∷ rows) = omega (arith, total-map f (λ m. m.id) (r ∷ rows))

  -- If every approved or rejected row has a scene type, the review returns its groups, and they hold
  -- every row exactly once, as proposals or as differing ones: whatever is summed over the ids,
  -- the groups and the rows give the same.
  pub group_proposals-partition :
      (rows : List CameraSetupProposal) (f : ℕ → ℕ)
      → ((r : CameraSetupProposal) → In r rows → Named r)
      → (gs : List ReviewGroup) × (group_proposals text rows ≡ some gs)
        × (total (weight f) gs ≡ total (λ r. f r.id) rows)
  unfolding group_proposals
  group_proposals-partition rows f h =
      let (buckets, needs) = split_rows rows [] in
      let key = λ (b : Bucket). key_number b.key in
      let fine = textless-comparable buckets (split_rows-text rows [] h refl) in
      let (gs, e) = group_buckets-some (sorted key buckets) in
      let w = group_buckets-weight text f (sorted key buckets) gs e in
      let s = sorted-total key (λ b. total (shown f) b.members) buckets in
      let n = needs_input_first-weight f needs in
      let a = total-append (weight f) (needs_input_first text needs) gs in
      let p = split_rows-weight text f rows [] in
      (needs_input_first text needs ++ gs, rw (fine, e) refl, omega (arith, w, s, n, a, p))
