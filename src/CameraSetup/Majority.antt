-- ===== src/CameraSetup/Majority.antt =====
-- The majority signature of a bucket is the signature of one of its rows.
use nightfury.Prelude.{
  ℕ, ◌+◌, List, [], ◌∷◌, Option, none, some, true, ◌≡◌, refl, ap, sym, ◌∙◌, ◌⊎◌, inl, inr, ◌&&◌,
  ◌||◌, ltb, keep, keep-In, In, In-cons, here, there, Bool-cases, Option-cases, List-cases, ==_refl,
  ◌==◌,
}
use mathlib.Core.Path.{subst}
use nightfury.CameraSetup.{
  Level, CameraSetupProposal, Signature, ReviewGroup, Bucket, signature, is_proposed, same_level,
  same_events, same_signature, bump, tally,
}
use nightfury.CameraSetup.Grouping.{best, majority, agrees, agreed, around, group_bucket}

same_events_refl : (xs : List ℕ) → same_events xs xs ≡ true
same_events_refl [] = refl
same_events_refl (x ∷ xs) = rw (==_refl x, same_events_refl xs) refl

same_level_refl : (l : Option Level) → same_level l l ≡ true
same_level_refl none = refl
same_level_refl (some Level.low) = refl
same_level_refl (some Level.medium) = refl
same_level_refl (some Level.high) = refl

pub same_signature_refl : (s : Signature) → same_signature s s ≡ true
unfolding same_signature
same_signature_refl s =
    rw (same_events_refl s.events, same_level_refl s.sensitivity)
      elim (Bool-cases s.pose) [ inl e ↦ rw e refl | inr e ↦ rw e refl ]

-- Whose signature a count is for.
abbrev Cast : List CameraSetupProposal → Signature → Type 0
Cast members s = (m : CameraSetupProposal) × In m members × (signature m.proposal ≡ s)

bump-In :
    (s : Signature) (counts : List (Signature × ℕ)) (c : Signature × ℕ)
    → In c (bump s counts)
    → (s ≡ c.0) ⊎ ((d : Signature × ℕ) × In d counts × (d.0 ≡ c.0))
unfolding bump
bump-In s [] c m = elim (In-cons m) [ inl e ↦ inl (ap (λ p. p.0) e) | inr k ↦ elim k [ ] ]
bump-In s ((t, n) ∷ counts) c m = elim (Bool-cases (same_signature t s)) [
  | inl e ↦ elim (In-cons (rw (e, bump) at m)) [
    | inl q ↦ inr ((t, n), here, ap (λ p. p.0) q)
    | inr k ↦ inr (c, there k, refl)
  ]
  | inr e ↦ elim (In-cons (rw (e, bump) at m)) [
    | inl q ↦ inr ((t, n), here, ap (λ p. p.0) q)
    | inr k ↦ elim (bump-In s counts c k) [ inl q ↦ inl q | inr (d, dm, q) ↦ inr (d, there dm, q) ]
  ]
]

tally-Cast :
    (members : List CameraSetupProposal) (counts : List (Signature × ℕ)) (c : Signature × ℕ)
    → In c (tally members counts)
    → Cast members c.0 ⊎ ((d : Signature × ℕ) × In d counts × (d.0 ≡ c.0))
unfolding tally
tally-Cast [] counts c m = inr (c, m, refl)
tally-Cast (r ∷ members) counts c m =
    elim (tally-Cast members (bump (signature r.proposal) counts) c m) [
      | inl (x, xm, e) ↦ inl (x, there xm, e)
      | inr (d, dm, e) ↦ elim (bump-In (signature r.proposal) counts d dm) [
        | inl q ↦ inl (r, here, q ∙ e)
        | inr (b, bm, q) ↦ inr (b, bm, q ∙ e)
      ]
    ]

-- A count stays a count.
bump-filled :
    (s : Signature) (counts : List (Signature × ℕ))
    → (c : Signature × ℕ) × (more : List (Signature × ℕ)) × (bump s counts ≡ c ∷ more)
unfolding bump
bump-filled s [] = (_, _, refl)
bump-filled s ((t, n) ∷ counts) = elim (Bool-cases (same_signature t s)) [
  | inl e ↦ ((t, n + 1), counts, rw e refl)
  | inr e ↦ ((t, n), bump s counts, rw e refl)
]

tally-filled :
    (members : List CameraSetupProposal) (counts : List (Signature × ℕ)) (c : Signature × ℕ)
    (more : List (Signature × ℕ))
    → counts ≡ c ∷ more
    → (d : Signature × ℕ) × (rest : List (Signature × ℕ)) × (tally members counts ≡ d ∷ rest)
unfolding tally
tally-filled [] counts c more h = (c, more, h)
tally-filled (r ∷ members) counts c more h =
    let (d, rest, e) = bump-filled (signature r.proposal) counts in tally-filled members _ d rest e

module _ (text : Signature → ℕ) where
  best-In :
      (top : Signature × ℕ) (counts : List (Signature × ℕ))
      → In (best text top counts) (top ∷ counts)
  unfolding best
  best-In top [] = here
  best-In (s, n) ((t, k) ∷ more) =
      elim (Bool-cases (ltb n k || (n == k && ltb (text s) (text t)))) [
        | inl e ↦ rw e (there (best-In (t, k) more))
        | inr e ↦ rw e (elim (In-cons (best-In (s, n) more)) [
          | inl q ↦ subst (λ x. In x ((s, n) ∷ (t, k) ∷ more)) q here
          | inr m ↦ there (there m)
        ])
      ]

  majority-Cast :
      (m : CameraSetupProposal) (more : List CameraSetupProposal)
      → (s : Signature) × (majority text (m ∷ more) ≡ some s) × Cast (m ∷ more) s
  unfolding majority tally
  majority-Cast m more =
      let (c, rest, e) = bump-filled (signature m.proposal) [] in
      let (d, others, q) = tally-filled more (bump (signature m.proposal) []) c rest e in
      let top = best text d others in
      let w : Cast (m ∷ more) top.0 =
        elim (tally-Cast (m ∷ more) [] top (subst (λ l. In top l) (sym q) (best-In d others))) [
          | inl known ↦ known
          | inr (x, xm, _) ↦ elim xm [ ]
        ] in
      (top.0, rw (q, majority) refl, w)

  around-not_none :
      (b : Bucket) (s : Signature)
      → Cast (keep (λ m. is_proposed m.status) b.members) s
      → around text b s ≡ none
      → (g : ReviewGroup) × (group_bucket text b ≡ some g)
  unfolding around agreed
  around-not_none b s (x, m, same) z =
      let members = keep (λ m. is_proposed m.status) b.members in
      let there_is = keep-In (agrees text s) members m (
        subst (λ t. same_signature (signature x.proposal) t ≡ true) same
          (same_signature_refl (signature x.proposal))) in
      elim (List-cases (keep (agrees text s) members)) [
        | inl n ↦ elim (subst (λ l. In x l) n there_is) [ ]
        | inr (y, ys, n) ↦ cc (rw (n, around, agreed) at z)
      ]

  -- Every bucket has its group.
  pub group_bucket-some : (b : Bucket) → (g : ReviewGroup) × (group_bucket text b ≡ some g)
  unfolding group_bucket
  group_bucket-some b = elim (Option-cases (group_bucket text b)) [
    | inr found ↦ found
    | inl z ↦ elim (List-cases (keep (λ m. is_proposed m.status) b.members)) [
      | inl e ↦ cc (rw (e, group_bucket) at z)
      | inr (m, more, e) ↦
          let (s, q, known) = majority-Cast m more in
          around-not_none b s (subst (λ l. Cast l s) (sym e) known) (rw (e, q, group_bucket) at z)
    ]
  ]
