-- ===== src/CameraSetup/Grouping.antt =====
-- `group_proposals` of backend/app/services/camera_setup/grouping.py, behind the split into buckets.
use nightfury.Prelude.{
  ℕ, List, [], ◌∷◌, ◌++◌, map, Option, none, some, Bool, true, false, not, ◌&&◌, ◌||◌, ltb, ◌==◌,
  if◌then◌else◌, keep, any, length,
}
use nightfury.Prelude.Sort.{sorted}
use nightfury.CameraSetup.{
  CameraSetupProposal, Signature, ReviewGroup, Bucket, scene, needs_input_group, signature,
  is_proposed, is_terminal, same_signature, split_rows, tally,
}

-- The scene type as `sorted` compares it.
abbrev pub key_number : Option ℕ → ℕ
key_number none = 0
key_number (some k) = k

abbrev pub is_text : Option ℕ → Bool
is_text none = false
is_text (some k) = true

-- Whether `sorted` can compare the keys: one key is compared with nothing, and `None` with no string.
abbrev pub comparable : List Bucket → Bool
comparable [] = true
comparable (b ∷ []) = true
comparable (b ∷ c ∷ buckets) = not (any (λ x. not (is_text x.key)) (b ∷ c ∷ buckets))

-- `text s` is `str(s)`, numbered in the order of strings.
module _ (text : Signature → ℕ) where
  -- The running value of `max`, which keeps the first of equals.
  unfoldable pub best : Signature × ℕ → List (Signature × ℕ) → Signature × ℕ
  best top [] = top
  best (s, n) ((t, k) ∷ more) =
      if ltb n k || (n == k && ltb (text s) (text t)) then best (t, k) more else best (s, n) more

  -- The majority signature; `max` raises for no signatures.
  unfoldable pub majority : List CameraSetupProposal → Option Signature
  unfolding best tally
  majority members = elim (tally members []) [ [] ↦ none | c ∷ more ↦ some (best c more).0 ]

  abbrev pub agrees : Signature → CameraSetupProposal → Bool
  agrees s m = same_signature (signature m.proposal) s

  -- The group whose agreeing rows are given; `proposed_agreeing[0]` raises when there are none.
  unfoldable pub agreed :
      Option ℕ → (agreeing terminal differing : List CameraSetupProposal) → Option ReviewGroup
  agreed key [] terminal differing = none
  agreed key (m ∷ more) terminal differing = some (record {
    scene_type = scene key;
    bulk_approvable = ltb 1 (length (m ∷ more));
    shared_config = some (record {
      events = m.proposal.enabled_events;
      sensitivity = m.proposal.sensitivity;
      pose = m.proposal.suggest_pose;
    });
    proposal_ids = map (λ r. r.id) ((m ∷ more) ++ terminal);
    differing_proposal_ids = map (λ r. r.id) differing;
  })

  -- The group around a majority signature.
  unfoldable pub around : Bucket → Signature → Option ReviewGroup
  unfolding same_signature agreed
  around b s =
      let members = keep (λ m. is_proposed m.status) b.members in
      let terminal = keep (λ m. is_terminal m.status) b.members in
      agreed b.key (keep (agrees s) members) terminal (keep (λ r. not (agrees s r)) members)

  unfoldable pub group_bucket : Bucket → Option ReviewGroup
  unfolding majority around
  group_bucket b = elim (keep (λ m. is_proposed m.status) b.members) [
    | [] ↦ some (record {
      scene_type = scene b.key;
      bulk_approvable = false;
      shared_config = none;
      proposal_ids = map (λ r. r.id) (keep (λ m. is_terminal m.status) b.members);
      differing_proposal_ids = [];
    })
    | m ∷ more ↦ elim (majority (m ∷ more)) [ none ↦ none | some s ↦ around b s ]
  ]

  unfoldable pub group_buckets : List Bucket → Option (List ReviewGroup)
  unfolding group_bucket
  group_buckets [] = some []
  group_buckets (b ∷ buckets) = elim (group_bucket b) [
    | none ↦ none
    | some g ↦ elim (group_buckets buckets) [ none ↦ none | some gs ↦ some (g ∷ gs) ]
  ]

  -- The group of the rows that need input, if there are any.
  abbrev pub needs_input_first : List CameraSetupProposal → List ReviewGroup
  needs_input_first [] = []
  needs_input_first (r ∷ rows) =
      record {
        scene_type = needs_input_group;
        bulk_approvable = false;
        shared_config = none;
        proposal_ids = map (λ m. m.id) (r ∷ rows);
        differing_proposal_ids = [];
      }
      ∷ []

  unfoldable pub group_proposals : List CameraSetupProposal → Option (List ReviewGroup)
  unfolding split_rows group_buckets
  group_proposals rows =
      let (buckets, needs) = split_rows rows [] in
      if comparable buckets
      then elim (group_buckets (sorted (λ b. key_number b.key) buckets)) [
        | none ↦ none
        | some gs ↦ some (needs_input_first needs ++ gs)
      ]
      else none
