-- ===== src/Provision/Claim.antt =====
-- Claims of provisioned boxes.
use nightfury.Prelude.{
  ℕ, List, [], ◌∷◌, none, some, Bool, true, false, Bool-cases, Option-cases, ◌==◌, ◌&&◌, ◌||◌,
  if◌then◌else◌, first, ◌≡◌, refl, ◌∙◌, inl, inr, first-In, first-map, In, here, there, any, arith,
}
use mathlib.Core.Path.{ap}
use nightfury.Prelude.Sort.{Distinct, Distinct-eq}
use nightfury.Redis.{Redis}
use nightfury.Provision.{
  DeviceProvision, Store, bad_token, not_found, other_device, duplicate, err, ok, claimed,
  is_waiting, is_live, write_provision, resolve_code, add_provision, Request, fresh_provision,
  is_code, provision_new, provision_again, provision, Minted, finish_claim, claim, claim_device,
  claim_by_token,
}

module _ ⦃redis : Redis⦄ where
  open redis use {Keys, get, setex, delete, get-delete}

  claim_device-claim_tokens :
      (now new_id org_id relay_url device_id : ℕ) (m : Minted) (s : Store)
      → (claim_device now new_id org_id relay_url device_id m s).1.claim_tokens ≡ s.claim_tokens
  unfolding claim_device finish_claim
  claim_device-claim_tokens now new_id org_id relay_url device_id m s = ground arith

  claim_by_token-claim_tokens :
      (now new_id org_id relay_url claim_token : ℕ) (m : Minted) (s : Store)
      → (claim_by_token now new_id org_id relay_url claim_token m s).1.claim_tokens
        ≡ delete claim_token s.claim_tokens
  unfolding claim_by_token
  claim_by_token-claim_tokens now new_id org_id relay_url claim_token m s =
      elim (Option-cases (get now claim_token s.claim_tokens)) [
        | inl e ↦ rw (e, claim_by_token) refl
        | inr (d, e) ↦
            rw (e, claim_by_token)
              (claim_device-claim_tokens now new_id org_id relay_url d m
                (record s { claim_tokens = delete claim_token s.claim_tokens }))
      ]

  -- A claim token is spent by the first claim that presents it, whether that claim succeeds or not.
  pub claim_by_token-once :
      (now at new_id org_id other_id other_org relay_url claim_token : ℕ) (m n : Minted) (s : Store)
      → (claim_by_token at other_id other_org relay_url claim_token n
          (claim_by_token now new_id org_id relay_url claim_token m s).1).0
        ≡ err bad_token
  unfolding claim_by_token
  claim_by_token-once now at new_id org_id other_id other_org relay_url claim_token m n s =
      let s' = (claim_by_token now new_id org_id relay_url claim_token m s).1 in
      let gone : get at claim_token s'.claim_tokens ≡ none =
        ap (get at claim_token)
          (claim_by_token-claim_tokens now new_id org_id relay_url claim_token m s)
        ∙ ground (arith, get-delete at claim_token claim_token s.claim_tokens) in
      simp (gone, claim_by_token) refl

  -- A box that waits under another key or on another machine is not given away: the request fails and
  -- changes nothing.
  pub provision-other_device :
      (len : ℕ → ℕ) (isdigit : ℕ → Bool) (now claim_token : ℕ) (draw : ℕ → ℕ → ℕ) (q : Request)
      (s : Store) (existing : DeviceProvision)
      → is_code len isdigit q.code ≡ true
      → first (λ r. r.device_id == q.device_id && is_waiting r.status) s.provisions ≡ some existing
      → (existing.pubkey == q.pubkey && existing.machine_id == q.machine_id) ≡ false
      → provision len isdigit now claim_token draw q s ≡ (err other_device, s)
  unfolding provision provision_again
  provision-other_device len isdigit now claim_token draw q s existing c e other =
      simp (c, e, other, provision) refl

  any-first :
      (d c : ℕ) (rows : List DeviceProvision) (r : DeviceProvision)
      → In r rows
      → r.device_id ≡ d
      → any (λ x. x.device_id == d || x.code == c) rows ≡ true
  any-first d c [] r n e = elim n [ ]
  any-first d c (x ∷ rows) r here e = ground arith
  any-first d c (x ∷ rows) r (there n) e = ground (arith, any-first d c rows r n e)

  -- A box whose row is claimed can not be provisioned again: the database refuses the new row.
  pub provision_claimed :
      (len : ℕ → ℕ) (isdigit : ℕ → Bool) (now claim_token : ℕ) (draw : ℕ → ℕ → ℕ) (q : Request)
      (s : Store) (r : DeviceProvision)
      → is_code len isdigit q.code ≡ true
      → In r s.provisions
      → r.device_id ≡ q.device_id
      → first (λ r. r.device_id == q.device_id && is_waiting r.status) s.provisions ≡ none
      → provision len isdigit now claim_token draw q s ≡ (err duplicate, s)
  unfolding provision provision_new add_provision
  provision_claimed len isdigit now claim_token draw q s r c m e none_waits =
      let code = resolve_code 10 (draw (len q.code)) q.code s.provisions in
      let refused : add_provision (fresh_provision now q code) s.provisions ≡ none =
        simp (any-first q.device_id code s.provisions r m e, add_provision) refl in
      simp (c, none_waits, refused, provision, provision_new) refl

  -- After the row with a code was written, claimed, no row with the code waits.
  written-not_live :
      (at code : ℕ) (row row' : DeviceProvision) (rows : List DeviceProvision)
      → Distinct (λ r. r.code) rows
      → In row rows
      → row.code ≡ code
      → row'.device_id ≡ row.device_id
      → row'.status ≡ claimed
      → (r : DeviceProvision) → In r rows
      → let w = if r.device_id == row'.device_id then row' else r in
        (w.code == code && is_live at w) ≡ false
  written-not_live at code row row' rows distinct m c d st r n =
      elim (Bool-cases (r.device_id == row'.device_id)) [
        | inl e ↦ rw e (ground arith)
        | inr e ↦ rw e (elim (Bool-cases (r.code == code)) [
          | inr other ↦ rw other refl
          | inl same ↦
              let eq : r ≡ row = Distinct-eq (λ r. r.code) rows r row distinct n m (ground arith) in
              let ids : r.device_id ≡ row.device_id = ap (λ x. x.device_id) eq in ground arith
        ])
      ]

  -- A code is claimed once: where codes are unique, after a claim that succeeds every
  -- later claim with that code finds nothing.
  pub claim-once :
      (now at new_id org_id other_id other_org relay_url code : ℕ) (m n : Minted) (s : Store)
      (p : DeviceProvision)
      → Distinct (λ r. r.code) s.provisions
      → (claim now new_id org_id relay_url code m s).0 ≡ ok p
      → (claim at other_id other_org relay_url code n
          (claim now new_id org_id relay_url code m s).1).0
        ≡ err not_found
  unfolding claim finish_claim
  claim-once now at new_id org_id other_id other_org relay_url code m n s p distinct h =
      elim (Option-cases (first (λ r. r.code == code && is_live now r) s.provisions)) [
        | inl e ↦ cc (rw (e, claim) at h)
        | inr (row, e) ↦
            let row' = (finish_claim now new_id org_id relay_url m row s).0 in
            let done : (claim now new_id org_id relay_url code m s).1.provisions
                ≡ write_provision row' s.provisions =
              simp (e, claim, finish_claim) refl in
            let found = first-In (λ r. r.code == code && is_live now r) s.provisions row e in
            let none_left : first (λ r. r.code == code && is_live at r)
                  (claim now new_id org_id relay_url code m s).1.provisions
                ≡ none =
              ap (first (λ r. r.code == code && is_live at r)) done
              ∙ first-map (λ r. r.code == code && is_live at r)
                  (λ r. if r.device_id == row'.device_id then row' else r) s.provisions
                  (written-not_live at code row row' s.provisions distinct found.0 (ground arith)
                    refl refl) in
            simp (none_left, claim) refl
      ]
