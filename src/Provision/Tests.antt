-- ===== src/Provision/Tests.antt =====
-- The theorems on provisioning, at a table with one box that waits and one that is claimed.
use nightfury.Prelude.{ℕ, [], ◌∷◌, none, some, Bool, true, ◌==◌, ◌&&◌, ◌≡◌, refl, arith, first}
use nightfury.Prelude.Sort.{Distinct}
use nightfury.Redis.Memory.{in_memory}
use nightfury.Provision.{
  DeviceProvision, Status, is_waiting, waiting, claimed, Store, err, ok, not_found, Request, Minted,
  claim, finish_claim, link_agent,
}
use nightfury.Provision.Claim.{claim-once}

abbrev box : ℕ → ℕ → Status → DeviceProvision
box id code status = record {
  device_id = id;
  code = code;
  pubkey = 70;
  machine_id = 80;
  version = none;
  status = status;
  org_id = none;
  agent_id = none;
  device_token = none;
  relay_url = none;
  expires_at = 600;
  claimed_at = none;
}

abbrev store : Store
store = record {
  provisions = box 1 1111 waiting ∷ box 2 2222 claimed ∷ [];
  agents = [];
  claim_tokens = (900, record { value = 1; expires = 600 }) ∷ [];
}

abbrev minted : Minted
minted = record { token = 11; token_hash = 12; token_id = 13 }

-- Every text has four digits.
abbrev len : ℕ → ℕ
len code = 4

abbrev isdigit : ℕ → Bool
isdigit code = true

abbrev request : ℕ → ℕ → Request
request id key = record {
  device_id = id;
  code = 3333;
  pubkey = key;
  machine_id = 80;
  version = none;
}

abbrev claimed_box : DeviceProvision
claimed_box = record (box 1 1111 claimed) {
  org_id = some 5;
  agent_id = some 40;
  device_token = some 11;
  relay_url = some 60;
  claimed_at = some 100;
}

claim_run : (claim 100 40 5 60 1111 minted store).0 ≡ ok claimed_box
unfolding claim finish_claim link_agent first
claim_run = refl

provisions-Distinct : Distinct (λ r. r.code) store.provisions
provisions-Distinct = ground arith

claim-once_example :
    (claim 200 41 6 60 1111 minted (claim 100 40 5 60 1111 minted store).1).0 ≡ err not_found
claim-once_example =
    claim-once 100 200 40 5 41 6 60 1111 minted minted store claimed_box provisions-Distinct
      claim_run

waits :
    first (λ r. r.device_id == 1 && is_waiting r.status) store.provisions
    ≡ some (box 1 1111 waiting)
unfolding first
waits = refl

none_waits : first (λ r. r.device_id == 2 && is_waiting r.status) store.provisions ≡ none
unfolding first
none_waits = refl
