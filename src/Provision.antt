-- ===== src/Provision.antt =====
-- Provisioning of edge boxes: backend/app/services/device_provision_service.py. The digits that are
-- drawn at random, new tokens and ids, and the clock are arguments; texts are numbers.
pub mod Claim
mod Tests
use nightfury.Prelude.{
  ℕ, zero, suc, ◌+◌, ◌*◌, List, [], ◌∷◌, ◌++◌, map, Option, none, some, Bool, true, false, not,
  ◌&&◌, ◌||◌, ltb, ◌==◌, if◌then◌else◌, first, any,
}
use nightfury.Redis.{Redis}

abbrev pub provision_ttl : ℕ
provision_ttl = 600

abbrev pub legacy_code_length : ℕ
legacy_code_length = 4

abbrev pub code_length : ℕ
code_length = 6

pub data Status : Type 0 where
  waiting claimed : Status

abbrev pub is_waiting : Status → Bool
is_waiting waiting = true
is_waiting claimed = false

pub record DeviceProvision : Type 0 where
  pub device_id : ℕ
  pub code : ℕ
  pub pubkey : ℕ
  pub machine_id : ℕ
  pub version : Option ℕ
  pub status : Status
  pub org_id : Option ℕ
  pub agent_id : Option ℕ
  pub device_token : Option ℕ
  pub relay_url : Option ℕ
  pub expires_at : ℕ
  pub claimed_at : Option ℕ

-- An agent that is provisioned is online.
pub record Agent : Type 0 where
  pub id : ℕ
  pub org_id : ℕ
  pub machine_id : ℕ
  pub pubkey : ℕ
  pub device_token_hash : ℕ
  pub device_token_id : ℕ
  pub version : Option ℕ
  pub online : Bool
  pub last_seen_at : ℕ

-- `duplicate` is the IntegrityError of the database for a primary key or a unique column.
pub data ProvisionError : Type 0 where
  bad_code other_device duplicate bad_token not_found : ProvisionError

pub data Outcome (A : Type 0) : Type 0 where
  err : ProvisionError → Outcome A
  ok : A → Outcome A

abbrev pub write_provision : DeviceProvision → List DeviceProvision → List DeviceProvision
write_provision p = map (λ r. if r.device_id == p.device_id then p else r)

abbrev pub waits_with_code : ℕ → DeviceProvision → Bool
waits_with_code code r = r.code == code && is_waiting r.status

-- The loop over collisions, with the rounds left; the code that is drawn last is not looked up.
pub resolve_code : ℕ → (ℕ → ℕ) → ℕ → List DeviceProvision → ℕ
resolve_code zero draw code rows = code
resolve_code (suc n) draw code rows =
    let later = resolve_code n draw (draw n) rows in
    elim (first (waits_with_code code) rows) [ none ↦ code | some _ ↦ later ]

-- `db.add` and `flush`: the device id is the primary key and the code is unique.
pub add_provision : DeviceProvision → List DeviceProvision → Option (List DeviceProvision)
add_provision p rows =
    if any (λ r. r.device_id == p.device_id || r.code == p.code) rows
    then none
    else some (rows ++ p ∷ [])

-- What a box sends, with the code of the row that it asks for.
pub record Request : Type 0 where
  pub device_id : ℕ
  pub code : ℕ
  pub pubkey : ℕ
  pub machine_id : ℕ
  pub version : Option ℕ

abbrev pub fresh_provision : ℕ → Request → ℕ → DeviceProvision
fresh_provision now q code = record {
  device_id = q.device_id;
  code = code;
  pubkey = q.pubkey;
  machine_id = q.machine_id;
  version = q.version;
  status = waiting;
  org_id = none;
  agent_id = none;
  device_token = none;
  relay_url = none;
  expires_at = now + provision_ttl;
  claimed_at = none;
}

-- What `DeviceTokenService.mint` returns.
pub record Minted : Type 0 where
  pub token : ℕ
  pub token_hash : ℕ
  pub token_id : ℕ

abbrev pub write_agent : Agent → List Agent → List Agent
write_agent a = map (λ b. if b.id == a.id then a else b)

-- The agent of `_finish_claim`, and the table with it. `new_id` is the id that the database gives.
pub link_agent :
    (now new_id org_id : ℕ) → Minted → DeviceProvision → List Agent → Agent × List Agent
link_agent now new_id org_id m p agents =
    elim (first (λ a. a.org_id == org_id && a.machine_id == p.machine_id) agents) [
      | some a ↦
          let a' : Agent = record a {
            pubkey = p.pubkey;
            device_token_hash = m.token_hash;
            device_token_id = m.token_id;
            version = p.version;
            online = true;
            last_seen_at = now;
          } in
          (a', write_agent a' agents)
      | none ↦
          let a' : Agent = record {
            id = new_id;
            org_id = org_id;
            machine_id = p.machine_id;
            pubkey = p.pubkey;
            device_token_hash = m.token_hash;
            device_token_id = m.token_id;
            version = p.version;
            online = true;
            last_seen_at = now;
          } in
          (a', agents ++ a' ∷ [])
    ]

abbrev pub is_live : ℕ → DeviceProvision → Bool
is_live now r = is_waiting r.status && ltb now r.expires_at

module _ ⦃redis : Redis⦄ where
  open redis use {Keys, get, setex, delete}

  -- The two tables, and the Redis keys of CLAIM_TOKEN_PREFIX.
  pub record Store : Type 0 where
    pub provisions : List DeviceProvision
    pub agents : List Agent
    pub claim_tokens : Keys ℕ

  -- `_mint_claim_token`
  pub mint_claim_token : (now claim_token device_id : ℕ) → Store → Store
  mint_claim_token now claim_token device_id s = record s {
    claim_tokens = setex now claim_token provision_ttl device_id s.claim_tokens;
  }

  -- `len` and `isdigit` are Python's, on texts.
  module _ (len : ℕ → ℕ) (isdigit : ℕ → Bool) where
    abbrev pub is_code : ℕ → Bool
    is_code code = (len code == legacy_code_length || len code == code_length) && isdigit code

    -- `provision` behind the search for a live request, and for one that exists.
    pub provision_new :
        (now claim_token : ℕ) → (ℕ → ℕ → ℕ) → Request → Store → Outcome DeviceProvision × Store
    provision_new now claim_token draw q s =
        let p = fresh_provision now q (resolve_code 10 (draw (len q.code)) q.code s.provisions) in
        elim (add_provision p s.provisions) [
          | none ↦ (err duplicate, s)
          | some rows ↦
              (ok p, mint_claim_token now claim_token p.device_id (record s { provisions = rows }))
        ]

    pub provision_again :
        (now claim_token : ℕ) → Request → DeviceProvision → Store → Outcome DeviceProvision × Store
    provision_again now claim_token q existing s =
        if existing.pubkey == q.pubkey && existing.machine_id == q.machine_id
        then (let p = record existing { expires_at = now + provision_ttl } in
            (
              ok p,
              mint_claim_token now claim_token p.device_id
                  (record s { provisions = write_provision p s.provisions }),
            ))
        else (err other_device, s)

    pub provision :
        (now claim_token : ℕ) → (ℕ → ℕ → ℕ) → Request → Store → Outcome DeviceProvision × Store
    provision now claim_token draw q s =
        if is_code q.code
        then elim (first (λ r. r.device_id == q.device_id && is_waiting r.status) s.provisions) [
          | some existing ↦ provision_again now claim_token q existing s
          | none ↦ provision_new now claim_token draw q s
        ]
        else (err bad_code, s)

  pub finish_claim :
      (now new_id org_id relay_url : ℕ) → Minted → DeviceProvision → Store → DeviceProvision × Store
  finish_claim now new_id org_id relay_url m p s =
      let (agent, agents) = link_agent now new_id org_id m p s.agents in
      let p' : DeviceProvision = record p {
        status = claimed;
        org_id = some org_id;
        agent_id = some agent.id;
        device_token = some m.token;
        relay_url = some relay_url;
        claimed_at = some now;
      } in
      (p', record s { agents = agents; provisions = write_provision p' s.provisions })

  pub claim :
      (now new_id org_id relay_url code : ℕ) → Minted → Store → Outcome DeviceProvision × Store
  claim now new_id org_id relay_url code m s =
      elim (first (λ r. r.code == code && is_live now r) s.provisions) [
        | none ↦ (err not_found, s)
        | some p ↦ let (p', s') = finish_claim now new_id org_id relay_url m p s in (ok p', s')
      ]

  -- `claim_by_token`: the token is deleted before the row is looked up.
  pub claim_device :
      (now new_id org_id relay_url device_id : ℕ) → Minted → Store → Outcome DeviceProvision × Store
  claim_device now new_id org_id relay_url device_id m s =
      elim (first (λ r. r.device_id == device_id && is_live now r) s.provisions) [
        | none ↦ (err not_found, s)
        | some p ↦ let (p', s') = finish_claim now new_id org_id relay_url m p s in (ok p', s')
      ]

  pub claim_by_token :
      (now new_id org_id relay_url claim_token : ℕ)
      → Minted
      → Store
      → Outcome DeviceProvision × Store
  claim_by_token now new_id org_id relay_url claim_token m s =
      let s' = record s { claim_tokens = delete claim_token s.claim_tokens } in
      elim (get now claim_token s.claim_tokens) [
        | none ↦ (err bad_token, s')
        | some device_id ↦ claim_device now new_id org_id relay_url device_id m s'
      ]
