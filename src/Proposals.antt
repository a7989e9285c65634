-- ===== src/Proposals.antt =====
-- Proposals of the assistant: backend/app/services/assistant/proposals.py, with the tables that it
-- reads and writes. The validation of a payload is pydantic's; texts are numbers.
pub mod Names
pub mod Apply
pub mod Connections
mod Tests
use nightfury.Prelude.{
  ℕ, ◌+◌, List, [], ◌∷◌, ◌++◌, map, Option, none, some, Bool, true, false, not, ◌&&◌, ◌||◌, ltb,
  leb, ◌==◌, if◌then◌else◌, keep, any, elem, first, length,
}
use nightfury.Prelude.Dict.{Dict, lookup, dict_of}
use nightfury.Access.{Role, User, has_role, scope_to_sites}
use nightfury.Journeys.{normalise_pair}

-- 24 hours, in seconds.
abbrev pub proposal_ttl : ℕ
proposal_ttl = 86_400

-- `CreateAlertRuleRequest`
pub record RuleBody : Type 0 where
  pub name : ℕ
  pub site_id : Option ℕ
  pub cameras : List ℕ
  pub event_types : List ℕ
  pub min_severity : ℕ
  pub time_window : Option (ℕ × ℕ)
  pub zones : List ℕ
  pub notify_channels : List ℕ
  pub notify_contacts : List ℕ
  pub webhook_url : Option ℕ
  pub cooldown_seconds : ℕ
  pub escalation : List ℕ

-- `CreateConnectionRequest`
pub record ConnectionBody : Type 0 where
  pub camera_a_id : ℕ
  pub camera_b_id : ℕ
  pub label : Option ℕ

-- A payload that was validated, by the kind of its proposal.
pub data Payload : Type 0 where
  alert_rule : RuleBody → Payload
  camera_connection : ConnectionBody → Payload

pub data Status : Type 0 where
  pending applied rejected expired : Status

-- The card's sentence, by what stands in it; a name is none for "a camera".
pub data Summary : Type 0 where
  connects : (a b : Option ℕ) (via : Option ℕ) → Summary
  creates :
      (name : ℕ) (channels : List ℕ) (severity : ℕ) (cameras : List (Option ℕ))
      (between : Option (ℕ × ℕ))
      → Summary

pub record Proposal : Type 0 where
  pub id : ℕ
  pub org_id : ℕ
  pub site_id : Option ℕ
  pub user_id : ℕ
  pub conversation_id : ℕ
  pub payload : Payload
  pub summary : Summary
  pub status : Status
  pub expires_at : ℕ
  pub applied_at : Option ℕ

pub record AlertRule : Type 0 where
  pub id : ℕ
  pub org_id : ℕ
  pub body : RuleBody

pub record Connection : Type 0 where
  pub id : ℕ
  pub org_id : ℕ
  pub site_id : ℕ
  pub camera_a_id : ℕ
  pub camera_b_id : ℕ
  pub label : Option ℕ

pub record Site : Type 0 where
  pub id : ℕ
  pub org_id : ℕ
  pub deleted_at : Option ℕ

pub record Camera : Type 0 where
  pub id : ℕ
  pub org_id : ℕ
  pub site_id : ℕ
  pub name : ℕ
  pub deleted_at : Option ℕ

pub record Tables : Type 0 where
  pub proposals : List Proposal
  pub rules : List AlertRule
  pub connections : List Connection
  pub sites : List Site
  pub cameras : List Camera

abbrev pub is_live : Option ℕ → Bool
is_live none = true
is_live (some _) = false

-- `ToolContext`, but for the session.
pub record ToolContext : Type 0 where
  pub user : User
  pub org_id : ℕ
  pub conversation_id : ℕ

-- `_resolve_camera_names`; for no ids the statement would find no row either.
pub resolve_camera_names : ToolContext → List ℕ → List Camera → Dict ℕ
resolve_camera_names ctx ids cameras = dict_of (
    map (λ c. (c.id, c.name))
      (scope_to_sites (λ c. c.site_id) ctx.user
        (keep (λ c. (elem c.id ids && c.org_id == ctx.org_id) && is_live c.deleted_at) cameras)))

pub camera_ids : Payload → List ℕ
camera_ids (alert_rule body) = body.cameras
camera_ids (camera_connection body) = body.camera_a_id ∷ body.camera_b_id ∷ []

pub render_summary : Payload → Dict ℕ → Summary
render_summary (camera_connection body) names =
    connects (lookup body.camera_a_id names) (lookup body.camera_b_id names) body.label
render_summary (alert_rule body) names =
    creates body.name body.notify_channels body.min_severity
      (map (λ c. lookup c names) body.cameras) body.time_window

-- `create_proposal`; `payload` is none where the validation raises.
pub create_proposal :
    (now new_id : ℕ) → ToolContext → Option Payload → Option ℕ → Tables → Option Proposal × Tables
unfolding resolve_camera_names camera_ids render_summary
create_proposal now new_id ctx none site_id s = (none, s)
create_proposal now new_id ctx (some payload) site_id s =
    let names = resolve_camera_names ctx (camera_ids payload) s.cameras in
    let prop : Proposal = record {
      id = new_id;
      org_id = ctx.org_id;
      site_id = site_id;
      user_id = ctx.user.id;
      conversation_id = ctx.conversation_id;
      payload = payload;
      summary = render_summary payload names;
      status = pending;
      expires_at = now + proposal_ttl;
      applied_at = none;
    } in
    (some prop, record s { proposals = s.proposals ++ prop ∷ [] })

-- The status codes of the exceptions: 400, 403, 404, 409.
pub data HttpError : Type 0 where
  bad_request forbidden not_found conflict : HttpError

pub data Outcome (A : Type 0) : Type 0 where
  err : HttpError → Outcome A
  ok : A → Outcome A

-- `_load_proposal_for_user`
pub load_proposal_for_user : User → ℕ → List Proposal → Option Proposal
load_proposal_for_user user proposal_id proposals =
    elim (first (λ p. p.id == proposal_id) proposals) [
      | none ↦ none
      | some p ↦ if p.org_id == user.org_id then some p else none
    ]

abbrev pub is_super_admin : Role → Bool
is_super_admin Role.super_admin = true
is_super_admin Role.owner = false
is_super_admin Role.admin = false
is_super_admin Role.operator = false
is_super_admin Role.viewer = false
is_super_admin Role.other = false

pub find_site : User → ℕ → List Site → Option Site
find_site user site_id sites =
    first (λ s. s.id == site_id)
      (scope_to_sites (λ s. s.id) user
        (keep (λ s. is_live s.deleted_at && (is_super_admin user.role || s.org_id == user.org_id))
          sites))

-- `_apply_alert_rule`
pub apply_alert_rule : (new_id : ℕ) → User → RuleBody → Tables → ℕ × Tables
apply_alert_rule new_id user body s = (
  new_id,
  record s { rules = s.rules ++ record { id = new_id; org_id = user.org_id; body = body } ∷ [] },
)

abbrev pub is_pair : ℕ × ℕ → Connection → Bool
is_pair (a, b) c = c.camera_a_id == a && c.camera_b_id == b

-- `_apply_camera_connection`, behind the checks.
pub connect : (new_id : ℕ) → Site → ConnectionBody → Tables → ℕ × Tables
connect new_id site body s =
    let pair = normalise_pair body.camera_a_id body.camera_b_id in
    elim (first (is_pair pair) s.connections) [
      | some existing ↦ (existing.id, s)
      | none ↦ (
        new_id,
        record s {
          connections =
              s.connections
              ++ record {
                id = new_id;
                org_id = site.org_id;
                site_id = site.id;
                camera_a_id = pair.0;
                camera_b_id = pair.1;
                label = body.label;
              }
                ∷ [];
        },
      )
    ]

pub apply_to_site : (new_id : ℕ) → Site → ConnectionBody → Tables → Outcome ℕ × Tables
unfolding connect
apply_to_site new_id site body s =
    let cameras =
      keep (λ c. (c.id == body.camera_a_id || c.id == body.camera_b_id) && is_live c.deleted_at)
        s.cameras in
    if body.camera_a_id == body.camera_b_id
    then (err bad_request, s)
    else if not (length cameras == 2)
    then (err not_found, s)
    else if any (λ c. not (c.site_id == site.id)) cameras
    then (err bad_request, s)
    else (let (id, s') = connect new_id site body s in (ok id, s'))

pub apply_camera_connection :
    (new_id : ℕ) → User → Option ℕ → ConnectionBody → Tables → Outcome ℕ × Tables
unfolding find_site apply_to_site
apply_camera_connection new_id user none body s = (err conflict, s)
apply_camera_connection new_id user (some site_id) body s = elim (find_site user site_id s.sites) [
  | none ↦ (err not_found, s)
  | some site ↦ apply_to_site new_id site body s
]

-- The applier of the kind.
pub apply_payload : (new_id : ℕ) → User → Option ℕ → Payload → Tables → Outcome ℕ × Tables
unfolding apply_alert_rule apply_camera_connection
apply_payload new_id user site_id (alert_rule body) s =
    let (id, s') = apply_alert_rule new_id user body s in (ok id, s')
apply_payload new_id user site_id (camera_connection body) s =
    apply_camera_connection new_id user site_id body s

abbrev pub write_proposal : Proposal → List Proposal → List Proposal
write_proposal p = map (λ r. if r.id == p.id then p else r)

pub data Applied : Type 0 where
  already : Applied
  created : ℕ → Applied

-- `apply_proposal` on a pending proposal.
pub apply_pending : (now new_id : ℕ) → User → Proposal → Tables → Outcome Applied × Tables
unfolding apply_payload
apply_pending now new_id user p s =
    if leb p.expires_at now
    then (
      err conflict,
      record s { proposals = write_proposal (record p { status = expired }) s.proposals },
    )
    else if has_role user Role.admin
    then (let (result, s') = apply_payload new_id user p.site_id p.payload s in
        elim result [
          | err e ↦ (err e, s')
          | ok id ↦ (
            ok (created id),
            record s' {
              proposals =
                  write_proposal (record p { status = applied; applied_at = some now })
                    s'.proposals;
            },
          )
        ])
    else (err forbidden, s)

pub apply_loaded : (now new_id : ℕ) → User → Proposal → Tables → Outcome Applied × Tables
unfolding apply_pending
apply_loaded now new_id user p s = elim p.status [
  | applied ↦ (ok already, s)
  | rejected ↦ (err conflict, s)
  | expired ↦ (err conflict, s)
  | pending ↦ apply_pending now new_id user p s
]

pub apply_proposal : (now new_id : ℕ) → User → ℕ → Tables → Outcome Applied × Tables
unfolding load_proposal_for_user apply_loaded
apply_proposal now new_id user proposal_id s =
    elim (load_proposal_for_user user proposal_id s.proposals) [
      | none ↦ (err not_found, s)
      | some p ↦ apply_loaded now new_id user p s
    ]

abbrev pub is_pending : Status → Bool
is_pending pending = true
is_pending applied = false
is_pending rejected = false
is_pending expired = false

pub reject_proposal : User → ℕ → Tables → Outcome (Unit {0}) × Tables
unfolding load_proposal_for_user
reject_proposal user proposal_id s = elim (load_proposal_for_user user proposal_id s.proposals) [
  | none ↦ (err not_found, s)
  | some p ↦
      if is_pending p.status
      then (
        ok tt,
        record s { proposals = write_proposal (record p { status = rejected }) s.proposals },
      )
      else (err conflict, s)
]

-- `get_db` of app/core/database.py around a handler: an exception rolls the session back.
pub with_db : {A : Type 0} → (Tables → Outcome A × Tables) → Tables → Outcome A × Tables
with_db handler s = elim (handler s).0 [ err e ↦ (err e, s) | ok a ↦ (ok a, (handler s).1) ]
