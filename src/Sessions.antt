-- ===== src/Sessions.antt =====
-- Sessions and lockouts: backend/app/core/sessions.py. Redis is behind its interface; a
-- clock reading is a number of ticks of a second. Encryption, fingerprints and
-- session ids come from other modules and the system: they are parameters.
pub mod Validity
pub mod Lockout
mod Tests
use nightfury.Prelude.{
  ℕ, ◌+◌, ◌-◌, List, [], ◌∷◌, ◌++◌, Option, none, some, Bool, true, false, not, ltb, leb, ◌==◌,
  if◌then◌else◌, keep, elem, ◌≡◌,
}
use nightfury.Prelude.Dict.{get_or}
use nightfury.Redis.{Redis}

abbrev pub session_idle_ttl : ℕ
session_idle_ttl = 3600

abbrev pub session_max_ttl : ℕ
session_max_ttl = 86_400

abbrev pub lockout_threshold : ℕ
lockout_threshold = 5

abbrev pub lockout_duration : ℕ
lockout_duration = 900

pub record Session : Type 0 where
  pub user_id : ℕ
  pub org_id : Option ℕ
  pub username : ℕ
  pub role : ℕ
  pub fingerprint : ℕ
  pub created_at : ℕ
  pub last_active : ℕ
  pub ip : ℕ
  pub impersonated_by : Option ℕ

abbrev pub members : Option (List ℕ) → List ℕ
members none = []
members (some ids) = ids

-- SADD and SREM
abbrev pub add_member : ℕ → List ℕ → List ℕ
add_member a ids = if elem a ids then ids else a ∷ ids

abbrev pub remove_member : ℕ → List ℕ → List ℕ
remove_member a = keep (λ b. not (b == a))

-- `app.core.security`: tokens that carry a session id, and the device's fingerprint.
pub record Security : Type 1 where
  pub Token : Type 0
  pub encrypt_token : (sid now : ℕ) → Token
  pub decrypt_token : Token → Option ℕ
  pub compute_device_fingerprint : (ip user_agent : ℕ) → ℕ
  -- An encrypted token decrypts to what it was made of.
  pub decrypt-encrypt : (sid now : ℕ) → decrypt_token (encrypt_token sid now) ≡ some sid

module _ ⦃redis : Redis⦄ where
  open redis use {Keys, get, setex, delete, modify}

  -- The keys `session:…`, `user_sessions:…`, `login_failures:…` and `lockout:…`.
  pub record Store : Type 0 where
    pub sessions : Keys Session
    pub user_sessions : Keys (List ℕ)
    pub login_failures : Keys ℕ
    pub lockouts : Keys (Unit {0})

  -- `revoke_session`, once the token is decrypted. SREM keeps the set's expiry.
  pub revoke_sid : ℕ → ℕ → Store → Store
  revoke_sid now sid s = elim (get now sid s.sessions) [
    | none ↦ record s { sessions = delete sid s.sessions }
    | some session ↦ record s {
      sessions = delete sid s.sessions;
      user_sessions = modify session.user_id (remove_member sid) s.user_sessions;
    }
  ]

  module _ (sec : Security) where
    open sec use {Token, encrypt_token, decrypt_token, compute_device_fingerprint}

    pub create_session :
        (now sid user_id : ℕ) (org_id : Option ℕ) (username role ip user_agent : ℕ)
        (impersonated_by : Option ℕ)
        → Store
        → Token × Store
    create_session now sid user_id org_id username role ip user_agent impersonated_by s = (
      encrypt_token sid now,
      record s {
        sessions =
            setex now sid session_max_ttl
              (record {
                user_id = user_id;
                org_id = org_id;
                username = username;
                role = role;
                fingerprint = compute_device_fingerprint ip user_agent;
                created_at = now;
                last_active = now;
                ip = ip;
                impersonated_by = impersonated_by;
              })
              s.sessions;
        user_sessions =
            setex now user_id session_max_ttl
              (add_member sid (members (get now user_id s.user_sessions))) s.user_sessions;
      },
    )

    pub revoke_session : ℕ → Token → Store → Store
    unfolding revoke_sid
    revoke_session now token s = elim (decrypt_token token) [
      | none ↦ s
      | some sid ↦ revoke_sid now sid s
    ]

    -- The checks of `validate_session` on the session that the token points to.
    pub validate_sid : (now sid ip user_agent : ℕ) → Session → Store → Option Session × Store
    unfolding revoke_sid
    validate_sid now sid ip user_agent session s =
        if session.fingerprint == compute_device_fingerprint ip user_agent
        then (if ltb (session.last_active + session_idle_ttl) now
            then (none, revoke_sid now sid s)
            else if ltb (session.created_at + session_max_ttl) now
            then (none, revoke_sid now sid s)
            else (let session' = record session { last_active = now } in
                let remaining_ttl = session.created_at + session_max_ttl - now in
                (
                  some session',
                  if ltb 0 remaining_ttl
                      then record s { sessions = setex now sid remaining_ttl session' s.sessions }
                      else s,
                )))
        else (none, s)

    pub validate_session : (now : ℕ) → Token → (ip user_agent : ℕ) → Store → Option Session × Store
    unfolding validate_sid
    validate_session now token ip user_agent s = elim (decrypt_token token) [
      | none ↦ (none, s)
      | some sid ↦ elim (get now sid s.sessions) [
        | none ↦ (none, s)
        | some session ↦ validate_sid now sid ip user_agent session s
      ]
    ]

  -- `for sid in session_ids: await redis_client.delete(…)`
  pub delete_sessions : List ℕ → Keys Session → Keys Session
  delete_sessions [] d = d
  delete_sessions (sid ∷ sids) d = delete_sessions sids (delete sid d)

  pub revoke_all_user_sessions : ℕ → ℕ → Store → Store
  unfolding delete_sessions
  revoke_all_user_sessions now user_id s = record s {
    sessions = delete_sessions (members (get now user_id s.user_sessions)) s.sessions;
    user_sessions = delete user_id s.user_sessions;
  }

  -- INCR, then EXPIRE: a key that has expired counts from 0.
  pub record_failed_login : ℕ → ℕ → Store → Store
  record_failed_login now username s =
      let count = get_or 0 (get now username s.login_failures) + 1 in
      let s' = record s {
        login_failures = setex now username lockout_duration count s.login_failures;
      } in
      if leb lockout_threshold count
      then record s' { lockouts = setex now username lockout_duration tt s.lockouts }
      else s'

  pub is_locked_out : ℕ → ℕ → Store → Bool
  is_locked_out now username s = elim (get now username s.lockouts) [ none ↦ false | some _ ↦ true ]

  pub clear_failed_attempts : ℕ → Store → Store
  clear_failed_attempts username s = record s { login_failures = delete username s.login_failures }
