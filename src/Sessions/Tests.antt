-- ===== src/Sessions/Tests.antt =====
-- The theorems on sessions, with a token that is its session id and a fingerprint that adds up.
use nightfury.Prelude.{ℕ, ◌+◌, List, [], ◌∷◌, ◌≡◌, ◌↔◌, refl, none, some, true, elem, arith}
use nightfury.Prelude.Dict.{lookup, insert}
use nightfury.Redis.Memory.{in_memory, get, setex}
use nightfury.Sessions.{
  Security, Session, Store, create_session, validate_session, validate_sid,
  revoke_all_user_sessions, is_locked_out, members,
}
use nightfury.Sessions.Lockout.{record_all, Close, last_time, record_all-locks}
use nightfury.Sessions.Validity.{
  create_session-validate_session, validate_session-Admitted, Admitted,
  revoke_all_user_sessions-validate_session,
}

abbrev security : Security
security = record {
  Token = ℕ;
  encrypt_token = λ sid now. sid;
  decrypt_token = λ token. some token;
  compute_device_fingerprint = λ ip user_agent. ip + user_agent;
  decrypt-encrypt = λ sid now. refl;
}

abbrev session : Session
session = record {
  user_id = 1;
  org_id = none;
  username = 9;
  role = 40;
  fingerprint = 30;
  created_at = 100;
  last_active = 100;
  ip = 10;
  impersonated_by = none;
}

abbrev store : Store
store = record {
  sessions = (5, record { value = session; expires = 86_500 }) ∷ [];
  user_sessions = (1, record { value = 5 ∷ []; expires = 86_500 }) ∷ [];
  login_failures = [];
  lockouts = [];
}

create_session-validate_session_example :
    let (token, s') = create_session security 300 6 2 none 9 40 10 20 none store in
    (validate_session security 400 token 10 20 s').0
    ≡ some (record {
      user_id = 2;
      org_id = none;
      username = 9;
      role = 40;
      fingerprint = 30;
      created_at = 300;
      last_active = 400;
      ip = 10;
      impersonated_by = none;
    })
create_session-validate_session_example =
    create_session-validate_session security 300 6 2 none 9 40 10 20 none store 400 (omega arith)
      (omega arith)

validated :
    (validate_session security 200 5 10 20 store).0 ≡ some (record session { last_active = 200 })
unfolding validate_session validate_sid get setex lookup insert
validated = refl

validate_session-Admitted_example :
    ((validate_session security 200 5 10 20 store).0 ≡ some (record session { last_active = 200 }))
    ↔ Admitted security 200 10 20 5 store (record session { last_active = 200 })
validate_session-Admitted_example =
    validate_session-Admitted security 200 10 20 5 store (record session { last_active = 200 })

listed : elem 5 (members (get 200 1 store.user_sessions)) ≡ true
unfolding get lookup
listed = refl

revoke_all_user_sessions-validate_session_example :
    (validate_session security 210 5 10 20 (revoke_all_user_sessions 200 1 store)).0 ≡ none
revoke_all_user_sessions-validate_session_example =
    revoke_all_user_sessions-validate_session security 200 210 1 5 10 20 5 store refl listed

abbrev times : List ℕ
times = 10 ∷ 20 ∷ 30 ∷ 900 ∷ []

times-Close : Close 0 times
unfolding Close
times-Close = ground arith

record_all-locks_example : is_locked_out 1700 9 (record_all (0 ∷ times) 9 store) ≡ true
unfolding last_time
record_all-locks_example =
    record_all-locks 0 9 1700 times store times-Close (omega arith) (omega arith)
