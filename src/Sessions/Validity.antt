-- ===== src/Sessions/Validity.antt =====
-- When a token stands for a session: backend/app/core/sessions.py.
use nightfury.Prelude.{
  ℕ, ◌+◌, ◌≤◌, ◌≡◌, ◌↔◌, refl, true, Bool-cases, ◌==◌, Option, none, some, Option-cases, List, [],
  ◌∷◌, elem, inl, inr, arith,
}
use nightfury.Redis.{Redis}
use nightfury.Sessions.{
  Store, Session, Security, delete_sessions, members, create_session, revoke_sid, revoke_session,
  validate_sid, validate_session, revoke_all_user_sessions, session_idle_ttl, session_max_ttl,
}

module _ ⦃redis : Redis⦄ where
  open redis use {Keys, get, setex, delete, modify, get-setex, get-delete}

  -- A session that is deleted is gone; the others' entries stay.
  get-delete_sessions-none :
      (at sid : ℕ) (sids : List ℕ) (d : Keys Session)
      → get at sid d ≡ none
      → get at sid (delete_sessions sids d) ≡ none
  unfolding delete_sessions
  get-delete_sessions-none at sid [] d h = h
  get-delete_sessions-none at sid (i ∷ sids) d h =
      get-delete_sessions-none at sid sids (delete i d) (ground (arith, get-delete at i sid d))

  get-delete_sessions :
      (at sid : ℕ) (sids : List ℕ) (d : Keys Session)
      → elem sid sids ≡ true
      → get at sid (delete_sessions sids d) ≡ none
  unfolding delete_sessions
  get-delete_sessions at sid [] d h = ground arith
  get-delete_sessions at sid (i ∷ sids) d h = elim (Bool-cases (sid == i)) [
    | inl e ↦
        get-delete_sessions-none at sid sids (delete i d) (ground (arith, get-delete at i sid d))
    | inr e ↦ get-delete_sessions at sid sids (delete i d) (ground arith)
  ]

  revoke_sid-get : (now at sid : ℕ) (s : Store) → get at sid (revoke_sid now sid s).sessions ≡ none
  unfolding revoke_sid
  revoke_sid-get now at sid s = elim (Option-cases (get now sid s.sessions)) [
    | inl e ↦ simp (e, revoke_sid) (ground (arith, get-delete at sid sid s.sessions))
    | inr (x, e) ↦ simp (e, revoke_sid) (ground (arith, get-delete at sid sid s.sessions))
  ]

  module _ (sec : Security) where
    open sec use {Token, encrypt_token, decrypt_token, compute_device_fingerprint, decrypt-encrypt}

    -- In the store that `revoke_session` of a token leaves, no request is let in with it, at any time and
    -- from any device.
    pub revoke_session-validate_session :
        (now at ip user_agent : ℕ) (token : Token) (s : Store)
        → (validate_session sec at token ip user_agent (revoke_session sec now token s)).0 ≡ none
    unfolding validate_session revoke_session
    revoke_session-validate_session now at ip user_agent token s =
        elim (Option-cases (decrypt_token token)) [
          | inl e ↦ rw (e, validate_session) refl
          | inr (sid, e) ↦
              simp (e, validate_session, revoke_session, revoke_sid-get now at sid s) refl
        ]

    -- A session that was just created is valid for a request of the same device within an hour, and the
    -- request is its last activity.
    pub create_session-validate_session :
        (now sid user_id : ℕ) (org_id : Option ℕ) (username role ip user_agent : ℕ) (by : Option ℕ)
        (s : Store) (at : ℕ)
        → now ≤ at
        → at ≤ now + session_idle_ttl
        → let (token, s') =
            create_session sec now sid user_id org_id username role ip user_agent by s in
          (validate_session sec at token ip user_agent s').0
          ≡ some (record {
            user_id = user_id;
            org_id = org_id;
            username = username;
            role = role;
            fingerprint = compute_device_fingerprint ip user_agent;
            created_at = now;
            last_active = at;
            ip = ip;
            impersonated_by = by;
          })
    unfolding create_session validate_session validate_sid
    create_session-validate_session now sid user_id org_id username role ip user_agent by s at le
          idle =
        let session : Session = record {
          user_id = user_id;
          org_id = org_id;
          username = username;
          role = role;
          fingerprint = compute_device_fingerprint ip user_agent;
          created_at = now;
          last_active = now;
          ip = ip;
          impersonated_by = by;
        } in
        simp
          (
            decrypt-encrypt sid now,
            validate_session,
            get-setex now at sid sid session_max_ttl session s.sessions,
          )
          (ground arith)

    -- What a request needs: a session under the token's id, of the device that asks, with activity in
    -- the last hour, and no older than a day.
    pub record Admitted (now ip user_agent : ℕ) (token : Token) (s : Store) (session : Session)
        : Type 0 where
      pub sid : ℕ
      pub stored : Session
      pub named : decrypt_token token ≡ some sid
      pub found : get now sid s.sessions ≡ some stored
      pub device : stored.fingerprint ≡ compute_device_fingerprint ip user_agent
      pub active : now ≤ stored.last_active + session_idle_ttl
      pub young : now ≤ stored.created_at + session_max_ttl
      pub touched : session ≡ record stored { last_active = now }

    validate_sid_iff :
        (now sid ip user_agent : ℕ) (stored : Session) (s : Store) (session : Session)
        → ((validate_sid sec now sid ip user_agent stored s).0 ≡ some session) ↔ (
            (stored.fingerprint ≡ compute_device_fingerprint ip user_agent)
            × (now ≤ stored.last_active + session_idle_ttl)
            × (now ≤ stored.created_at + session_max_ttl)
            × (session ≡ record stored { last_active = now }))
    unfolding validate_sid
    validate_sid_iff now sid ip user_agent stored s session =
        (λ h. (ground arith, ground arith, ground arith, ground arith), λ h. ground arith)

    -- `validate_session` returns a session exactly if the token names a stored one of the device that
    -- asks, which was active in the last hour and is no older than a day; what it returns is that
    -- session with now as its last activity.
    pub validate_session-Admitted :
        (now ip user_agent : ℕ) (token : Token) (s : Store) (session : Session)
        → ((validate_session sec now token ip user_agent s).0 ≡ some session)
          ↔ Admitted now ip user_agent token s session
    unfolding validate_session
    validate_session-Admitted now ip user_agent token s session = (
      λ h. elim (Option-cases (decrypt_token token)) [
        | inl e ↦ cc (rw (e, validate_session) at h)
        | inr (sid, e) ↦ elim (Option-cases (get now sid s.sessions)) [
          | inl g ↦ cc (simp (e, g, validate_session) at h)
          | inr (stored, g) ↦
              let (device, active, young, touched) =
                (validate_sid_iff now sid ip user_agent stored s session).0
                  (simp (e, g, validate_session) at h) in
              record {
                sid = sid;
                stored = stored;
                named = e;
                found = g;
                device = device;
                active = active;
                young = young;
                touched = touched;
              }
        ]
      ],
      λ a.
          simp (a.named, a.found, validate_session)
            ((validate_sid_iff now a.sid ip user_agent a.stored s session).1
              (a.device, a.active, a.young, a.touched)),
    )

    -- Once `revoke_all_user_sessions` has run, a token of any session that the user's set listed lets
    -- no request in.
    pub revoke_all_user_sessions-validate_session :
        (now at user_id sid ip user_agent : ℕ) (token : Token) (s : Store)
        → decrypt_token token ≡ some sid
        → elem sid (members (get now user_id s.user_sessions)) ≡ true
        → (validate_session sec at token ip user_agent (revoke_all_user_sessions now user_id s)).0
          ≡ none
    unfolding validate_session revoke_all_user_sessions
    revoke_all_user_sessions-validate_session now at user_id sid ip user_agent token s e listed =
        simp
          (
            e,
            validate_session,
            get-delete_sessions at sid (members (get now user_id s.user_sessions)) s.sessions
                listed,
          )
          refl
