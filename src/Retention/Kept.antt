-- ===== src/Retention/Kept.antt =====
-- What a pass of the retention leaves alone.
use nightfury.Prelude.{
  ℕ, ◌+◌, ◌*◌, ◌<◌, List, [], ◌∷◌, map, ◌≡◌, ◌⊎◌, refl, inl, inr, Option, none, some, Bool, true,
  false, All, option_list, not, keep, elem, In-elem, take-In, In, In-append_left, here, there,
  In-keep, keep-In, map-In, Bool-cases, Option-cases, arith,
}
use nightfury.Prelude.Sort.{sorted-In, Distinct, Distinct-eq, Distinct-keep}
use nightfury.Retention.{
  BlobRun, deleted, raised, Uri, empty, foreign, malformed, object, is_gone, delete_gcs_object,
  delete_clip, Organization, Event, retention_days_for, is_expired, is_live, media_gone, batch,
  batch_limit, purge_expired, purge_org, purge_loop, purge_all,
}

-- Why `delete_gcs_object` takes a URI for done: it names no object of the store, or the deletion of the
-- object returned, or raised an exception whose text contains '404' or 'Not Found'.
pub data Taken (delete_blob : ℕ → ℕ → BlobRun) : Uri → Type 0 where
  no_uri : Taken delete_blob empty
  elsewhere : Taken delete_blob foreign
  returned :
      {bucket name : ℕ} → delete_blob bucket name ≡ deleted → Taken delete_blob (object bucket name)
  says_404 :
      {bucket name : ℕ} {has_not_found : Bool}
      → delete_blob bucket name ≡ raised true has_not_found
      → Taken delete_blob (object bucket name)
  says_not_found :
      {bucket name : ℕ} {has_404 : Bool}
      → delete_blob bucket name ≡ raised has_404 true
      → Taken delete_blob (object bucket name)

module _ (delete_blob : ℕ → ℕ → BlobRun) where
  is_gone-Taken :
      (bucket name : ℕ) (run : BlobRun)
      → delete_blob bucket name ≡ run
      → is_gone delete_blob run ≡ true
      → Taken delete_blob (object bucket name)
  is_gone-Taken bucket name deleted e h = returned e
  is_gone-Taken bucket name (raised true n) e h = says_404 e
  is_gone-Taken bucket name (raised false true) e h = says_not_found e
  is_gone-Taken bucket name (raised false false) e h = cc

  delete_gcs_object-Taken :
      (uri : Uri) → delete_gcs_object delete_blob uri ≡ true → Taken delete_blob uri
  unfolding delete_gcs_object
  delete_gcs_object-Taken empty h = no_uri
  delete_gcs_object-Taken foreign h = elsewhere
  delete_gcs_object-Taken malformed h = cc
  delete_gcs_object-Taken (object bucket name) h =
      is_gone-Taken bucket name (delete_blob bucket name) refl h

  delete_clip-Taken :
      (clip : Option Uri)
      → delete_clip delete_blob clip ≡ true
      → All (Taken delete_blob) (option_list clip)
  delete_clip-Taken none h = tt
  delete_clip-Taken (some uri) h = (delete_gcs_object-Taken uri h, tt)

  -- Why an event may go.
  pub record Due (now : ℕ) (orgs : List Organization) (e : Event) : Type 0 where
    pub org : Organization
    pub listed : In org orgs
    pub own : e.org_id ≡ org.id
    pub days : ℕ
    pub configured : retention_days_for org.retention_days ≡ some days
    pub past : e.timestamp + days * 86_400 < now
    pub snapshot : Taken delete_blob e.snapshot_url
    pub clip : All (Taken delete_blob) (option_list e.clip_url)

  batch-In :
      (now org_id days : ℕ) (events : List Event) (e : Event)
      → In e (batch delete_blob now org_id days events)
      → In e events × (is_expired now org_id days e ≡ true)
  unfolding batch
  batch-In now org_id days events e m =
      In-keep (is_expired now org_id days) events
        (sorted-In (λ e. e.timestamp) _ (take-In batch_limit _ m))

  purge_expired-keeps :
      (now org_id days : ℕ) (events : List Event) (e : Event)
      → Distinct (λ e. e.id) events
      → In e events
      → In e (purge_expired delete_blob now org_id days events).1
        ⊎ ((is_expired now org_id days e ≡ true) × (media_gone delete_blob e ≡ true))
  unfolding purge_expired
  purge_expired-keeps now org_id days events e d m =
      let gone = keep (media_gone delete_blob) (batch delete_blob now org_id days events) in
      elim (Bool-cases (elem e.id (map (λ e. e.id) gone))) [
        | inr out ↦
            inl (keep-In (λ e. not (elem e.id (map (λ e. e.id) gone))) events m (ground arith))
        | inl listed ↦
            let (x, n, key) = map-In (λ e. e.id) gone (In-elem e.id _ listed) in
            let (k, ok) = In-keep (media_gone delete_blob) _ n in
            let (known, late) = batch-In now org_id days events x k in
            let same = Distinct-eq (λ e. e.id) events x e d known m key in
            inr (rw same at late, rw same at ok)
      ]

  purge_org-keeps :
      (now : ℕ) (org : Organization) (events : List Event) (e : Event)
      → Distinct (λ e. e.id) events
      → In e events
      → In e (purge_org delete_blob now org events).1 ⊎ Due now (org ∷ []) e
  unfolding purge_org
  purge_org-keeps now org events e d m =
      elim (Option-cases (retention_days_for org.retention_days)) [
        | inl f ↦ inl (rw (f, purge_org) m)
        | inr (days, f) ↦ elim (purge_expired-keeps now org.id days events e d m) [
          | inl k ↦ inl (rw (f, purge_org) k)
          | inr (late, ok) ↦ inr (record {
            org = org;
            listed = here;
            own = ground arith;
            days = days;
            configured = f;
            past = ground arith;
            snapshot = delete_gcs_object-Taken e.snapshot_url (ground arith);
            clip = delete_clip-Taken e.clip_url (ground arith);
          })
        ]
      ]

  purge_org-Distinct :
      (now : ℕ) (org : Organization) (events : List Event)
      → Distinct (λ e. e.id) events
      → Distinct (λ e. e.id) (purge_org delete_blob now org events).1
  unfolding purge_org purge_expired
  purge_org-Distinct now org events d =
      elim (Option-cases (retention_days_for org.retention_days)) [
        | inl f ↦ rw (f, purge_org) d
        | inr (days, f) ↦ rw (f, purge_org) (Distinct-keep (λ e. e.id) _ events d)
      ]

  purge_org-In :
      (now : ℕ) (org : Organization) (events : List Event) (e : Event)
      → In e (purge_org delete_blob now org events).1
      → In e events
  unfolding purge_org purge_expired
  purge_org-In now org events e m = elim (Option-cases (retention_days_for org.retention_days)) [
    | inl f ↦ (rw (f, purge_org) at m)
    | inr (days, f) ↦ (In-keep _ events (rw (f, purge_org) at m)).0
  ]

  Due-weaken :
      (now : ℕ) (orgs more : List Organization) (e : Event)
      → ((o : Organization) → In o orgs → In o more)
      → Due now orgs e
      → Due now more e
  Due-weaken now orgs more e f h = record {
    org = h.org;
    listed = f h.org h.listed;
    own = h.own;
    days = h.days;
    configured = h.configured;
    past = h.past;
    snapshot = h.snapshot;
    clip = h.clip;
  }

  purge_loop-keeps :
      (now : ℕ) (orgs : List Organization) (events : List Event) (e : Event)
      → Distinct (λ e. e.id) events
      → In e events
      → In e (purge_loop delete_blob now orgs events).1 ⊎ Due now orgs e
  unfolding purge_loop
  purge_loop-keeps now [] events e d m = inl m
  purge_loop-keeps now (org ∷ orgs) events e d m = elim (purge_org-keeps now org events e d m) [
    | inr h ↦ inr (Due-weaken now (org ∷ []) (org ∷ orgs) e (λ o n. In-append_left orgs n) h)
    | inl k ↦
        elim (purge_loop-keeps now orgs (purge_org delete_blob now org events).1 e
          (purge_org-Distinct now org events d) k) [
            | inl l ↦ inl l
            | inr h ↦ inr (Due-weaken now orgs (org ∷ orgs) e (λ o n. there n) h)
          ]
  ]

  purge_loop-In :
      (now : ℕ) (orgs : List Organization) (events : List Event) (e : Event)
      → In e (purge_loop delete_blob now orgs events).1
      → In e events
  unfolding purge_loop
  purge_loop-In now [] events e m = m
  purge_loop-In now (org ∷ orgs) events e m =
      purge_org-In now org events e
        (purge_loop-In now orgs (purge_org delete_blob now org events).1 e m)

-- With distinct event ids, a retention sweep removes an event only if it belongs to an organisation
-- that is not deleted and has set a window, is older than that window, and each of its URIs names no
-- object of the store, or one whose deletion returned or raised an exception with '404' or 'Not
-- Found' in its text. What it leaves was there before.
pub purge_all-Due :
    (delete_blob : ℕ → ℕ → BlobRun) (now : ℕ) (orgs : List Organization) (events : List Event)
    (e : Event)
    → Distinct (λ e. e.id) events
    → let events' = (purge_all delete_blob now orgs events).1 in
      (In e events' → In e events)
      × (In e events → In e events' ⊎ Due delete_blob now (keep (λ o. is_live o.deleted_at) orgs) e)
unfolding purge_all
purge_all-Due delete_blob now orgs events e d =
    let live = keep (λ o. is_live o.deleted_at) orgs in
    (purge_loop-In delete_blob now live events e, purge_loop-keeps delete_blob now live events e d)
