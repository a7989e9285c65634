-- ===== src/CameraSetup/Writes.antt =====
-- Which cameras an approved group changes.
use nightfury.Prelude.{
  ℕ, List, [], ◌∷◌, some, true, false, ◌≡◌, refl, ap, sym, ◌∙◌, ◌⊎◌, inl, inr, ◌&&◌, ◌==◌, keep,
  any, not, In, here, there, map-In, first, first-In, Bool-cases, Option-cases, List-cases, arith,
}
use mathlib.Core.Path.{subst}
use nightfury.Access.{User, Role, has_role, user_may_access_site}
use nightfury.Access.Scope.{scope_to_sites-may_access, own_or_super_admin}
use nightfury.CameraSetup.{
  CameraSetupProposal, Signature, GroupKey, ReviewGroup, is_proposed, is_terminal,
}
use nightfury.CameraSetup.Grouping.{group_proposals}
use nightfury.CameraSetup.Approval.{
  Camera, SetupRun, SetupTables, Approval, refused, done, apply_config, camera_zones, or_medium,
  load_run, maybe_complete_run, is_camera_of, approve_row, write_approval, approve_one, approve_ids,
  is_group, approve_group,
}

-- The camera has the settings of a row of the run that is among the ids and waited for approval, and
-- is a live camera of the run's organisation and site.
pub record Configured (ids : List ℕ) (rows : List CameraSetupProposal) (run : SetupRun) (c : Camera)
    : Type 0 where
  pub row : CameraSetupProposal
  pub listed : In row rows
  pub chosen : In row.id ids
  pub waiting : is_proposed row.status ≡ true
  pub own : row.run_id ≡ run.id
  pub within : is_camera_of row.camera_id run.org_id run.site_id c ≡ true
  pub events : c.enabled_events ≡ row.proposal.enabled_events
  pub sensitivity : c.sensitivity ≡ or_medium row.proposal.sensitivity
  pub zones : c.detection_zones ≡ camera_zones row.proposal.zones
  pub lines : c.counting_lines ≡ row.proposal.counting_lines

module _ (ids : List ℕ) (before : SetupTables) (run : SetupRun) where
  -- What holds between the turns of the loop.
  record Holds (db : SetupTables) : Type 0 where
    rows :
        (r : CameraSetupProposal)
        → In r db.proposals
        → is_proposed r.status ≡ true
        → In r before.proposals
    cameras :
        (c : Camera) → In c db.cameras → In c before.cameras ⊎ Configured ids before.proposals run c

  write_approval-Holds :
      (user_id now : ℕ) (row : CameraSetupProposal) (db : SetupTables)
      → Holds db
      → In row db.proposals
      → In row.id ids
      → is_proposed row.status ≡ true
      → row.run_id ≡ run.id
      → Holds (write_approval user_id now run.org_id run.site_id row db)
  unfolding write_approval apply_config
  write_approval-Holds user_id now row db h m known p own = record {
    rows = λ r n q.
        let (x, xm, e) = map-In _ db.proposals n in
        elim (Bool-cases (x.id == row.id)) [
          | inl y ↦
              let e' : approve_row user_id now x ≡ r = (rw y at e) in
              let z : false ≡ is_proposed r.status = ap (λ k. is_proposed k.status) e' in cc
          | inr y ↦
              let e' : x ≡ r = (rw y at e) in h.rows r (subst (λ k. In k db.proposals) e' xm) q
        ];
    cameras = λ c n.
        let (x, xm, e) = map-In _ db.cameras n in
        elim (Bool-cases (is_camera_of row.camera_id run.org_id run.site_id x)) [
          | inl y ↦
              let e' : apply_config row.proposal x ≡ c = (rw y at e) in
              inr (
                subst (Configured ids before.proposals run) e' (record {
                  row = row;
                  listed = h.rows row m p;
                  chosen = known;
                  waiting = p;
                  own = own;
                  within = y;
                  events = refl;
                  sensitivity = refl;
                  zones = refl;
                  lines = refl;
                }))
          | inr y ↦ let e' : x ≡ c = (rw y at e) in h.cameras c (subst (λ k. In k db.cameras) e' xm)
        ];
  }

  approve_one-Holds :
      (user_id now pid : ℕ) (db : SetupTables)
      → In pid ids
      → Holds db
      → Holds (approve_one user_id now run pid db)
  unfolding approve_one
  approve_one-Holds user_id now pid db known h =
      elim (Option-cases (first (λ r. r.id == pid && r.run_id == run.id) db.proposals)) [
        | inl e ↦ rw (e, approve_one) h
        | inr (row, e) ↦ elim (Bool-cases (is_proposed row.status)) [
          | inr p ↦ rw (e, p, approve_one) h
          | inl p ↦
              elim (Option-cases
                (first (is_camera_of row.camera_id run.org_id run.site_id) db.cameras)) [
                  | inl q ↦ rw (e, p, q, approve_one) h
                  | inr (c, q) ↦
                      let (m, t) = first-In _ db.proposals row e in
                      let same : row.id ≡ pid = ground arith in
                      rw (e, p, q, approve_one)
                        (write_approval-Holds user_id now row db h m
                          (subst (λ i. In i ids) (sym same) known) p (ground arith))
                ]
        ]
      ]

  approve_ids-Holds :
      (user_id now : ℕ) (pids : List ℕ) (db : SetupTables)
      → ((i : ℕ) → In i pids → In i ids)
      → Holds db
      → Holds (approve_ids user_id now run pids db)
  unfolding approve_ids
  approve_ids-Holds user_id now [] db known h = h
  approve_ids-Holds user_id now (pid ∷ pids) db known h =
      approve_ids-Holds user_id now pids _ (λ i m. known i (there m))
        (approve_one-Holds user_id now pid db (known pid here) h)

abbrev cameras_of : Approval → List Camera
cameras_of (refused e) = []
cameras_of (done db) = db.cameras

maybe_complete_run-cameras :
    (run_id : ℕ) (db : SetupTables) → (maybe_complete_run run_id db).cameras ≡ db.cameras
unfolding maybe_complete_run
maybe_complete_run-cameras run_id db =
    elim (List-cases (keep (λ r. r.run_id == run_id) db.proposals)) [
      | inl e ↦ rw (e, maybe_complete_run) refl
      | inr (r, rows, e) ↦ elim (Bool-cases (any (λ x. not (is_terminal x.status)) (r ∷ rows))) [
        | inl q ↦ rw (e, q, maybe_complete_run) refl
        | inr q ↦ rw (e, q, maybe_complete_run) refl
      ]
    ]

-- What an approval of a group has to show.
pub record Approved (text : Signature → ℕ) (run_id : ℕ) (user : User) (key : GroupKey)
    (before after : SetupTables) : Type 0 where
  pub admin : has_role user Role.admin ≡ true
  pub run : SetupRun
  pub listed : In run before.runs
  pub named : run.id ≡ run_id
  pub own : (user.role ≡ Role.super_admin) ⊎ (run.org_id ≡ user.org_id)
  pub visible : user_may_access_site user (some run.site_id) ≡ true
  pub groups : List ReviewGroup
  pub formed : group_proposals text (keep (λ p. p.run_id == run.id) before.proposals) ≡ some groups
  pub target : ReviewGroup
  pub among : In target groups
  pub asked : is_group key target ≡ true
  pub bulk : target.bulk_approvable ≡ true
  pub cameras :
      (c : Camera)
      → In c after.cameras
      → In c before.cameras ⊎ Configured target.proposal_ids before.proposals run c

load_run-listed :
    (run_id : ℕ) (user : User) (db : SetupTables) (run : SetupRun)
    → load_run run_id user db ≡ some run
    → In run db.runs
      × (run.id ≡ run_id)
      × ((user.role ≡ Role.super_admin) ⊎ (run.org_id ≡ user.org_id))
      × (user_may_access_site user (some run.site_id) ≡ true)
unfolding load_run
load_run-listed run_id user db run h =
    let (m, t) = first-In _ _ run h in
    let (n, may) = (scope_to_sites-may_access (λ r. r.site_id) user db.runs run).0 m in
    (n, ground arith, own_or_super_admin user run.org_id (ground arith), may)

-- An approval of a group that succeeds was asked for by an admin who may access the site of the run
-- and, unless a super admin, is of its organisation; the group is one of the run's review that can be
-- approved in bulk. It changes only live cameras of the run's organisation and site: a camera
-- of the new tables was there before, or has the events, the sensitivity, the zones and the counting
-- lines of a row of the run that the group shows and that waited for approval.
pub approve_group-Approved :
    (text : Signature → ℕ) (run_id : ℕ) (user : User) (key : GroupKey) (now : ℕ)
    (before after : SetupTables)
    → approve_group text run_id user key now before ≡ done after
    → Approved text run_id user key before after
unfolding approve_group
approve_group-Approved text run_id user key now before after h =
    elim (Bool-cases (has_role user Role.admin)) [
      | inr e ↦ cc (rw (e, approve_group) at h)
      | inl e ↦ elim (Option-cases (load_run run_id user before)) [
        | inl r ↦ cc (rw (e, r, approve_group) at h)
        | inr (run, r) ↦
            elim (Option-cases
              (group_proposals text (keep (λ p. p.run_id == run.id) before.proposals))) [
                | inl g ↦ cc (rw (e, r, g, approve_group) at h)
                | inr (gs, g) ↦ elim (Option-cases (first (is_group key) gs)) [
                  | inl f ↦ cc (rw (e, r, g, f, approve_group) at h)
                  | inr (target, f) ↦ elim (Bool-cases target.bulk_approvable) [
                    | inr b ↦ cc (rw (e, r, g, f, b, approve_group) at h)
                    | inl b ↦
                        let k = ap cameras_of (rw (e, r, g, f, b, approve_group) at h) in
                        let (m, named, own, may) = load_run-listed run_id user before run r in
                        let start : Holds target.proposal_ids before run before = record {
                          rows = λ x n _. n;
                          cameras = λ c n. inl n;
                        } in
                        let stop =
                          approve_ids-Holds target.proposal_ids before run user.id now
                            target.proposal_ids before (λ i n. n) start in
                        let (among, asked) = first-In (is_group key) gs target f in
                        let same = sym k ∙ maybe_complete_run-cameras run.id _ in
                        record {
                          admin = e;
                          run = run;
                          listed = m;
                          named = named;
                          own = own;
                          visible = may;
                          groups = gs;
                          formed = g;
                          target = target;
                          among = among;
                          asked = asked;
                          bulk = b;
                          cameras = λ c n. stop.cameras c (subst (λ l. In c l) same n);
                        }
                  ]
                ]
              ]
      ]
    ]
