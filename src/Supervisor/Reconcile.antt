-- ===== src/Supervisor/Reconcile.antt =====
-- What a reconciliation leaves running.
use nightfury.Prelude.{
  ℕ, List, [], ◌∷◌, ◌++◌, some, Bool, true, false, Bool-cases, Option-cases, not, ◌&&◌, ◌||◌, ◌==◌,
  ==_iff, keep, elem, ◌≡◌, refl, ap, ◌∙◌, inl, inr, arith,
}
use nightfury.Prelude.Dict.{Dict, lookup, has, has-insert, has-lookup}
use mathlib.Core.Path.{subst}
use nightfury.Prelude.Keys.{elem-keep, elem-append}
use nightfury.Supervisor.{
  CameraConfig, WorkerSupervisor, Diff, is_empty, compute_diff, stop_workers, update_workers,
  new_worker, start_worker, start_workers, apply_diff, reconcile,
}
use nightfury.Supervisor.Difference.{
  IsKeyed, has-stop_workers, has-update_workers, elem_empty, elem-to_stop, elem-to_start,
  elem-to_restart,
}

module _ (starts : CameraConfig → Bool) (max_cameras : ℕ) where
  -- Starting a camera starts no other one, and stops none.
  has-start_worker :
      (k : ℕ) (cfg : CameraConfig) (s : WorkerSupervisor)
      → (k == cfg.camera_id) ≡ false
      → has k (start_worker starts max_cameras cfg s).workers ≡ has k s.workers
  unfolding start_worker
  has-start_worker k cfg s h = ground (arith, has-insert cfg.camera_id k (new_worker cfg) s.workers)

  has-start_workers :
      (desired : Dict CameraConfig) (k : ℕ) (ids : List ℕ) (s : WorkerSupervisor)
      → IsKeyed desired
      → has k desired ≡ false
      → has k (start_workers starts max_cameras desired ids s).workers ≡ has k s.workers
  unfolding start_workers
  has-start_workers desired k [] s keyed h = refl
  has-start_workers desired k (cid ∷ ids) s keyed h = elim (Option-cases (lookup cid desired)) [
    | inl e ↦ rw (e, start_workers) (has-start_workers desired k ids s keyed h)
    | inr (cfg, e) ↦
        rw (e, start_workers)
          (has-start_workers desired k ids (start_worker starts max_cameras cfg s) keyed h
            ∙ has-start_worker k cfg s
                (ground (arith, keyed cid cfg e, has-lookup cid desired cfg e)))
  ]

  -- A camera that runs, waits to be reported as rejected, or does not start: that is only logged.
  abbrev pub settled : ℕ → CameraConfig → WorkerSupervisor → Bool
  settled k cfg s = has k s.workers || (elem k s.rejected || not (starts cfg))

  start_worker-settles :
      (cfg : CameraConfig) (s : WorkerSupervisor)
      → settled cfg.camera_id cfg (start_worker starts max_cameras cfg s) ≡ true
  unfolding start_worker
  start_worker-settles cfg s =
      ground (arith, has-insert cfg.camera_id cfg.camera_id (new_worker cfg) s.workers)

  start_worker_keeps :
      (k : ℕ) (c cfg : CameraConfig) (s : WorkerSupervisor)
      → settled k c s ≡ true
      → settled k c (start_worker starts max_cameras cfg s) ≡ true
  unfolding start_worker
  start_worker_keeps k c cfg s h = ground (
    arith,
    has-insert cfg.camera_id k (new_worker cfg) s.workers,
    elem-keep (λ j. not (j == cfg.camera_id)) k s.rejected,
  )

  start_workers_keeps :
      (desired : Dict CameraConfig) (k : ℕ) (c : CameraConfig) (ids : List ℕ) (s : WorkerSupervisor)
      → settled k c s ≡ true
      → settled k c (start_workers starts max_cameras desired ids s) ≡ true
  unfolding start_workers
  start_workers_keeps desired k c [] s h = h
  start_workers_keeps desired k c (cid ∷ ids) s h = elim (Option-cases (lookup cid desired)) [
    | inl e ↦ rw (e, start_workers) (start_workers_keeps desired k c ids s h)
    | inr (cfg, e) ↦
        rw (e, start_workers)
          (start_workers_keeps desired k c ids (start_worker starts max_cameras cfg s)
            (start_worker_keeps k c cfg s h))
  ]

  start_workers-settles :
      (desired : Dict CameraConfig) (k : ℕ) (c : CameraConfig) (ids : List ℕ) (s : WorkerSupervisor)
      → IsKeyed desired
      → lookup k desired ≡ some c
      → elem k ids ≡ true
      → settled k c (start_workers starts max_cameras desired ids s) ≡ true
  unfolding start_workers
  start_workers-settles desired k c [] s keyed e m = cc
  start_workers-settles desired k c (cid ∷ ids) s keyed e m = elim (Bool-cases (k == cid)) [
    | inl q ↦
        let at : k ≡ cid = (==_iff k cid).0 q in
        let found : lookup cid desired ≡ some c = subst (λ j. lookup j desired ≡ some c) at e in
        let same : c.camera_id ≡ k = keyed k c e in
        rw (found, start_workers)
          (start_workers_keeps desired k c ids (start_worker starts max_cameras c s) (
            subst (λ j. settled j c (start_worker starts max_cameras c s) ≡ true) same
              (start_worker-settles c s)))
    | inr q ↦ elim (Option-cases (lookup cid desired)) [
      | inl f ↦
          rw (f, start_workers) (start_workers-settles desired k c ids s keyed e (ground arith))
      | inr (cfg, f) ↦
          rw (f, start_workers)
            (start_workers-settles desired k c ids (start_worker starts max_cameras cfg s) keyed e
              (ground arith))
    ]
  ]

  -- What runs before the loop that starts workers.
  abbrev stopped : Dict CameraConfig → Diff → WorkerSupervisor → WorkerSupervisor
  stopped desired diff s =
      let updated =
        update_workers desired diff.to_update
          (stop_workers diff.to_restart (stop_workers diff.to_stop s)) in
      record updated { rejected = keep (λ k. has k desired) updated.rejected }

  has-stopped :
      (desired : Dict CameraConfig) (k : ℕ) (diff : Diff) (s : WorkerSupervisor)
      → has k (stopped desired diff s).workers
        ≡ ((has k s.workers && not (elem k diff.to_stop)) && not (elem k diff.to_restart))
  has-stopped desired k diff s =
      has-update_workers desired k diff.to_update
        (stop_workers diff.to_restart (stop_workers diff.to_stop s))
      ∙ has-stop_workers k diff.to_restart (stop_workers diff.to_stop s)
      ∙ ap (λ b. b && not (elem k diff.to_restart)) (has-stop_workers k diff.to_stop s)

  -- After a reconciliation no camera runs that the backend did not assign.
  pub reconcile_undesired :
      (desired : Dict CameraConfig) (s : WorkerSupervisor) (k : ℕ)
      → IsKeyed desired
      → has k desired ≡ false
      → has k (reconcile starts max_cameras desired s).workers ≡ false
  unfolding reconcile apply_diff
  reconcile_undesired desired s k keyed h =
      let diff = compute_diff s.workers desired in
      elim (Bool-cases (is_empty diff)) [
        | inl none_left ↦
            rw (none_left, reconcile)
              (ground (arith, elem-to_stop s.workers desired k, elem_empty k diff.to_stop))
        | inr some_left ↦
            rw (some_left, reconcile)
              (has-start_workers desired k (diff.to_start ++ diff.to_restart)
                  (stopped desired diff s) keyed h
                ∙ has-stopped desired k diff s
                ∙ ground (arith, elem-to_stop s.workers desired k))
      ]

  -- After a reconciliation every assigned camera runs, or is in the set of rejected cameras that the
  -- heartbeat reports, or is one whose worker does not start.
  pub reconcile-settles :
      (desired : Dict CameraConfig) (s : WorkerSupervisor) (k : ℕ) (c : CameraConfig)
      → IsKeyed desired
      → lookup k desired ≡ some c
      → settled k c (reconcile starts max_cameras desired s) ≡ true
  unfolding reconcile apply_diff
  reconcile-settles desired s k c keyed e =
      let diff = compute_diff s.workers desired in
      let known = has-lookup k desired c e in
      let start = elem-to_start s.workers desired k in
      let restart = elem-to_restart s.workers desired k in
      let ids = diff.to_start ++ diff.to_restart in
      elim (Bool-cases (is_empty diff)) [
        | inl none_left ↦
            rw (none_left, reconcile) (ground (arith, known, start, elem_empty k diff.to_start))
        | inr some_left ↦
            rw (some_left, reconcile)
              (elim (Bool-cases (elem k ids)) [
                | inl m ↦ start_workers-settles desired k c ids (stopped desired diff s) keyed e m
                | inr m ↦ start_workers_keeps desired k c ids (stopped desired diff s) (
                    ground (
                      arith,
                      known,
                      start,
                      restart,
                      m,
                      elem-append k diff.to_start diff.to_restart,
                      elem-to_stop s.workers desired k,
                      has-stopped desired k diff s,
                    ))
              ])
      ]
