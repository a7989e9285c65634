-- ===== src/Supervisor/Admission.antt =====
-- How many workers a supervisor runs, and what a round of `_reconcile_once` comes to.
use nightfury.Prelude.{
  ℕ, ◌≤◌, ◌<◌, List, [], ◌∷◌, ◌++◌, Option, none, some, Bool, true, false, Bool-cases, Option-cases,
  length, elem, ◌⊎◌, ◌≡◌, inl, inr, arith,
}
use nightfury.Prelude.Dict.{
  Dict, lookup, insert, has, has-insert, has-lookup, lookup-insert_cases, length-insert,
  length-remove,
}
use nightfury.Supervisor.{
  CameraConfig, WorkerSupervisor, is_empty, compute_diff, stop_worker, stop_workers, update_worker,
  update_workers, desired_of, new_worker, hard_ceiling, start_worker, start_workers, apply_diff,
  reconcile, reconcile_once,
}
use nightfury.Supervisor.Difference.{IsKeyed}
use nightfury.Supervisor.Reconcile.{reconcile_undesired, reconcile-settles}

desired_of-IsKeyed_from :
    (assignments : List (Option CameraConfig)) (d : Dict CameraConfig)
    → IsKeyed d
    → IsKeyed (desired_of assignments d)
unfolding desired_of
desired_of-IsKeyed_from [] d h = h
desired_of-IsKeyed_from (none ∷ rest) d h = desired_of-IsKeyed_from rest d h
desired_of-IsKeyed_from (some cfg ∷ rest) d h =
    desired_of-IsKeyed_from rest (insert cfg.camera_id cfg d) (λ k c e.
      elim (lookup-insert_cases cfg.camera_id k cfg c d e) [
        | inl (at, same) ↦ cc
        | inr (_, old) ↦ h k c old
      ])

desired_of-IsKeyed :
    (assignments : List (Option CameraConfig)) → IsKeyed (desired_of assignments [])
unfolding lookup
desired_of-IsKeyed assignments = desired_of-IsKeyed_from assignments [] (λ k c e. cc)

module _ (starts : CameraConfig → Bool) (max_cameras : ℕ) where
  -- After a round that reached the backend, no camera runs that the backend did not assign.
  pub reconcile_once_undesired :
      (assignments : List (Option CameraConfig)) (s : WorkerSupervisor) (k : ℕ)
      → has k (desired_of assignments []) ≡ false
      → has k (reconcile_once starts max_cameras (some assignments) s).workers ≡ false
  unfolding reconcile_once
  reconcile_once_undesired assignments s k h =
      reconcile_undesired starts max_cameras (desired_of assignments []) s k
        (desired_of-IsKeyed assignments) h

  -- After a round that reached the backend, a camera of a well-formed assignment whose worker can be
  -- started runs, or is in the set of rejected cameras that the heartbeat reports.
  pub reconcile_once-settles :
      (assignments : List (Option CameraConfig)) (s : WorkerSupervisor) (k : ℕ) (c : CameraConfig)
      → lookup k (desired_of assignments []) ≡ some c
      → starts c ≡ true
      → let s' = reconcile_once starts max_cameras (some assignments) s in
        (has k s'.workers ≡ true) ⊎ (elem k s'.rejected ≡ true)
  unfolding reconcile_once
  reconcile_once-settles assignments s k c e ok =
      let s' = reconcile starts max_cameras (desired_of assignments []) s in
      let h =
        reconcile-settles starts max_cameras (desired_of assignments []) s k c
          (desired_of-IsKeyed assignments) e in
      elim (Bool-cases (has k s'.workers)) [
        | inl runs ↦ inl runs
        | inr not_run ↦ inr (ground (arith, h, ok, not_run))
      ]

  abbrev pub Within : WorkerSupervisor → Type 0
  Within s = length s.workers ≤ hard_ceiling starts max_cameras s

  start_worker-Within :
      (cfg : CameraConfig) (s : WorkerSupervisor)
      → Within s
      → Within (start_worker starts max_cameras cfg s)
  unfolding start_worker
  start_worker-Within cfg s h =
      ground (arith, length-insert cfg.camera_id (new_worker cfg) s.workers)

  start_workers-Within :
      (desired : Dict CameraConfig) (ids : List ℕ) (s : WorkerSupervisor)
      → Within s
      → Within (start_workers starts max_cameras desired ids s)
  unfolding start_workers
  start_workers-Within desired [] s h = h
  start_workers-Within desired (cid ∷ ids) s h = elim (Option-cases (lookup cid desired)) [
    | inl e ↦ rw (e, start_workers) (start_workers-Within desired ids s h)
    | inr (cfg, e) ↦
        rw (e, start_workers)
          (start_workers-Within desired ids (start_worker starts max_cameras cfg s)
            (start_worker-Within cfg s h))
  ]

  stop_workers-Within :
      (ids : List ℕ) (s : WorkerSupervisor) → Within s → Within (stop_workers ids s)
  unfolding stop_workers stop_worker
  stop_workers-Within [] s h = h
  stop_workers-Within (cid ∷ ids) s h =
      stop_workers-Within ids (stop_worker cid s) (omega (arith, h, length-remove cid s.workers))

  update_worker-Within :
      (desired : Dict CameraConfig) (cid : ℕ) (s : WorkerSupervisor)
      → Within s
      → Within (update_worker desired cid s)
  unfolding update_worker
  update_worker-Within desired cid s h = elim (Option-cases (lookup cid s.workers)) [
    | inl e ↦ rw (e, update_worker) h
    | inr (w, e) ↦ elim (Option-cases (lookup cid desired)) [
      | inl f ↦ rw (e, update_worker, f) h
      | inr (cfg, f) ↦
          rw (e, update_worker, f)
            (ground (
              arith,
              h,
              has-lookup cid s.workers w e,
              length-insert cid (record w { camera_config = cfg }) s.workers,
            ))
    ]
  ]

  update_workers-Within :
      (desired : Dict CameraConfig) (ids : List ℕ) (s : WorkerSupervisor)
      → Within s
      → Within (update_workers desired ids s)
  unfolding update_workers
  update_workers-Within desired [] s h = h
  update_workers-Within desired (cid ∷ ids) s h =
      update_workers-Within desired ids (update_worker desired cid s)
        (update_worker-Within desired cid s h)

  -- A round keeps the number of workers within the greater of the capacity and `max_cameras`.
  pub reconcile_once-Within :
      (assignments : Option (List (Option CameraConfig))) (s : WorkerSupervisor)
      → Within s
      → Within (reconcile_once starts max_cameras assignments s)
  unfolding reconcile_once reconcile apply_diff
  reconcile_once-Within none s h = h
  reconcile_once-Within (some assignments) s h =
      let desired = desired_of assignments [] in
      let diff = compute_diff s.workers desired in
      elim (Bool-cases (is_empty diff)) [
        | inl e ↦ rw (e, reconcile) h
        | inr e ↦
            rw (e, reconcile)
              (start_workers-Within desired (diff.to_start ++ diff.to_restart) _ (
                update_workers-Within desired diff.to_update _
                  (stop_workers-Within diff.to_restart _ (stop_workers-Within diff.to_stop s h))))
      ]

  -- A camera is admitted while fewer than `max_cameras` run, however low the measured capacity is.
  pub start_worker_below_max :
      (cfg : CameraConfig) (s : WorkerSupervisor)
      → length s.workers < max_cameras
      → starts cfg ≡ true
      → has cfg.camera_id (start_worker starts max_cameras cfg s).workers ≡ true
  unfolding start_worker
  start_worker_below_max cfg s lt ok =
      ground (arith, has-insert cfg.camera_id cfg.camera_id (new_worker cfg) s.workers)
