-- ===== src/Supervisor/Difference.antt =====
-- What the parts of a round do to the set of running cameras.
use nightfury.Prelude.{
  ℕ, List, [], ◌∷◌, some, true, false, Option-cases, not, ◌&&◌, ◌==◌, keep, elem, length, ◌≡◌, refl,
  ap, ◌∙◌, inl, inr, arith,
}
use nightfury.Prelude.Dict.{Dict, lookup, has, has-remove, has-insert, has-lookup, elem-keys}
use nightfury.Prelude.Sort.{sorted}
use nightfury.Prelude.Keys.{elem-keep, elem-sorted}
use nightfury.Supervisor.{
  CameraConfig, CameraWorker, WorkerSupervisor, keys, is_unchanged, compute_diff, stop_worker,
  stop_workers, update_worker, update_workers,
}

-- Each configuration stands under its camera's id.
abbrev pub IsKeyed : Dict CameraConfig → Type 0
IsKeyed d = (k : ℕ) (cfg : CameraConfig) → lookup k d ≡ some cfg → cfg.camera_id ≡ k

pub has-stop_workers :
    (k : ℕ) (ids : List ℕ) (s : WorkerSupervisor)
    → has k (stop_workers ids s).workers ≡ (has k s.workers && not (elem k ids))
unfolding stop_workers stop_worker
has-stop_workers k [] s = ground arith
has-stop_workers k (cid ∷ ids) s =
    has-stop_workers k ids (stop_worker cid s) ∙ ground (arith, has-remove cid k s.workers)

pub has-update_worker :
    (desired : Dict CameraConfig) (k cid : ℕ) (s : WorkerSupervisor)
    → has k (update_worker desired cid s).workers ≡ has k s.workers
unfolding update_worker
has-update_worker desired k cid s = elim (Option-cases (lookup cid s.workers)) [
  | inl e ↦ rw (e, update_worker) refl
  | inr (w, e) ↦ elim (Option-cases (lookup cid desired)) [
    | inl f ↦ rw (e, update_worker, f) refl
    | inr (cfg, f) ↦
        rw (e, update_worker, f)
          (ground (
            arith,
            has-insert cid k (record w { camera_config = cfg }) s.workers,
            has-lookup cid s.workers w e,
          ))
  ]
]

pub has-update_workers :
    (desired : Dict CameraConfig) (k : ℕ) (ids : List ℕ) (s : WorkerSupervisor)
    → has k (update_workers desired ids s).workers ≡ has k s.workers
unfolding update_workers
has-update_workers desired k [] s = refl
has-update_workers desired k (cid ∷ ids) s =
    has-update_workers desired k ids (update_worker desired cid s)
    ∙ has-update_worker desired k cid s

pub elem_empty : (k : ℕ) (xs : List ℕ) → (length xs == 0) ≡ true → elem k xs ≡ false
elem_empty k [] h = refl
elem_empty k (x ∷ xs) h = ground arith

module _ (workers : Dict CameraWorker) (desired : Dict CameraConfig) (k : ℕ) where
  pub elem-to_stop :
      elem k (compute_diff workers desired).to_stop ≡ (has k workers && not (has k desired))
  unfolding compute_diff
  elem-to_stop =
      elem-sorted k (keep (λ k. not (has k desired)) (keys workers))
      ∙ elem-keep (λ k. not (has k desired)) k (keys workers)
      ∙ ap (λ b. b && not (has k desired)) (elem-keys k workers)

  pub elem-to_start :
      elem k (compute_diff workers desired).to_start ≡ (has k desired && not (has k workers))
  unfolding compute_diff
  elem-to_start =
      elem-sorted k (keep (λ k. not (has k workers)) (keys desired))
      ∙ elem-keep (λ k. not (has k workers)) k (keys desired)
      ∙ ap (λ b. b && not (has k workers)) (elem-keys k desired)

  pub elem-to_restart :
      elem k (compute_diff workers desired).to_restart
      ≡ ((has k workers && has k desired) && not (is_unchanged workers desired k))
  unfolding compute_diff
  elem-to_restart =
      let both = keep (λ k. has k desired) (keys workers) in
      elem-keep (λ k. not (is_unchanged workers desired k)) k (sorted (λ k. k) both)
      ∙ ap (λ b. b && not (is_unchanged workers desired k))
          (elem-sorted k both
            ∙ elem-keep (λ k. has k desired) k (keys workers)
            ∙ ap (λ b. b && has k desired) (elem-keys k workers))
