-- ===== src/Supervisor.antt =====
-- The supervisor of an agent's camera workers: agent/pipeline/supervisor.py. A worker's process is
-- what the supervisor reads of it; whether a worker starts is a parameter.
pub mod Admission
pub mod Difference
pub mod Reconcile
mod Tests
use nightfury.Prelude.{
  ℕ, ◌/◌, max, List, [], ◌∷◌, ◌++◌, map, Option, none, some, Bool, true, false, not, ◌&&◌, ltb, leb,
  ◌==◌, option_eq, if◌then◌else◌, keep, elem, length, total,
}
use nightfury.Prelude.Dict.{Dict, lookup, insert, remove, has}
use nightfury.Prelude.Sort.{sorted}
use nightfury.Capacity.{CapacityTracker, Source, LoadState, observe, load_state}

-- The fields of a configuration that the supervisor looks at; `rest` stands for the others.
pub record CameraConfig : Type 0 where
  pub camera_id : ℕ
  pub ingest_mode : ℕ
  pub rtsp_url : Option ℕ
  pub stream_key : Option ℕ
  pub idle_fps : ℕ
  pub active_fps : ℕ
  pub rest : ℕ

-- `load_factor` is in percent, `utilisation` in millionths.
pub record CameraWorker : Type 0 where
  pub camera_config : CameraConfig
  pub is_alive : Bool
  pub utilisation : ℕ
  pub load_factor : ℕ

pub record WorkerSupervisor : Type 0 where
  pub workers : Dict CameraWorker
  pub capacity : CapacityTracker
  pub rejected : List ℕ

-- Whether two configurations have one `_stream_signature`.
pub same_stream : CameraConfig → CameraConfig → Bool
same_stream a b =
    a.ingest_mode == b.ingest_mode
    && option_eq a.rtsp_url b.rtsp_url
    && option_eq a.stream_key b.stream_key
    && a.idle_fps == b.idle_fps
    && a.active_fps == b.active_fps

pub record Diff : Type 0 where
  pub to_start : List ℕ
  pub to_stop : List ℕ
  pub to_restart : List ℕ
  pub to_update : List ℕ

-- `not (to_start or to_stop or to_restart or to_update)`
abbrev pub is_empty : Diff → Bool
is_empty diff =
    length diff.to_start == 0
    && length diff.to_stop == 0
    && length diff.to_restart == 0
    && length diff.to_update == 0

abbrev pub keys {ℓ} : {V : Type ℓ} → Dict V → List ℕ
keys d = map (λ e. e.0) d

-- `current_signatures[cid] == _stream_signature(desired[cid])`, for a camera in both.
pub is_unchanged : Dict CameraWorker → Dict CameraConfig → ℕ → Bool
unfolding same_stream
is_unchanged workers desired cid = elim (lookup cid workers) [
  | none ↦ false
  | some w ↦ elim (lookup cid desired) [ none ↦ false | some cfg ↦ same_stream w.camera_config cfg ]
]

-- On the workers themselves, whose signatures the caller takes.
pub compute_diff : Dict CameraWorker → Dict CameraConfig → Diff
unfolding is_unchanged
compute_diff workers desired =
    let both = sorted (λ k. k) (keep (λ k. has k desired) (keys workers)) in
    record {
      to_start = sorted (λ k. k) (keep (λ k. not (has k workers)) (keys desired));
      to_stop = sorted (λ k. k) (keep (λ k. not (has k desired)) (keys workers));
      to_restart = keep (λ k. not (is_unchanged workers desired k)) both;
      to_update = keep (is_unchanged workers desired) both;
    }

-- `_stop_worker`
pub stop_worker : ℕ → WorkerSupervisor → WorkerSupervisor
stop_worker cid s = record s { workers = remove cid s.workers }

pub stop_workers : List ℕ → WorkerSupervisor → WorkerSupervisor
unfolding stop_worker
stop_workers [] s = s
stop_workers (cid ∷ ids) s = stop_workers ids (stop_worker cid s)

-- `self.workers[cid].update_config(desired[cid])`
pub update_worker : Dict CameraConfig → ℕ → WorkerSupervisor → WorkerSupervisor
update_worker desired cid s = elim (lookup cid s.workers) [
  | none ↦ s
  | some w ↦ elim (lookup cid desired) [
    | none ↦ s
    | some cfg ↦ record s { workers = insert cid (record w { camera_config = cfg }) s.workers }
  ]
]

pub update_workers : Dict CameraConfig → List ℕ → WorkerSupervisor → WorkerSupervisor
unfolding update_worker
update_workers desired [] s = s
update_workers desired (cid ∷ ids) s = update_workers desired ids (update_worker desired cid s)

-- `desired`, from the assignments; `none` is a malformed one.
pub desired_of : List (Option CameraConfig) → Dict CameraConfig → Dict CameraConfig
desired_of [] d = d
desired_of (none ∷ rest) d = desired_of rest d
desired_of (some cfg ∷ rest) d = desired_of rest (insert cfg.camera_id cfg d)

abbrev pub new_worker : CameraConfig → CameraWorker
new_worker cfg = record { camera_config = cfg; is_alive = true; utilisation = 0; load_factor = 100 }

-- `set.add` and `set.discard`
abbrev pub add : ℕ → List ℕ → List ℕ
add cid ids = if elem cid ids then ids else cid ∷ ids

abbrev pub discard : ℕ → List ℕ → List ℕ
discard cid = keep (λ k. not (k == cid))

module _ (starts : CameraConfig → Bool) (max_cameras : ℕ) where
  abbrev pub hard_ceiling : WorkerSupervisor → ℕ
  hard_ceiling s = max s.capacity.capacity max_cameras

  pub start_worker : CameraConfig → WorkerSupervisor → WorkerSupervisor
  start_worker cfg s =
      if has cfg.camera_id s.workers
      then s
      else if leb (hard_ceiling s) (length s.workers)
      then record s { rejected = add cfg.camera_id s.rejected }
      else if starts cfg
      then record s {
        workers = insert cfg.camera_id (new_worker cfg) s.workers;
        rejected = discard cfg.camera_id s.rejected;
      }
      else s

  -- `await self._start_worker(desired[cid])`
  pub start_workers : Dict CameraConfig → List ℕ → WorkerSupervisor → WorkerSupervisor
  unfolding start_worker
  start_workers desired [] s = s
  start_workers desired (cid ∷ ids) s =
      start_workers desired ids
        (elim (lookup cid desired) [ none ↦ s | some cfg ↦ start_worker cfg s ])

  -- The steps of `_reconcile_once`, for a difference that is not empty.
  pub apply_diff : Dict CameraConfig → Diff → WorkerSupervisor → WorkerSupervisor
  apply_diff desired diff s =
      let stopped = stop_workers diff.to_restart (stop_workers diff.to_stop s) in
      let updated = update_workers desired diff.to_update stopped in
      start_workers desired (diff.to_start ++ diff.to_restart)
        (record updated { rejected = keep (λ k. has k desired) updated.rejected })

  -- `_reconcile_once` behind the assignments.
  pub reconcile : Dict CameraConfig → WorkerSupervisor → WorkerSupervisor
  reconcile desired s =
      let diff = compute_diff s.workers desired in
      if is_empty diff then s else apply_diff desired diff s

  -- `none`: the backend could not be reached.
  pub reconcile_once : Option (List (Option CameraConfig)) → WorkerSupervisor → WorkerSupervisor
  unfolding desired_of reconcile
  reconcile_once none s = s
  reconcile_once (some assignments) s = reconcile (desired_of assignments []) s

  -- What one heartbeat says; its texts are made of these.
  pub record Heartbeat : Type 0 where
    pub cameras : List ℕ
    pub unassigned : List ℕ
    pub capacity_cameras : ℕ
    pub capacity_source : Source
    pub state : LoadState

  -- `_apply_load_factor`
  pub apply_load_factor : WorkerSupervisor → WorkerSupervisor
  apply_load_factor s =
      let factor = if ltb s.capacity.capacity (length s.workers) then 50 else 100 in
      record s { workers = map (λ (k, w). (k, record w { load_factor = factor })) s.workers }

  -- Restarts the workers that were found dead.
  pub restart_workers : List ℕ → WorkerSupervisor → WorkerSupervisor
  unfolding start_worker
  restart_workers [] s = s
  restart_workers (cid ∷ ids) s = restart_workers ids (elim (lookup cid s.workers) [
    | none ↦ s
    | some w ↦ start_worker w.camera_config (record s { workers = remove cid s.workers })
  ])

  -- `_health_check`: the heartbeat and the state after it. Utilisations are read and reset.
  pub health_check : WorkerSupervisor → Heartbeat × WorkerSupervisor
  unfolding apply_load_factor restart_workers
  health_check s =
      let alive = keys (keep (λ e. e.1.is_alive) s.workers) in
      let dead = keys (keep (λ e. not e.1.is_alive) s.workers) in
      let read = map (λ (k, w). (k, record w { utilisation = 0 })) s.workers in
      let mean_utilisation = total (λ e. e.1.utilisation) s.workers / max 1 (length s.workers) in
      let measured = record s {
        workers = read;
        capacity = observe s.capacity (length alive) mean_utilisation;
      } in
      let loaded = apply_load_factor measured in
      (
        record {
          cameras = alive;
          unassigned = sorted (λ k. k) loaded.rejected;
          capacity_cameras = loaded.capacity.capacity;
          capacity_source = loaded.capacity.source;
          state = load_state loaded.capacity (length loaded.workers) (length loaded.rejected);
        },
        restart_workers dead loaded,
      )
