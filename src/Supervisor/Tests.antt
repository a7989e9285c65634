-- ===== src/Supervisor/Tests.antt =====
-- A round of a supervisor with room for two workers, and its theorems there.
use nightfury.Prelude.{
  ℕ, List, [], ◌∷◌, Option, none, some, Bool, true, false, elem, ◌⊎◌, ◌≡◌, ◌==◌, not, refl,
}
use nightfury.Prelude.Dict.{lookup, insert, remove, has}
use nightfury.Prelude.Sort.{sorted, place_sorted}
use nightfury.Capacity.{declared}
use nightfury.Supervisor.{
  CameraConfig, WorkerSupervisor, new_worker, desired_of, start_worker, start_workers, stop_worker,
  stop_workers, update_worker, update_workers, compute_diff, is_unchanged, same_stream, apply_diff,
  reconcile, reconcile_once,
}
use nightfury.Supervisor.Admission.{reconcile_once-settles}

abbrev config : ℕ → ℕ → ℕ → CameraConfig
config id fps rest = record {
  camera_id = id;
  ingest_mode = 0;
  rtsp_url = some id;
  stream_key = none;
  idle_fps = 1;
  active_fps = fps;
  rest = rest;
}

-- The worker of camera 9 does not start.
abbrev starts : CameraConfig → Bool
starts cfg = not (cfg.camera_id == 9)

abbrev supervisor : WorkerSupervisor
supervisor = record {
  workers = (1, new_worker (config 1 5 0)) ∷ (2, new_worker (config 2 5 0)) ∷ [];
  capacity = record {
    ceiling = 2;
    capacity = 1;
    source = declared;
    over_streak = 0;
    under_streak = 0;
  };
  rejected = 7 ∷ [];
}

-- Camera 1 changes its rate, camera 2 only other settings, camera 3 is new.
abbrev assignments : List (Option CameraConfig)
assignments = some (config 3 5 0) ∷ none ∷ some (config 2 5 1) ∷ some (config 1 6 0) ∷ []

round : reconcile_once starts 2 (some assignments) supervisor ≡ record supervisor {
  workers = (2, new_worker (config 2 5 1)) ∷ (3, new_worker (config 3 5 0)) ∷ [];
  rejected = 1 ∷ [];
}
unfolding reconcile_once reconcile apply_diff compute_diff is_unchanged same_stream stop_workers
    stop_worker update_workers update_worker start_workers start_worker desired_of lookup insert
    remove has sorted place_sorted
round = refl

not_desired : has 7 (desired_of assignments []) ≡ false
unfolding desired_of has insert
not_desired = refl

desired_3 : lookup 3 (desired_of assignments []) ≡ some (config 3 5 0)
unfolding desired_of lookup insert
desired_3 = refl

reconcile_once-settles_example :
    let s' = reconcile_once starts 2 (some assignments) supervisor in
    (has 3 s'.workers ≡ true) ⊎ (elem 3 s'.rejected ≡ true)
reconcile_once-settles_example =
    reconcile_once-settles starts 2 assignments supervisor 3 (config 3 5 0) desired_3 refl
