-- ===== src/SequenceEngine/Tests.antt =====
-- Runs of the sequence engine, and its theorems at a sequence of two steps.
use nightfury.Prelude.{ℕ, refl, none, some, [], ◌∷◌, true, false, ◌≡◌}
use nightfury.SequenceEngine.{
  Step, SequenceState, step_skipped, step_timeout, sequence_completed, initial, advance, advance_at,
  Reading, run_track,
}
use nightfury.SequenceEngine.Progress.{Reports, run_track-one_event}

abbrev entry : Step
entry = record { zone = some 1; pose = none; name = some "enter"; max_seconds = some 30 }

abbrev wash : Step
wash = record { zone = some 2; pose = some 4; name = some "wash"; max_seconds = none }

abbrev reading : ℕ → ℕ → ℕ → Reading
reading z p t = record { zone_name = some z; pose_label = p; now = t }

abbrev track : SequenceState
track = record { current_step_index = 1; step_entered_at = some 5; completed = false }

-- Both steps in order.
run_track_complete :
    run_track initial
      (entry ∷ wash ∷ [])
      (reading 1 0 5 ∷ reading 2 3 6 ∷ reading 2 4 7 ∷ reading 2 4 8 ∷ [])
    ≡ some (
      record { current_step_index = 2; step_entered_at = some 7; completed = true },
      record {
        kind = sequence_completed;
        step_name = "wash";
        zone = none;
        max_seconds = none;
        all_step_names = "enter" ∷ "wash" ∷ [];
      }
          ∷ [],
    )
unfolding run_track advance advance_at
run_track_complete = refl

-- The second step's zone before the first step.
run_track_skip :
    run_track initial (entry ∷ wash ∷ []) (reading 2 4 5 ∷ reading 1 0 6 ∷ [])
    ≡ some (
      record { current_step_index = 0; step_entered_at = some 5; completed = true },
      record {
        kind = step_skipped;
        step_name = "enter";
        zone = some 2;
        max_seconds = none;
        all_step_names = [];
      }
          ∷ [],
    )
unfolding run_track advance advance_at
run_track_skip = refl

-- 30 seconds at the first step are not too long, 31 are.
run_track_timeout :
    run_track initial (entry ∷ wash ∷ []) (reading 3 0 5 ∷ reading 3 0 35 ∷ reading 3 0 36 ∷ [])
    ≡ some (
      record { current_step_index = 0; step_entered_at = some 5; completed = true },
      record {
        kind = step_timeout;
        step_name = "enter";
        zone = none;
        max_seconds = some 30;
        all_step_names = [];
      }
          ∷ [],
    )
unfolding run_track advance advance_at
run_track_timeout = refl

run_track-one_event_example :
    Reports (run_track initial (entry ∷ wash ∷ []) (reading 1 0 5 ∷ reading 2 4 6 ∷ []))
run_track-one_event_example =
    run_track-one_event (reading 1 0 5 ∷ reading 2 4 6 ∷ []) entry (wash ∷ [])
