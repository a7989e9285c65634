-- ===== src/SequenceEngine.antt =====
-- Step sequences of tracked people: agent/pipeline/sequence_engine.py. Zones and poses are compared
-- only, so they are numbers; a clock reading is a number of ticks.
pub mod Progress
mod Tests
use nightfury.Prelude.{
  ℕ, ◌+◌, List, [], ◌∷◌, map, Option, none, some, Bool, true, false, not, ◌&&◌, ◌==◌, ltb, leb,
  option_eq, if◌then◌else◌, any, get_elem?, drop, length, ◌++◌,
}
use Prim.Native.String.{String}
use mathlib.Core.Option

-- An entry of `step_sequence`, with the keys that it may lack.
pub record Step : Type 0 where
  pub zone : Option ℕ
  pub pose : Option ℕ
  pub name : Option String
  pub max_seconds : Option ℕ

pub record SequenceState : Type 0 where
  pub current_step_index : ℕ
  pub step_entered_at : Option ℕ
  pub completed : Bool

pub data Kind : Type 0 where
  step_skipped step_timeout sequence_completed : Kind

pub record SequenceEvent : Type 0 where
  pub kind : Kind
  pub step_name : String
  pub zone : Option ℕ
  pub max_seconds : Option ℕ
  pub all_step_names : List String

abbrev pub initial : SequenceState
initial = record { current_step_index = 0; step_entered_at = none; completed = false }

-- `step.get("name", "")`
abbrev pub name_of : Step → String
name_of s = elim s.name [ none ↦ "" | some n ↦ n ]

abbrev pub pose_fits : Option ℕ → ℕ → Bool
pose_fits none label = true
pose_fits (some p) label = label == p

abbrev pub matches_current : Step → Option ℕ → ℕ → Bool
matches_current step zone_name pose_label =
    option_eq zone_name step.zone && pose_fits step.pose pose_label

-- `zone_name is not None and zone_name in later_zones`
abbrev pub in_later_zones : Option ℕ → Step → List Step → Bool
in_later_zones none step later = false
in_later_zones (some z) step later =
    any (λ s. not (option_eq s.zone step.zone) && option_eq (some z) s.zone) later

-- `max_seconds is not None and now - step_entered_at > max_seconds`
abbrev pub is_overdue : Option ℕ → ℕ → ℕ → Bool
is_overdue none entered now = false
is_overdue (some limit) entered now = ltb (entered + limit) now

abbrev pub entered_at : SequenceState → ℕ → ℕ
entered_at st now = elim st.step_entered_at [ none ↦ now | some t ↦ t ]

-- The body of `advance` behind its first returns, at the current step.
pub advance_at :
    SequenceState → List Step → Step → Option ℕ → ℕ → ℕ → SequenceState × Option SequenceEvent
advance_at st seq step zone_name pose_label now =
    let entered = entered_at st now in
    let index = st.current_step_index in
    let held = record st { step_entered_at = some entered } in
    let moved = record st { current_step_index = index + 1; step_entered_at = some now } in
    if matches_current step zone_name pose_label
    then (if leb (length seq) (index + 1)
        then (
          record moved { completed = true },
          some (record {
            kind = sequence_completed;
            step_name = name_of step;
            zone = none;
            max_seconds = none;
            all_step_names = map name_of seq;
          }),
        )
        else (moved, none))
    else if in_later_zones zone_name step (drop (index + 1) seq)
    then (
      record held { completed = true },
      some (record {
        kind = step_skipped;
        step_name = name_of step;
        zone = zone_name;
        max_seconds = none;
        all_step_names = [];
      }),
    )
    else if is_overdue step.max_seconds entered now
    then (
      record held { completed = true },
      some (record {
        kind = step_timeout;
        step_name = name_of step;
        zone = none;
        max_seconds = step.max_seconds;
        all_step_names = [];
      }),
    )
    else (held, none)

-- `none` is the IndexError of `step_sequence[state.current_step_index]`.
pub advance :
    SequenceState → List Step → Option ℕ → ℕ → ℕ → Option (SequenceState × Option SequenceEvent)
unfolding advance_at
advance st [] zone_name pose_label now = some (st, none)
advance st (s ∷ seq) zone_name pose_label now =
    if st.completed
    then some (st, none)
    else Option.map (λ step. advance_at st (s ∷ seq) step zone_name pose_label now)
        (get_elem? (s ∷ seq) st.current_step_index)

-- One analysed frame of a track: its zone and pose, and the time.
pub record Reading : Type 0 where
  pub zone_name : Option ℕ
  pub pose_label : ℕ
  pub now : ℕ

abbrev pub listed : Option SequenceEvent → List SequenceEvent
listed none = []
listed (some e) = e ∷ []

-- The calls that the camera worker makes for one track, frame by frame, and the events they give.
pub run_track :
    SequenceState → List Step → List Reading → Option (SequenceState × List SequenceEvent)
unfolding advance
run_track st seq [] = some (st, [])
run_track st seq (r ∷ rs) = elim (advance st seq r.zone_name r.pose_label r.now) [
  | none ↦ none
  | some (st', ev) ↦ Option.map (λ (st'', evs). (st'', listed ev ++ evs)) (run_track st' seq rs)
]
