-- ===== src/SequenceEngine/Progress.antt =====
-- One track's progress through a step sequence.
use nightfury.Prelude.{
  ℕ, suc, zero, ◌+◌, ◌≤◌, ◌<◌, List, [], ◌∷◌, ◌≡◌, ◌⊎◌, refl, inl, inr, Option, none, some, true,
  false, Bool-cases, get_elem?, length, arith, drop,
}
use nightfury.SequenceEngine.{
  Step, SequenceState, SequenceEvent, Reading, sequence_completed, initial, advance_at, advance,
  run_track, in_later_zones, matches_current,
}

get_elem?-some :
    (seq : List Step) (i : ℕ) → i < length seq → (s : Step) × (get_elem? seq i ≡ some s)
get_elem?-some [] i h = elim h [ ]
get_elem?-some (s ∷ seq) zero h = (s, refl)
get_elem?-some (s ∷ seq) (suc i) h = get_elem?-some seq i (omega arith)

get_elem?-none : (seq : List Step) (i : ℕ) → length seq ≤ i → get_elem? seq i ≡ none
get_elem?-none [] i h = refl
get_elem?-none (s ∷ seq) zero h = elim h [ ]
get_elem?-none (s ∷ seq) (suc i) h = get_elem?-none seq i (omega arith)

-- The current step exists, unless the track is done.
abbrev pub IsTracked : List Step → SequenceState → Type 0
IsTracked seq st = (st.completed ≡ true) ⊎ (st.current_step_index < length seq)

-- What one reading does: an event comes exactly with the end of the track.
abbrev pub Advances : List Step → SequenceState → SequenceState × Option SequenceEvent → Type 0
Advances seq st (st', none) = IsTracked seq st' × (st'.completed ≡ false)
Advances seq st (st', some e) =
    (st'.completed ≡ true) × (e.kind ≡ sequence_completed → st'.current_step_index ≡ length seq)

advance_at-Advances :
    (st : SequenceState) (seq : List Step) (step : Step) (z : Option ℕ) (p now : ℕ)
    → st.completed ≡ false
    → st.current_step_index < length seq
    → Advances seq st (advance_at st seq step z p now)
unfolding advance_at
advance_at-Advances st seq step z p now open_track h =
    elim (Bool-cases (matches_current step z p)) [
      | inl e ↦ rw e (ground arith)
      | inr e ↦ elim (Bool-cases (in_later_zones z step (drop (st.current_step_index + 1) seq))) [
        | inl e' ↦ rw (e, e') (refl, cc)
        | inr e' ↦ rw (e, e') (ground arith)
      ]
    ]

-- On a track whose current step exists, `advance` never raises; once the track is completed it
-- changes nothing and gives no event, and before that it gives an event exactly when it completes
-- the track. A `sequence_completed` event comes only when every step was matched.
pub advance-Advances :
    (st : SequenceState) (seq : List Step) (z : Option ℕ) (p now : ℕ)
    → IsTracked seq st
    → (st.completed ≡ true) × (advance st seq z p now ≡ some (st, none))
      ⊎ (st.completed ≡ false)
        × ((r : SequenceState × Option SequenceEvent) × (advance st seq z p now ≡ some r)
            × Advances seq st r)
unfolding advance
advance-Advances st seq z p now h = elim (Bool-cases st.completed) [
  | inl e ↦ inl (e, done seq e)
  | inr e ↦ inr (e, live seq e (ground arith))
]
  where
    done : (seq : List Step) → st.completed ≡ true → advance st seq z p now ≡ some (st, none)
    done [] e = refl
    done (s ∷ seq) e = simp e

    live :
        (seq : List Step)
        → st.completed ≡ false
        → st.current_step_index < length seq
        → (r : SequenceState × Option SequenceEvent) × (advance st seq z p now ≡ some r)
          × Advances seq st r
    live [] e lt = elim lt [ ]
    live (s ∷ seq) e lt =
        let (step, found) = get_elem?-some (s ∷ seq) st.current_step_index lt in
        (
          advance_at st (s ∷ seq) step z p now,
          simp (e, found),
          advance_at-Advances st (s ∷ seq) step z p now e lt,
        )

-- A track that has got past the end of its sequence, as one whose configured sequence was replaced
-- by a shorter one, makes `advance` raise.
pub advance_outgrown :
    (st : SequenceState) (s : Step) (seq : List Step) (z : Option ℕ) (p now : ℕ)
    → st.completed ≡ false
    → length (s ∷ seq) ≤ st.current_step_index
    → advance st (s ∷ seq) z p now ≡ none
unfolding advance
advance_outgrown st s seq z p now e h = simp (e, get_elem?-none (s ∷ seq) st.current_step_index h)

advance-completed :
    (st : SequenceState) (seq : List Step) (z : Option ℕ) (p now : ℕ)
    → st.completed ≡ true
    → advance st seq z p now ≡ some (st, none)
unfolding advance
advance-completed st [] z p now e = refl
advance-completed st (s ∷ seq) z p now e = simp e

-- A completed track gives no events.
run_track-completed :
    (rs : List Reading) (st : SequenceState) (seq : List Step)
    → st.completed ≡ true
    → run_track st seq rs ≡ some (st, [])
unfolding run_track
run_track-completed [] st seq e = refl
run_track-completed (r ∷ rs) st seq e = simp (
  advance-completed st seq r.zone_name r.pose_label r.now e,
  run_track-completed rs st seq e,
  run_track,
)

-- How a whole track ends: with no event and still open, or with one event and completed.
abbrev pub Reports : Option (SequenceState × List SequenceEvent) → Type 0
Reports o =
    (st : SequenceState) × (evs : List SequenceEvent) × (o ≡ some (st, evs))
    × ((evs ≡ []) × (st.completed ≡ false) ⊎ (length evs ≡ 1) × (st.completed ≡ true))

run_track-Reports :
    (rs : List Reading) (st : SequenceState) (seq : List Step)
    → st.completed ≡ false
    → st.current_step_index < length seq
    → Reports (run_track st seq rs)
unfolding run_track
run_track-Reports [] st seq e h = (st, [], refl, inl (refl, e))
run_track-Reports (r ∷ rs) st seq e h =
    elim (advance-Advances st seq r.zone_name r.pose_label r.now (inr h)) [
      | inl (done, _) ↦ cc
      | inr (_, ((st', none), step, later)) ↦
          let (st'', evs, run, report) = run_track-Reports rs st' seq later.1 (ground arith) in
          (st'', evs, simp (step, run, run_track), report)
      | inr (_, ((st', some ev), step, later)) ↦ (
        st',
        ev ∷ [],
        simp (step, run_track-completed rs st' seq later.0, run_track),
        inr (refl, later.0),
      )
    ]

-- A new track under a sequence with a step never raises, whatever the readings, and gives at most
-- one event in its life: none while it is open, one when it is completed.
pub run_track-one_event :
    (rs : List Reading) (s : Step) (seq : List Step) → Reports (run_track initial (s ∷ seq) rs)
run_track-one_event rs s seq = run_track-Reports rs initial (s ∷ seq) refl (omega arith)
