-- ===== src/Timecode/Playback/Kept.antt =====
-- Recording and playing, and the values that the tracks have.
use mizer.Prelude.{◌≡◌, refl, ◌∙◌, arith, ℕ, Option, none, some, List, [], ◌∷◌}
use mizer.Prelude.Int.{ℤ}
use mizer.Prelude.Maps.{lookup, nat_eq}
use mizer.Commander.Executor.{Result, ok, err}
use mizer.Timecode.{Splines, TimecodeControlValues, TimecodeTrack, TimecodeManager, update_timecode}
use mizer.Timecode.Complete.{count_values, IsComplete}
use mizer.Timecode.Complete.Tracks.{update_timecode-IsComplete, update_timecode-counter}
use mizer.Timecode.Playback.{
  add_step, elapsed, record_at, record_each, next_recording, start_of, record_control_value,
}

module _ (splines : Splines) where
  count_values-add_step :
      (j id : ℕ) (frame value : splines.F64) (vs : List (TimecodeControlValues splines))
      → count_values splines j (add_step splines id frame value vs) ≡ count_values splines j vs
  unfolding count_values add_step
  count_values-add_step j id frame value [] = refl
  count_values-add_step j id frame value (v ∷ vs) =
      ground (arith, count_values-add_step j id frame value vs)

  abbrev steps : ℕ → splines.F64 → splines.F64 → TimecodeTrack splines → TimecodeTrack splines
  steps control_id frame value track = record track {
    controls = add_step splines control_id frame value track.controls;
  }

  -- What every added step keeps
  module _ (P : TimecodeManager splines → Type 0)
      (kept : (id control_id : ℕ) (frame value : splines.F64) (m : TimecodeManager splines)
        → P m
        → P (update_timecode splines id (steps control_id frame value) m).1) where
    record_at_keeps :
        (control_id : ℕ) (value : splines.F64) (now id : ℕ) (start : Option ℤ)
        (m : TimecodeManager splines)
        → P m
        → P (record_at splines control_id value now id start m).1
    unfolding record_at
    record_at_keeps control_id value now id none m h = h
    record_at_keeps control_id value now id (some start) m h =
        kept id control_id (splines.as_secs_f64 (elapsed now start)) value m h

    next_recording_keeps :
        (r : Result (Unit {0}) × TimecodeManager splines)
        (rest : TimecodeManager splines → Result (Unit {0}) × TimecodeManager splines)
        → ((m : TimecodeManager splines) → P m → P (rest m).1)
        → P r.1
        → P (next_recording splines r rest).1
    unfolding next_recording
    next_recording_keeps (ok done, m) rest keeps h = keeps m h
    next_recording_keeps (err e, m) rest keeps h = h

    record_each_keeps :
        (control_id : ℕ) (value : splines.F64) (now : ℕ) (ids : List ℕ)
        (m : TimecodeManager splines)
        → P m
        → P (record_each splines control_id value now ids m).1
    unfolding record_each
    record_each_keeps control_id value now [] m h = h
    record_each_keeps control_id value now (id ∷ ids) m h =
        next_recording_keeps _ (record_each splines control_id value now ids)
          (record_each_keeps control_id value now ids)
          (record_at_keeps control_id value now id (start_of splines (lookup id m.timecode_states))
            m h)

    record_control_value_keeps :
        (control_id : ℕ) (value : splines.F64) (now : ℕ) (m : TimecodeManager splines)
        → P m
        → P (record_control_value splines control_id value now m).1
    unfolding record_control_value
    record_control_value_keeps control_id value now m h =
        record_each_keeps control_id value now m.recording m h

  pub record_control_value-IsComplete :
      (control_id : ℕ) (value : splines.F64) (now : ℕ) (m : TimecodeManager splines)
      → IsComplete splines m
      → IsComplete splines (record_control_value splines control_id value now m).1
  record_control_value-IsComplete =
      record_control_value_keeps (IsComplete splines) (λ id control_id frame value m h.
        update_timecode-IsComplete splines id (steps control_id frame value) m
          (λ j t. count_values-add_step j control_id frame value t.controls) h)

  pub record_control_value-counter :
      (control_id : ℕ) (value : splines.F64) (now : ℕ) (m : TimecodeManager splines)
      → (record_control_value splines control_id value now m).1.control_counter ≡ m.control_counter
  record_control_value-counter control_id value now m =
      record_control_value_keeps (λ m'. m'.control_counter ≡ m.control_counter)
        (λ id c frame value m' h. update_timecode-counter splines id (steps c frame value) m' ∙ h)
        control_id value now m refl
