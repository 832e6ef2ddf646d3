-- ===== src/Timecode/Playback.antt =====
-- The states of the timecode tracks in crates/components/timecode/src/manager.rs: playing, writing a
-- timestamp, recording, and what `TimecodeStateAccess` reads.
pub mod Running
pub mod Removed
pub mod Kept
use mizer.Prelude.Int.{ℤ, pos, negsuc, ◌-ℤ◌}
use mizer.Prelude.{
  ℕ, ◌+◌, ◌-◌, suc, Bool, true, false, Option, none, some, List, [], ◌∷◌, ◌==◌, if◌then◌else◌,
}
use mizer.Prelude.Maps.{Map, lookup, insert, nat_eq}
use mizer.Commander.Executor.{Error, Result, ok, err}
use mizer.Sequencer.Commands.{has, index_insert, shift_remove}
use mizer.Timecode.{
  Splines, TimecodeState, is_some, default_state, map_values, TimecodeControlValues, TimecodeTrack,
  TimecodeManager, update_timecode,
}

-- `Instant::elapsed`
unfoldable pub elapsed : ℕ → ℤ → ℕ
elapsed now (pos start) = now - start
elapsed now (negsuc before) = now + suc before

module _ (splines : Splines) where
  abbrev M : Type 0
  M = TimecodeManager splines

  update_state : ℕ → (TimecodeState → TimecodeState) → Option TimecodeState → M → M
  update_state id f none m = m
  update_state id f (some s) m = record m { timecode_states = insert id (f s) m.timecode_states }

  unfoldable pub write_timestamp : ℕ → ℕ → ℕ → M → M
  unfolding update_state lookup
  write_timestamp now id timestamp m =
      update_state id
        (λ s. record { start_point = some (pos now -ℤ pos timestamp); timestamp = timestamp })
        (lookup id m.timecode_states) m

  unfoldable pub start_timecode_track : ℕ → ℕ → M → M
  unfolding update_state lookup
  start_timecode_track now id m =
      update_state id (λ s. record s { start_point = some (pos now) }) (lookup id m.timecode_states)
        m

  unfoldable pub stop_timecode_track : ℕ → M → M
  unfolding update_state lookup
  stop_timecode_track id m = update_state id (λ s. default_state) (lookup id m.timecode_states) m

  unfoldable pub start_timecode_track_recording : ℕ → M → M
  unfolding lookup index_insert is_some
  start_timecode_track_recording id m =
      if is_some (lookup id m.timecode_states)
      then record m { recording = index_insert id m.recording }
      else m

  unfoldable pub stop_timecode_track_recording : ℕ → M → M
  unfolding lookup shift_remove is_some
  stop_timecode_track_recording id m =
      if is_some (lookup id m.timecode_states)
      then record m { recording = shift_remove id m.recording }
      else m

  advanced : ℕ → Option ℤ → TimecodeState → TimecodeState
  unfolding elapsed
  advanced now none s = s
  advanced now (some start) s = record s { timestamp = elapsed now start }

  unfoldable pub advance_timecodes : ℕ → M → M
  unfolding map_values advanced
  advance_timecodes now m = record m {
    timecode_states = map_values (λ id s. advanced now s.start_point s) m.timecode_states;
  }

  -- `iter_mut().find(…)`, and the step added to what it finds
  unfoldable pub add_step :
      ℕ
      → splines.F64
      → splines.F64
      → List (TimecodeControlValues splines)
      → List (TimecodeControlValues splines)
  add_step id frame value [] = []
  add_step id frame value (v ∷ vs) =
      let rest = add_step id frame value vs in
      if v.id == id
      then record v { spline = splines.add_simple_step frame value v.spline } ∷ vs
      else v ∷ rest

  start_of : Option TimecodeState → Option ℤ
  start_of none = none
  start_of (some s) = s.start_point

  record_at : ℕ → splines.F64 → ℕ → ℕ → Option ℤ → M → Result (Unit {0}) × M
  unfolding update_timecode add_step elapsed
  record_at control_id value now id none m = (ok tt, m)
  record_at control_id value now id (some start) m =
      update_timecode splines id
        (λ track. record track {
          controls =
              add_step control_id (splines.as_secs_f64 (elapsed now start)) value track.controls;
        })
        m

  next_recording : Result (Unit {0}) × M → (M → Result (Unit {0}) × M) → Result (Unit {0}) × M
  next_recording (ok done, m) rest = rest m
  next_recording (err e, m) rest = (err e, m)

  record_each : ℕ → splines.F64 → ℕ → List ℕ → M → Result (Unit {0}) × M
  unfolding next_recording record_at start_of lookup
  record_each control_id value now [] m = (ok tt, m)
  record_each control_id value now (id ∷ ids) m =
      next_recording (record_at control_id value now id (start_of (lookup id m.timecode_states)) m)
        (record_each control_id value now ids)

  unfoldable pub record_control_value : ℕ → splines.F64 → ℕ → M → Result (Unit {0}) × M
  unfolding record_each
  record_control_value control_id value now m = record_each control_id value now m.recording m
