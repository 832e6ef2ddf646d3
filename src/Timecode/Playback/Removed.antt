-- ===== src/Timecode/Playback/Removed.antt =====
-- Timecode tracks that are removed.
use mizer.Prelude.{◌≡◌, refl, arith, ℕ, true, none, some, List, ◌∷◌}
use mizer.Prelude.Int.{ℤ}
use mizer.Prelude.Maps.{Map, nat_eq, lookup-erase_self, beq_refl}
use mizer.Commander.Executor.{err}
use mizer.Timecode.{
  Splines, TimecodeState, TimecodeManager, is_running, is_some, remove_timecode, update_timecode,
  with_track, unknown_timecode,
}
use mizer.Timecode.Playback.{record_control_value, record_each, record_at, next_recording, start_of}
use mizer.Timecode.Controls.{get_control_value, find_running}

is_running_started :
    (start : ℤ) (t : ℕ) → is_running (record { start_point = some start; timestamp = t }) ≡ true
unfolding is_running is_some
is_running_started start t = ground arith

-- A track is removed while it plays and is recorded, where it comes first among the states, and first
-- among the recordings. Then no control has a value any more, whichever tracks play behind it, and
-- recording a value fails and records nothing, whichever tracks are recorded behind it: its state and
-- its recording stay when it goes.
pub remove_timecode-blocks :
    (splines : Splines) (id : ℕ) (m : TimecodeManager splines) (start : ℤ) (timestamp : ℕ)
    (states : Map ℕ TimecodeState) (ids : List ℕ)
    → m.timecode_states ≡ (id, record { start_point = some start; timestamp = timestamp }) ∷ states
    → m.recording ≡ id ∷ ids
    → (clamped : splines.F64 → splines.F64) (control_id : ℕ) (value : splines.F64) (now : ℕ)
    → (get_control_value splines clamped control_id (remove_timecode splines id m).0 ≡ none)
      × (record_control_value splines control_id value now (remove_timecode splines id m).0
          ≡ (err unknown_timecode, (remove_timecode splines id m).0))
unfolding get_control_value find_running is_running is_some remove_timecode record_control_value
    record_each record_at next_recording start_of update_timecode with_track
remove_timecode-blocks splines id m start timestamp states ids first recorded clamped control_id
      value now =
    (
      rw (first, is_running_started start timestamp, lookup-erase_self id m.timecodes) refl,
      rw (recorded, first, beq_refl id, lookup-erase_self id m.timecodes) refl,
    )
