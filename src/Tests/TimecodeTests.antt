-- ===== src/Tests/TimecodeTests.antt =====
-- Timecode tracks and controls at concrete inputs.
use mizer.Prelude.{ℕ, ◌+◌, ◌≡◌, refl, false, none, some, List, [], ◌∷◌}
use mizer.Prelude.Int.{pos, negsuc}
use mizer.Prelude.Maps.{Map, lookup, nat_eq}
use mizer.Commander.Executor.{err}
use mizer.Timecode.{
  Splines, TimecodeControl, TimecodeControlValues, TimecodeTrack, TimecodeManager, default_state,
  get_control, remove_timecode, unknown_timecode,
}
use mizer.Timecode.Playback.{
  write_timestamp, start_timecode_track, stop_timecode_track, advance_timecodes,
  record_control_value,
}
use mizer.Timecode.Playback.Running.{advance-each}
use mizer.Timecode.Playback.Removed.{remove_timecode-blocks}
use mizer.Timecode.Controls.{get_control_value, insert_timecode_control, remove_timecode_control}
use mizer.Timecode.Controls.Restored.{insert-remove_timecode_control}
use native.Mathlib.Omega.{arith}
use mizer.Timecode.{clear}
use mizer.Timecode.Complete.{IsComplete}
use mizer.Timecode.Calls.{
  Call, add_call, add_control_call, remove_call, remove_control_call, record_call, calls,
  calls-clear-IsComplete,
}

-- A spline is the list of its values.
abbrev lists : Splines
lists = record {
  F64 = ℕ;
  Spline = List ℕ;
  default = [];
  is_empty = λ s. false;
  add_simple_step = λ frame value s. value ∷ s;
  timecode_sample = λ t s. t;
  as_secs_f64 = λ n. n;
}

abbrev fader : TimecodeControl
fader = record { id = 2; name = "Fader" }

abbrev show : TimecodeTrack lists
show = record {
  id = 1;
  name = "Show";
  controls =
      record { id = 3; spline = [] }
      ∷ record { id = 2; spline = 5 ∷ [] }
      ∷ record { id = 4; spline = 7 ∷ [] }
      ∷ [];
}

abbrev encore : TimecodeTrack lists
encore = record show { id = 6; controls = record { id = 2; spline = [] } ∷ [] }

abbrev playing : TimecodeManager lists
playing = record {
  timecode_counter = 7;
  timecodes = (1, show) ∷ (6, encore) ∷ [];
  control_counter = 5;
  controls = (2, fader) ∷ (3, record { id = 3; name = "Dial" }) ∷ [];
  timecode_states =
      (1, record { start_point = some (pos 100); timestamp = 20 }) ∷ (6, default_state) ∷ [];
  recording = 1 ∷ 6 ∷ [];
}

advance-each_example :
    (lookup 6
        (advance_timecodes lists (10 + 4) (write_timestamp lists 10 6 30 playing)).timecode_states
      ≡ some (record { start_point = some (negsuc 19); timestamp = 34 }))
    × (lookup 6
          (advance_timecodes lists
            (10 + 4)
            (start_timecode_track lists 10 6 playing)).timecode_states
        ≡ some (record { start_point = some (pos 10); timestamp = 4 }))
    × (lookup 6
          (advance_timecodes lists (10 + 4) (stop_timecode_track lists 6 playing)).timecode_states
        ≡ some default_state)
unfolding lookup
advance-each_example = advance-each lists 10 4 6 playing default_state refl 30

remove_timecode-blocks_example :
    (get_control_value lists (λ n. n) 2 (remove_timecode lists 1 playing).0 ≡ none)
    × (record_control_value lists 2 9 150 (remove_timecode lists 1 playing).0
        ≡ (err unknown_timecode, (remove_timecode lists 1 playing).0))
remove_timecode-blocks_example =
    remove_timecode-blocks lists 1 playing (pos 100) 20 ((6, default_state) ∷ []) (6 ∷ []) refl refl
      (λ n. n) 2 9 150

insert-remove_timecode_control_example :
    (values : Map ℕ (TimecodeControlValues lists)) × ((remove_timecode_control lists 2 playing).1
      ≡ some (fader, values))
    × (lookup 3
          (insert_timecode_control lists fader values
            (remove_timecode_control lists 2 playing).0).controls
        ≡ lookup 3 playing.controls)
    × (t' : TimecodeTrack lists) × (lookup 1
          (insert_timecode_control lists fader values
            (remove_timecode_control lists 2 playing).0).timecodes
        ≡ some t')
    × (get_control lists 3 t' ≡ get_control lists 3 show)
unfolding lookup
insert-remove_timecode_control_example =
    insert-remove_timecode_control lists 2 playing fader refl refl
      (
        (
          record { id = 3; spline = [] } ∷ [],
          record { id = 2; spline = 5 ∷ [] },
          record { id = 4; spline = 7 ∷ [] } ∷ [],
          refl,
          (refl, tt),
          refl,
          (refl, tt),
        ),
        (([], record { id = 2; spline = [] }, [], refl, tt, refl, tt), tt),
      )
      3 1 show refl

abbrev evening : List (Call lists)
evening =
    add_control_call "Fader"
    ∷ add_call "Show"
    ∷ add_control_call "Dial"
    ∷ add_call "Encore"
    ∷ remove_control_call 1
    ∷ record_call 2 9 150
    ∷ remove_call 1
    ∷ []

calls-clear-IsComplete_example : IsComplete lists (calls lists evening (clear lists playing))
calls-clear-IsComplete_example = calls-clear-IsComplete lists evening playing (omega arith)
