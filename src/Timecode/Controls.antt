-- ===== src/Timecode/Controls.antt =====
-- The controls of crates/components/timecode/src/manager.rs, of which every timecode track has values,
-- and the value of a control.
pub mod Restored
pub mod Kept
use Prim.Native.String.{String}
use mizer.Prelude.{
  ℕ, ◌+◌, ◌%◌, ◌^◌, Bool, Option, none, some, List, [], ◌∷◌, ◌++◌, ◌==◌, if◌then◌else◌, ◌>>=◌,
}
use mizer.Prelude.Maps.{Map, lookup, insert, erase, nat_eq}
use mizer.Commander.Executor.{Result, ok, err}
use mizer.Layouts.Store.{remove_first}
use mizer.Timecode.{
  Splines, TimecodeState, is_running, map_values, TimecodeControl, unknown_timecode_control,
  TimecodeControlValues, TimecodeTrack, TimecodeManager, empty_values, find_values, get_control,
}

module _ (splines : Splines) where
  abbrev M : Type 0
  M = TimecodeManager splines

  abbrev pub push_values :
      TimecodeControlValues splines → TimecodeTrack splines → TimecodeTrack splines
  push_values v track = record track { controls = track.controls ++ v ∷ [] }

  unfoldable pub add_timecode_control : String → M → M × TimecodeControl
  unfolding map_values
  add_timecode_control name m =
      let control : TimecodeControl = record { id = m.control_counter; name = name } in
      (
        record m {
          control_counter = (m.control_counter + 1) % 2 ^ 32;
          controls = insert control.id control m.controls;
          timecodes =
              map_values (λ _ track. push_values (empty_values splines control.id) track)
                m.timecodes;
        },
        control,
      )

  abbrev Values : Type 0
  Values = TimecodeControlValues splines

  values_or_empty : ℕ → Option Values → Values
  values_or_empty id none = empty_values splines id
  values_or_empty id (some v) = v

  -- `values.iter().find(|(id, _)| timecode_id == id)` in what `remove_timecode_control` gives
  unfoldable pub insert_timecode_control : TimecodeControl → Map ℕ Values → M → M
  unfolding map_values values_or_empty lookup
  insert_timecode_control control values m = record m {
    controls = insert control.id control m.controls;
    timecodes =
        map_values (λ id track. push_values (values_or_empty control.id (lookup id values)) track)
          m.timecodes;
  }

  abbrev pub has_values : ℕ → Values → Bool
  has_values id v = v.id == id

  without_values : TimecodeTrack splines → Option (Values × List Values) → TimecodeTrack splines
  without_values track none = track
  without_values track (some (v, vs)) = record track { controls = vs }

  collect : ℕ → Option (Values × List Values) → Map ℕ Values → Map ℕ Values
  collect id none values = values
  collect id (some (v, vs)) values = (id, v) ∷ values

  removed_values : ℕ → Map ℕ (TimecodeTrack splines) → Map ℕ Values
  unfolding collect remove_first
  removed_values control_id [] = []
  removed_values control_id ((id, track) ∷ rest) =
      collect id (remove_first (has_values control_id) track.controls)
        (removed_values control_id rest)

  beside_values : Map ℕ Values → Option TimecodeControl → Option (TimecodeControl × Map ℕ Values)
  beside_values values none = none
  beside_values values (some control) = some (control, values)

  unfoldable pub remove_timecode_control : ℕ → M → M × Option (TimecodeControl × Map ℕ Values)
  unfolding map_values without_values remove_first removed_values beside_values lookup
  remove_timecode_control id m = (
    record m {
      controls = erase id m.controls;
      timecodes =
          map_values (λ _ track. without_values track (remove_first (has_values id) track.controls))
            m.timecodes;
    },
    beside_values (removed_values id m.timecodes) (lookup id m.controls),
  )

  with_control :
      ℕ → (TimecodeControl → TimecodeControl) → M → Option TimecodeControl → Result (Unit {0}) × M
  with_control id update m none = (err unknown_timecode_control, m)
  with_control id update m (some control) =
      (ok tt, record m { controls = insert id (update control) m.controls })

  unfoldable pub update_timecode_control :
      ℕ → (TimecodeControl → TimecodeControl) → M → Result (Unit {0}) × M
  unfolding with_control lookup
  update_timecode_control id update m = with_control id update m (lookup id m.controls)

  -- `timecode_states.iter().find(|state| state.is_running())`
  unfoldable pub find_running : Map ℕ TimecodeState → Option (ℕ × TimecodeState)
  unfolding is_running
  find_running [] = none
  find_running ((id, s) ∷ rest) =
      let next = find_running rest in if is_running s then some (id, s) else next

  sample : (splines.F64 → splines.F64) → TimecodeState → Values → Option splines.F64
  sample clamped s v =
      if splines.is_empty v.spline
      then none
      else some (splines.timecode_sample (clamped (splines.as_secs_f64 s.timestamp)) v.spline)

  -- `clamped` is `max(0.0)`.
  unfoldable pub get_control_value : (splines.F64 → splines.F64) → ℕ → M → Option splines.F64
  unfolding find_running sample get_control find_values lookup
  get_control_value clamped control_id m = do
    running ← find_running m.timecode_states
    track ← lookup running.0 m.timecodes
    v ← get_control splines control_id track
    sample clamped running.1 v
