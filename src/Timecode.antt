-- ===== src/Timecode.antt =====
-- `TimecodeManager` and `TimecodeState` of crates/components/timecode/src/manager.rs with the data of
-- model.rs. A duration is a number of nanoseconds and an instant one that may lie before the origin;
-- a call reads the clock once. What is sent to the observers, and labels, are left out.
pub mod Playback
pub mod Controls
pub mod Complete
pub mod Calls
pub mod Commands
pub mod MapValues
use Prim.Native.String.{String}
use mizer.Prelude.Int.{ℤ}
use mizer.Prelude.{
  ℕ, ◌+◌, ◌%◌, ◌^◌, Bool, true, false, ◌||◌, max, ltb, Option, none, some, List, [], ◌∷◌, ◌==◌,
  if◌then◌else◌,
}
use mizer.Prelude.Maps.{Map, lookup, insert, erase, nat_eq}
use mizer.Commander.Executor.{Error, Result, ok, err, failed}

-- The splines of crates/util, sampled as in spline.rs, and the numbers that they are over
pub record Splines : Type 1 where
  pub F64 : Type 0
  pub Spline : Type 0
  pub default : Spline
  pub is_empty : Spline → Bool
  pub add_simple_step : F64 → F64 → Spline → Spline
  pub timecode_sample : F64 → Spline → F64
  pub as_secs_f64 : ℕ → F64

pub record TimecodeState : Type 0 where
  pub start_point : Option ℤ
  pub timestamp : ℕ

unfoldable pub is_some : {A : Type 0} → Option A → Bool
is_some none = false
is_some (some a) = true

unfoldable pub is_running : TimecodeState → Bool
unfolding is_some
is_running s = ltb 0 s.timestamp || is_some s.start_point

abbrev pub default_state : TimecodeState
default_state = record { start_point = none; timestamp = 0 }

pub record TimecodeControl : Type 0 where
  pub id : ℕ
  pub name : String

abbrev pub unknown_timecode : Error
unknown_timecode = failed 1

abbrev pub unknown_timecode_control : Error
unknown_timecode_control = failed 2

module _ {V W : Type 0} where
  -- `iter_mut` over a map
  unfoldable pub map_values : (ℕ → V → W) → Map ℕ V → Map ℕ W
  map_values f [] = []
  map_values f ((k, v) ∷ m) = (k, f k v) ∷ map_values f m

module _ (splines : Splines) where
  pub record TimecodeControlValues : Type 0 where
    pub id : ℕ
    pub spline : splines.Spline

  pub record TimecodeTrack : Type 0 where
    pub id : ℕ
    pub name : String
    pub controls : List TimecodeControlValues

  pub record TimecodeManager : Type 0 where
    pub timecode_counter : ℕ
    pub timecodes : Map ℕ TimecodeTrack
    pub control_counter : ℕ
    pub controls : Map ℕ TimecodeControl
    pub timecode_states : Map ℕ TimecodeState
    pub recording : List ℕ

  abbrev pub empty_values : ℕ → TimecodeControlValues
  empty_values id = record { id = id; spline = splines.default }

  unfoldable pub find_values : ℕ → List TimecodeControlValues → Option TimecodeControlValues
  find_values id [] = none
  find_values id (v ∷ vs) = let rest = find_values id vs in if v.id == id then some v else rest

  unfoldable pub get_control : ℕ → TimecodeTrack → Option TimecodeControlValues
  unfolding find_values
  get_control id track = find_values id track.controls

  unfoldable pub clear : TimecodeManager → TimecodeManager
  clear m = record {
    timecode_counter = 1;
    timecodes = [];
    control_counter = 1;
    controls = [];
    timecode_states = [];
    recording = [];
  }

  controls_of : Map ℕ TimecodeControl → List TimecodeControlValues
  controls_of [] = []
  controls_of ((_, c) ∷ rest) = empty_values c.id ∷ controls_of rest

  unfoldable pub insert_timecode : TimecodeTrack → TimecodeManager → TimecodeManager
  insert_timecode track m = record m {
    timecodes = insert track.id track m.timecodes;
    timecode_states = insert track.id default_state m.timecode_states;
  }

  unfoldable pub add_timecode : String → TimecodeManager → TimecodeManager × TimecodeTrack
  unfolding insert_timecode controls_of
  add_timecode name m =
      let track : TimecodeTrack = record {
        id = m.timecode_counter;
        name = name;
        controls = controls_of m.controls;
      } in
      (
        insert_timecode track (record m { timecode_counter = (m.timecode_counter + 1) % 2 ^ 32 }),
        track,
      )

  unfoldable pub remove_timecode : ℕ → TimecodeManager → TimecodeManager × Option TimecodeTrack
  remove_timecode id m = (record m { timecodes = erase id m.timecodes }, lookup id m.timecodes)

  insert_all : List TimecodeTrack → Map ℕ TimecodeTrack → Map ℕ TimecodeTrack
  insert_all [] tracks = tracks
  insert_all (t ∷ rest) tracks = insert_all rest (insert t.id t tracks)

  insert_states : List TimecodeTrack → Map ℕ TimecodeState → Map ℕ TimecodeState
  insert_states [] states = states
  insert_states (t ∷ rest) states = insert_states rest (insert t.id default_state states)

  insert_controls : List TimecodeControl → Map ℕ TimecodeControl → Map ℕ TimecodeControl
  insert_controls [] controls = controls
  insert_controls (c ∷ rest) controls = insert_controls rest (insert c.id c controls)

  -- `max().unwrap_or_default()`
  highest_id : List TimecodeTrack → ℕ
  highest_id [] = 0
  highest_id (t ∷ rest) = max t.id (highest_id rest)

  highest_control_id : List TimecodeControl → ℕ
  highest_control_id [] = 0
  highest_control_id (c ∷ rest) = max c.id (highest_control_id rest)

  unfoldable pub load_timecodes :
      List TimecodeTrack → List TimecodeControl → TimecodeManager → TimecodeManager
  unfolding insert_all insert_states insert_controls highest_id highest_control_id
  load_timecodes timecodes controls m = record m {
    timecode_states = insert_states timecodes m.timecode_states;
    timecodes = insert_all timecodes [];
    timecode_counter = (highest_id timecodes + 1) % 2 ^ 32;
    controls = insert_controls controls [];
    control_counter = (highest_control_id controls + 1) % 2 ^ 32;
  }

  with_track :
      ℕ
      → (TimecodeTrack → TimecodeTrack)
      → TimecodeManager
      → Option TimecodeTrack
      → Result (Unit {0}) × TimecodeManager
  with_track id update m none = (err unknown_timecode, m)
  with_track id update m (some track) =
      (ok tt, record m { timecodes = insert id (update track) m.timecodes })

  unfoldable pub update_timecode :
      ℕ → (TimecodeTrack → TimecodeTrack) → TimecodeManager → Result (Unit {0}) × TimecodeManager
  unfolding with_track lookup
  update_timecode id update m = with_track id update m (lookup id m.timecodes)
