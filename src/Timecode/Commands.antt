-- ===== src/Timecode/Commands.antt =====
-- The commands of crates/components/timecode/src/commands on tracks and controls. The texts that
-- describe a command are left out.
pub mod Undo
use Prim.Native.String.{String}
use mizer.Prelude.{◌≡◌, refl, arith, ℕ, Option, none, some, Option-cases, inl, inr}
use mizer.Prelude.Maps.{Map, lookup, insert, nat_eq, lookup-insert_self, insert-insert}
use mizer.Commander.Executor.{Error, Result, ok, err, CommandTrait, IsLawful}
use mizer.Commander.Impl.{Impl, trait_of}
use mizer.Timecode.{
  Splines, TimecodeTrack, TimecodeControl, TimecodeControlValues, TimecodeManager, add_timecode,
  insert_timecode, remove_timecode, update_timecode, unknown_timecode, unknown_timecode_control,
  with_track,
}
use mizer.Timecode.Controls.{
  add_timecode_control, insert_timecode_control, remove_timecode_control, update_timecode_control,
}

pub record Rename : Type 0 where
  pub id : ℕ
  pub name : String

module _ (splines : Splines) where
  abbrev M : Type 0
  M = TimecodeManager splines

  -- The name that the update saw, beside what it returned
  with_previous : Option String → Result (Unit {0}) × M → Result (Unit {0} × String) × M
  with_previous (some name) (ok done, m) = (ok (tt, name), m)
  with_previous none (ok done, m) = (err unknown_timecode, m)
  with_previous previous (err e, m) = (err e, m)

  track_name : Option (TimecodeTrack splines) → Option String
  track_name none = none
  track_name (some track) = some track.name

  control_name : Option TimecodeControl → Option String
  control_name none = none
  control_name (some control) = some control.name

  unfoldable pub apply_rename : Rename → M → Result (Unit {0} × String) × M
  unfolding with_previous track_name update_timecode lookup
  apply_rename c m =
      with_previous (track_name (lookup c.id m.timecodes))
        (update_timecode splines c.id (λ track. record track { name = c.name }) m)

  abbrev pub rename_timecode : Impl M
  rename_timecode = record {
    Command = Rename;
    State = String;
    type_id = λ c. 0;
    apply = apply_rename;
    revert = λ c name. update_timecode splines c.id (λ track. record track { name = name });
  }

  unfoldable pub apply_rename_control : Rename → M → Result (Unit {0} × String) × M
  unfolding with_previous control_name update_timecode_control lookup
  apply_rename_control c m =
      with_previous (control_name (lookup c.id m.controls))
        (update_timecode_control splines c.id (λ control. record control { name = c.name }) m)

  abbrev pub rename_timecode_control : Impl M
  rename_timecode_control = record {
    Command = Rename;
    State = String;
    type_id = λ c. 0;
    apply = apply_rename_control;
    revert =
        λ c name. update_timecode_control splines c.id (λ control. record control { name = name });
  }

  abbrev pub add_timecode_command : CommandTrait
  add_timecode_command = record {
    World = M;
    Command = String;
    Output = TimecodeTrack splines;
    State = ℕ;
    type_id = λ name. 0;
    apply = λ name m. let (m', track) = add_timecode splines name m in (ok (track, track.id), m');
    revert = λ name id m. (ok tt, (remove_timecode splines id m).0);
  }

  abbrev pub add_timecode_control_command : CommandTrait
  add_timecode_control_command = record {
    World = M;
    Command = String;
    Output = TimecodeControl;
    State = ℕ;
    type_id = λ name. 0;
    apply = λ name m.
        let (m', control) = add_timecode_control splines name m in (ok (control, control.id), m');
    revert = λ name id m. (ok tt, (remove_timecode_control splines id m).0);
  }

  or_unknown : {A : Type 0} → Error → M × Option A → Result (Unit {0} × A) × M
  or_unknown e (m, none) = (err e, m)
  or_unknown e (m, some a) = (ok (tt, a), m)

  unfoldable pub apply_delete : ℕ → M → Result (Unit {0} × TimecodeTrack splines) × M
  unfolding or_unknown remove_timecode
  apply_delete id m = or_unknown unknown_timecode (remove_timecode splines id m)

  abbrev pub delete_timecode : Impl M
  delete_timecode = record {
    Command = ℕ;
    State = TimecodeTrack splines;
    type_id = λ id. 0;
    apply = apply_delete;
    revert = λ id track m. (ok tt, insert_timecode splines track m);
  }

  unfoldable pub apply_delete_control :
      ℕ → M → Result (Unit {0} × (TimecodeControl × Map ℕ (TimecodeControlValues splines))) × M
  unfolding or_unknown remove_timecode_control
  apply_delete_control id m =
      or_unknown unknown_timecode_control (remove_timecode_control splines id m)

  abbrev pub delete_timecode_control : Impl M
  delete_timecode_control = record {
    Command = ℕ;
    State = TimecodeControl × Map ℕ (TimecodeControlValues splines);
    type_id = λ id. 0;
    apply = apply_delete_control;
    revert = λ id (control, values) m. (ok tt, insert_timecode_control splines control values m);
  }
