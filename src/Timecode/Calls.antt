-- ===== src/Timecode/Calls.antt =====
-- The calls that change the tracks and the controls of a timecode manager.
use Prim.Native.String.{String}
use mizer.Prelude.{refl, arith, ℕ, ◌+◌, ◌<◌, ◌≤◌, ◌^◌, List, [], ◌∷◌, length}
use mizer.Prelude.Maps.{lookup, nat_eq}
use mizer.Timecode.{Splines, TimecodeManager, clear, add_timecode, remove_timecode, insert_timecode}
use mizer.Timecode.Complete.{IsComplete}
use mizer.Timecode.Complete.Tracks.{add_timecode-IsComplete, remove_timecode-IsComplete}
use mizer.Timecode.Playback.{record_control_value}
use mizer.Timecode.Playback.Kept.{record_control_value-IsComplete, record_control_value-counter}
use mizer.Timecode.Controls.{add_timecode_control, remove_timecode_control}
use mizer.Timecode.Controls.Kept.{
  add_timecode_control-IsComplete, remove_timecode_control-IsComplete,
}

pub data Call (splines : Splines) : Type 0 where
  add_call add_control_call : String → Call splines
  remove_call remove_control_call : ℕ → Call splines
  record_call : ℕ → splines.F64 → ℕ → Call splines

module _ (splines : Splines) where
  unfoldable pub call : Call splines → TimecodeManager splines → TimecodeManager splines
  unfolding add_timecode add_timecode_control remove_timecode remove_timecode_control
      record_control_value
  call (add_call name) m = (add_timecode splines name m).0
  call (add_control_call name) m = (add_timecode_control splines name m).0
  call (remove_call id) m = (remove_timecode splines id m).0
  call (remove_control_call id) m = (remove_timecode_control splines id m).0
  call (record_call control_id value now) m =
      (record_control_value splines control_id value now m).1

  unfoldable pub calls : List (Call splines) → TimecodeManager splines → TimecodeManager splines
  unfolding call
  calls [] m = m
  calls (c ∷ cs) m = calls cs (call c m)

  call-IsComplete :
      (c : Call splines) (m : TimecodeManager splines)
      → m.control_counter + 1 < 2 ^ 32
      → IsComplete splines m
      → IsComplete splines (call c m)
  unfolding call
  call-IsComplete (add_call name) m small h = add_timecode-IsComplete splines name m h
  call-IsComplete (add_control_call name) m small h =
      add_timecode_control-IsComplete splines name m small h
  call-IsComplete (remove_call id) m small h = remove_timecode-IsComplete splines id m h
  call-IsComplete (remove_control_call id) m small h =
      remove_timecode_control-IsComplete splines id m h
  call-IsComplete (record_call control_id value now) m small h =
      record_control_value-IsComplete splines control_id value now m h

  call-counts :
      (c : Call splines) (m : TimecodeManager splines)
      → m.control_counter + 1 < 2 ^ 32
      → (call c m).control_counter ≤ m.control_counter + 1
  unfolding call add_timecode insert_timecode remove_timecode add_timecode_control
      remove_timecode_control
  call-counts (add_call name) m small = omega arith
  call-counts (add_control_call name) m small = omega arith
  call-counts (remove_call id) m small = omega arith
  call-counts (remove_control_call id) m small = omega arith
  call-counts (record_call control_id value now) m small =
      rw (record_control_value-counter splines control_id value now m) (omega arith)

  calls-IsComplete :
      (cs : List (Call splines)) (m : TimecodeManager splines)
      → m.control_counter + length cs < 2 ^ 32
      → IsComplete splines m
      → IsComplete splines (calls cs m)
  unfolding calls
  calls-IsComplete [] m small h = h
  calls-IsComplete (c ∷ cs) m small h =
      let one : m.control_counter + 1 < 2 ^ 32 = omega arith in
      let counted = call-counts c m one in
      calls-IsComplete cs (call c m) (omega arith) (call-IsComplete c m one h)

  -- After any calls from a manager that was cleared, fewer than a `u32` counts, that add and remove
  -- tracks and controls and record values, in any order and failing or not, every track has values of
  -- each control once, and of no other.
  pub calls-clear-IsComplete :
      (cs : List (Call splines)) (m : TimecodeManager splines)
      → 1 + length cs < 2 ^ 32
      → IsComplete splines (calls cs (clear splines m))
  calls-clear-IsComplete cs m small =
      calls-IsComplete cs (clear splines m) (unfold clear in small) (record {
        tracks = unfold clear in tt;
        keyed = unfold clear in tt;
        fresh = λ j. unfold clear lookup in refl;
      })
