-- ===== src/Console.antt =====
-- Commands that set one field of a sequence, of a cue or of a control of a layout, `sequence_edits` and
-- `control_edits`, in one executor: of crates/components/sequencer/commands and
-- crates/runtime/layouts/commands, run by crates/runtime/commander.
pub mod Undo
use mizer.Commander.Impl.{Impl, either, on_first, on_second}
use mizer.Layouts.{Layouts}
use mizer.Layouts.Edits.{control_edits}
use mizer.Sequencer.Time.{Rig}
use mizer.Sequencer.Commands.{Sequencer}
use mizer.Sequencer.Edits.{sequence_edits}

abbrev pub console_edits : (rig : Rig) → Impl (Sequencer rig × Layouts)
console_edits rig = either (on_first (sequence_edits rig)) (on_second control_edits)
