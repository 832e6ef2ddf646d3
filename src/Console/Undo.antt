-- ===== src/Console/Undo.antt =====
-- Undo over sessions of commands on sequences and layouts.
use mizer.Prelude.{◌<◌, ◌≡◌, List, length}
use mizer.Commander.Cursor.{index}
use mizer.Commander.Cursor.Timeline.{limit}
use mizer.Commander.Executor.{CommandTrait, IsLawful}
use mizer.Commander.Impl.{trait_of}
use mizer.Commander.Impl.Lawful.{either-IsLawful}
use mizer.Commander.Impl.Beside.{on_first-IsLawful, on_second-IsLawful}
use mizer.Commander.Session.{Serde}
use mizer.Commander.Session.Sound.{Action, fresh, acts, IsGuarded}
use mizer.Commander.Session.UndoAll.{undo_times, undo_all-acts}
use mizer.Layouts.{Layouts}
use mizer.Layouts.Edits.Lawful.{control_edits-IsLawful}
use mizer.Sequencer.Time.{Rig}
use mizer.Sequencer.Commands.{Sequencer}
use mizer.Sequencer.Edits.Lawful.{sequence_edits-IsLawful}
use mizer.Console.{console_edits}

abbrev pub console : Rig → CommandTrait
console rig = trait_of (console_edits rig)

pub console-IsLawful : (rig : Rig) → IsLawful (console rig)
console-IsLawful rig =
    either-IsLawful _ _ (on_first-IsLawful _ (sequence_edits-IsLawful rig))
      (on_second-IsLawful _ control_edits-IsLawful)

-- A user runs, in any order, commands that set whether a sequence wraps around, its priority, a cue's
-- trigger, trigger time, delay or fade, the value of one of its controls or the offset of one of its
-- effects, and commands that set the position, size, label, hotkey, behavior or decorations of a
-- control of a layout; some may fail. The user undoes and redoes, and redoes only if there is
-- something to redo, with fewer actions than an `i32` counts. Then as many undos as the history counts
-- commands give back the first sequences and layouts, whatever they were. The command on the last cue
-- and those that rename sequences and cues are not among these.
pub undo_all-console :
    (rig : Rig) (d : Serde (console rig)) (origin : Sequencer rig × Layouts) (log : List d.Line)
    (actions : List (Action (console rig)))
    → length actions < limit
    → IsGuarded (console rig) d (fresh (console rig) d origin log) actions
    → (undo_times
        (console rig)
        d
        (index (acts (console rig) d (fresh (console rig) d origin log) actions).history)
        (acts (console rig) d (fresh (console rig) d origin log) actions)).world
      ≡ origin
undo_all-console rig d origin log actions small guarded =
    (undo_all-acts (console rig) d (console-IsLawful rig) origin log actions small guarded).0
