-- ===== src/Tests/ConsoleTests.antt =====
-- A session of commands on sequences and layouts.
use mizer.Prelude.{◌≡◌, refl, true, false, some, List, [], ◌∷◌, inl, inr}
use native.Mathlib.Omega.{arith}
use mizer.Commander.Cursor.{index}
use mizer.Commander.Session.{Serde}
use mizer.Commander.Session.Sound.{Action, run_it, undo_it, fresh, acts}
use mizer.Commander.Session.UndoAll.{undo_times}
use mizer.Layouts.{Layouts}
use mizer.Sequencer.Commands.{Sequencer}
use mizer.Console.Undo.{console, undo_all-console}
use mizer.Tests.SequencerTests.{rig, sequencer}
use mizer.Tests.LayoutsTests.{both}

abbrev plain : Serde (console rig)
plain = record {
  Line = (console rig).Command;
  encode = λ c. c;
  decode = λ l. some l;
  decode-encode = λ c. refl;
}

abbrev start : Sequencer rig × Layouts
start = (sequencer [], both)

-- The second one fails.
abbrev evening : List (Action (console rig))
evening =
    run_it (inl (inl (record { sequence_id = 4; value = false }))) 10 true
    ∷ run_it (inl (inl (record { sequence_id = 9; value = false }))) 11 true
    ∷ run_it
        (inr (inl (record { layout_id = "main"; control_id = 2; value = record { x = 3; y = 4 } })))
        12 true
    ∷ undo_it
    ∷ []

undo_all-console_example :
    (undo_times
      (console rig)
      plain
      (index (acts (console rig) plain (fresh (console rig) plain start []) evening).history)
      (acts (console rig) plain (fresh (console rig) plain start []) evening)).world
    ≡ start
undo_all-console_example = undo_all-console rig plain start [] evening (omega arith) tt
