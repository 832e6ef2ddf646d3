-- ===== src/Tests/LayoutsTests.antt =====
-- The commands on layouts at concrete inputs.
use Prim.Native.String.{String}
use mizer.Prelude.{ℕ, ◌≡◌, refl, Option, none, some, [], ◌∷◌}
use mizer.Commander.Executor.{ok}
use mizer.Layouts.{ControlConfig, sequencer, node, default_size, toggle, Layout, Layouts}
use mizer.Layouts.Store.{has_name, drop_all, commit, get_control}
use mizer.Layouts.Edits.{move_layout_control}
use mizer.Layouts.Commands.{add_layout}
use mizer.Layouts.Controls.{NodeType, dial, AddLayoutControl, add_control, DeleteLayoutControl}
use mizer.Layouts.Undo.{revert-add_layout}
use mizer.Commander.Impl.Lawful.{IsAtomic}
use mizer.Layouts.Atomic.{layout_commands, layout_commands-IsAtomic}

abbrev control : ℕ → ControlConfig
control id = record {
  id = id;
  label = none;
  control_type = sequencer 1;
  position = record { x = 0; y = 0 };
  size = default_size;
  decoration = record { color = none; image = none };
  behavior = record { sequencer = record { click_behavior = toggle } };
  hotkey = some "F1";
}

abbrev main : Layout
main = record { id = "main"; controls = control 1 ∷ control 2 ∷ [] }

abbrev side : Layout
side = record { id = "side"; controls = [] }

abbrev pub both : Layouts
both = main ∷ side ∷ []

abbrev get_node : String → Option NodeType
get_node path = some dial

abbrev dial_control : AddLayoutControl
dial_control = record {
  layout_id = "main";
  control_type = node "/dial-0";
  position = record { x = 4; y = 2 };
  control_id = 3;
}

abbrev second_control : DeleteLayoutControl
second_control = record { layout_id = "main"; control_id = 1 }

-- A moved control keeps its other fields.
moved :
    (move_layout_control.apply
      (record { layout_id = "main"; control_id = 2; value = record { x = 7; y = 8 } })
      both).1
    ≡ record main {
      controls = control 1 ∷ record (control 2) { position = record { x = 7; y = 8 } } ∷ [];
    }
      ∷ side
      ∷ []
unfolding commit get_control
moved = refl

revert-add_layout_example :
    add_layout.revert "main" tt (add_layout.apply "main" both).1
    ≡ (ok tt, drop_all (has_name "main") both)
revert-add_layout_example = revert-add_layout "main" both

-- What is left of it, after a second layout of the name was added and taken back
lost_layout : add_layout.revert "main" tt (add_layout.apply "main" both).1 ≡ (ok tt, side ∷ [])
unfolding drop_all
lost_layout = refl

abbrev renamed_both : Layouts
renamed_both = record main { id = "stage" } ∷ side ∷ []

abbrev added_both : Layouts
added_both = (add_control get_node dial_control both).1

abbrev deleted_both : Layouts
deleted_both = record main { controls = control 2 ∷ [] } ∷ side ∷ []

layout_commands-IsAtomic_example : IsAtomic (layout_commands get_node)
layout_commands-IsAtomic_example = layout_commands-IsAtomic get_node
