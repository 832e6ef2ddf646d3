-- ===== src/Layouts/Controls.antt =====
-- The commands of crates/runtime/layouts/commands/src that add a control to a layout and delete one,
-- add_layout_control.rs and delete_layout_control.rs. The texts that describe a command are left out.
pub mod Undo
use Prim.Native.String.{String}
use mizer.Prelude.{ℕ, Bool, Option, none, some, List, [], ◌∷◌, ◌++◌, ◌>>=◌}
use mizer.Commander.Executor.{Error, Result, ok, err}
use mizer.Commander.Impl.{Impl}
use mizer.Layouts.{
  ControlId, ControlConfig, ControlType, node, ControlPosition, ControlSize, default_size,
  go_forward, Layout, Layouts,
}
use mizer.Layouts.Store.{
  unknown_layout, unknown_control, unknown_node, has_name, has_id, remove_first, drop_all, commit,
  get_layout, update_layout,
}
use mizer.Layouts.Edits.{as_done}

-- The node types of crates/runtime/pipeline/node/src/introspection.rs; the other ones by a number
pub data NodeType : Type 0 where
  fader button dial step_sequencer : NodeType
  other_type : ℕ → NodeType

unfoldable pub get_default_size_for_node_type : NodeType → ControlSize
get_default_size_for_node_type fader = record { height = 4; width = 1 }
get_default_size_for_node_type button = record { height = 1; width = 1 }
get_default_size_for_node_type dial = record { height = 2; width = 2 }
get_default_size_for_node_type step_sequencer = record { width = 16; height = 1 }
get_default_size_for_node_type (other_type n) = default_size

-- `control_id` is the one that `ControlId::new` will draw.
pub record AddLayoutControl : Type 0 where
  pub layout_id : String
  pub control_type : ControlType
  pub position : ControlPosition
  pub control_id : ControlId

-- The node of a control, if it has one, in the pipeline
size_of : (String → Option NodeType) → ControlType → Option ControlSize
unfolding get_default_size_for_node_type
size_of get_node (node path) = do
  node_type ← get_node path
  some (get_default_size_for_node_type node_type)
size_of get_node _ = some default_size

abbrev pub new_control : AddLayoutControl → ControlSize → ControlConfig
new_control c size = record {
  id = c.control_id;
  control_type = c.control_type;
  label = none;
  position = c.position;
  size = size;
  decoration = record { color = none; image = none };
  behavior = record { sequencer = record { click_behavior = go_forward } };
  hotkey = none;
}

push_control : ControlConfig → Layout → Result (Layout × Unit {0})
push_control control layout = ok (record layout { controls = layout.controls ++ control ∷ [] }, tt)

with_state :
    {A : Type 0} → A → Result (Unit {0} × Unit {0}) × Layouts → Result (Unit {0} × A) × Layouts
with_state a (ok (o, s), layouts) = (ok (o, a), layouts)
with_state a (err e, layouts) = (err e, layouts)

add_sized :
    AddLayoutControl → Layouts → Option ControlSize → Result (Unit {0} × ControlId) × Layouts
unfolding with_state update_layout push_control
add_sized c layouts none = (err unknown_node, layouts)
add_sized c layouts (some size) =
    with_state c.control_id (update_layout c.layout_id (push_control (new_control c size)) layouts)

unfoldable pub add_control :
    (String → Option NodeType)
    → AddLayoutControl
    → Layouts
    → Result (Unit {0} × ControlId) × Layouts
unfolding add_sized size_of
add_control get_node c layouts = add_sized c layouts (size_of get_node c.control_type)

retain_others : ControlId → Layout → Result (Layout × Unit {0})
unfolding drop_all
retain_others id layout = ok (record layout { controls = drop_all (has_id id) layout.controls }, tt)

unfoldable pub remove_control : String → ControlId → Layouts → Result (Unit {0}) × Layouts
unfolding update_layout retain_others
remove_control layout_id id layouts = as_done (update_layout layout_id (retain_others id) layouts)

-- `get_node` is `Pipeline::get_node_dyn`, of which a command reads the type.
abbrev pub add_layout_control : (String → Option NodeType) → Impl Layouts
add_layout_control get_node = record {
  Command = AddLayoutControl;
  State = ControlId;
  type_id = λ c. 0;
  apply = add_control get_node;
  revert = λ c id layouts. remove_control c.layout_id id layouts;
}

pub record DeleteLayoutControl : Type 0 where
  pub layout_id : String
  pub control_id : ControlId

take_control :
    Layout → Option (ControlConfig × List ControlConfig) → Result (Layout × ControlConfig)
take_control layout (some (control, controls)) = ok (record layout { controls = controls }, control)
take_control layout none = err unknown_control

unfoldable pub delete_control :
    DeleteLayoutControl → Layouts → Result (Unit {0} × ControlConfig) × Layouts
unfolding update_layout take_control remove_first
delete_control c layouts =
    update_layout c.layout_id
      (λ layout. take_control layout (remove_first (has_id c.control_id) layout.controls)) layouts

unfoldable pub put_control : String → ControlConfig → Layouts → Result (Unit {0}) × Layouts
unfolding update_layout push_control
put_control layout_id control layouts =
    as_done (update_layout layout_id (push_control control) layouts)

abbrev pub delete_layout_control : Impl Layouts
delete_layout_control = record {
  Command = DeleteLayoutControl;
  State = ControlConfig;
  type_id = λ c. 0;
  apply = delete_control;
  revert = λ c control layouts. put_control c.layout_id control layouts;
}
