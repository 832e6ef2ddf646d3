-- ===== src/Layouts/Edits.antt =====
-- The commands of crates/runtime/layouts/commands/src that set one field of a control:
-- move_layout_control.rs, resize_layout_control.rs, rename_layout_control.rs,
-- bind_layout_control_hotkey.rs, update_layout_control_behavior.rs and
-- update_layout_control_decorations.rs. The texts that describe a command are left out.
pub mod Lawful
use Prim.Native.String.{String}
use mizer.Prelude.{ℕ, Bool, Option, some}
use mizer.Commander.Executor.{Result, ok, err}
use mizer.Commander.Impl.{Impl, either}
use mizer.Layouts.{
  ControlId, ControlConfig, ControlPosition, ControlSize, ControlBehavior, ControlDecorations,
  Layouts,
}
use mizer.Layouts.Store.{commit, get_control}

-- The fields that these commands share
pub record Target (A : Type 0) : Type 0 where
  pub layout_id : String
  pub control_id : ControlId
  pub value : A

-- Sets the control to what `put` makes of it, and gives `previous` of what it was.
abbrev pub set_control :
    {A : Type 0}
    → String
    → ControlId
    → (ControlConfig → A)
    → (ControlConfig → ControlConfig)
    → Layouts
    → Result (Unit {0} × A) × Layouts
set_control layout_id control_id previous put layouts =
    commit layouts
      (get_control layout_id control_id (λ control. ok (put control, previous control)) layouts)

abbrev pub as_done : {W : Type 0} → Result (Unit {0} × Unit {0}) × W → Result (Unit {0}) × W
as_done (ok (o, s), w) = (ok o, w)
as_done (err e, w) = (err e, w)

abbrev pub restore_control :
    String → ControlId → (ControlConfig → ControlConfig) → Layouts → Result (Unit {0}) × Layouts
restore_control layout_id control_id put layouts =
    as_done
      (commit layouts (get_control layout_id control_id (λ control. ok (put control, tt)) layouts))

abbrev pub move_layout_control : Impl Layouts
move_layout_control = record {
  Command = Target ControlPosition;
  State = ControlPosition;
  type_id = λ c. 0;
  apply = λ c.
      set_control c.layout_id c.control_id (λ control. control.position)
        (λ control. record control { position = c.value });
  revert = λ c state.
      restore_control c.layout_id c.control_id (λ control. record control { position = state });
}

abbrev pub resize_layout_control : Impl Layouts
resize_layout_control = record {
  Command = Target ControlSize;
  State = ControlSize;
  type_id = λ c. 0;
  apply = λ c.
      set_control c.layout_id c.control_id (λ control. control.size)
        (λ control. record control { size = c.value });
  revert = λ c state.
      restore_control c.layout_id c.control_id (λ control. record control { size = state });
}

abbrev pub rename_layout_control : Impl Layouts
rename_layout_control = record {
  Command = Target String;
  State = Option String;
  type_id = λ c. 0;
  apply = λ c.
      set_control c.layout_id c.control_id (λ control. control.label)
        (λ control. record control { label = some c.value });
  revert = λ c state.
      restore_control c.layout_id c.control_id (λ control. record control { label = state });
}

abbrev pub bind_layout_control_hotkey : Impl Layouts
bind_layout_control_hotkey = record {
  Command = Target (Option String);
  State = Option String;
  type_id = λ c. 0;
  apply = λ c.
      set_control c.layout_id c.control_id (λ control. control.hotkey)
        (λ control. record control { hotkey = c.value });
  revert = λ c state.
      restore_control c.layout_id c.control_id (λ control. record control { hotkey = state });
}

abbrev pub update_layout_control_behavior : Impl Layouts
update_layout_control_behavior = record {
  Command = Target ControlBehavior;
  State = ControlBehavior;
  type_id = λ c. 0;
  apply = λ c.
      set_control c.layout_id c.control_id (λ control. control.behavior)
        (λ control. record control { behavior = c.value });
  revert = λ c state.
      restore_control c.layout_id c.control_id (λ control. record control { behavior = state });
}

abbrev pub update_layout_control_decorations : Impl Layouts
update_layout_control_decorations = record {
  Command = Target ControlDecorations;
  State = ControlDecorations;
  type_id = λ c. 0;
  apply = λ c.
      set_control c.layout_id c.control_id (λ control. control.decoration)
        (λ control. record control { decoration = c.value });
  revert = λ c state.
      restore_control c.layout_id c.control_id (λ control. record control { decoration = state });
}

-- The six commands in one executor
abbrev pub control_edits : Impl Layouts
control_edits = either move_layout_control (
    either resize_layout_control (
      either rename_layout_control (
        either bind_layout_control_hotkey
          (either update_layout_control_behavior update_layout_control_decorations))))
