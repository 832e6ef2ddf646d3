-- ===== src/Layouts.antt =====
-- The layouts of crates/runtime/layouts/src/lib.rs. An identifier of a node, a group or an image is
-- only stored, and a `Uuid` is a number.
pub mod Store
pub mod Commands
pub mod Controls
pub mod Edits
pub mod Undo
pub mod Atomic
use Prim.Native.String.{String}
use mizer.Prelude.{ℕ, Option, List}

abbrev pub ControlId : Type 0
ControlId = ℕ

-- `PresetId` of crates/components/fixtures/src/programmer/presets.rs
pub data PresetId : Type 0 where
  intensity shutter color position : ℕ → PresetId

pub data ControlType : Type 0 where
  node : String → ControlType
  sequencer : ℕ → ControlType
  group : ℕ → ControlType
  preset : PresetId → ControlType

pub record ControlPosition : Type 0 where
  pub x : ℕ
  pub y : ℕ

pub record ControlSize : Type 0 where
  pub width : ℕ
  pub height : ℕ

abbrev pub default_size : ControlSize
default_size = record { width = 1; height = 1 }

-- The channels of a `Color`, of crates/runtime/pipeline/ports/src/api.rs, are kept by their bits.
pub record Color : Type 0 where
  pub red : ℕ
  pub green : ℕ
  pub blue : ℕ
  pub alpha : ℕ

pub record ControlDecorations : Type 0 where
  pub color : Option Color
  pub image : Option String

pub data SequencerControlClickBehavior : Type 0 where
  go_forward toggle : SequencerControlClickBehavior

pub record SequencerControlBehavior : Type 0 where
  pub click_behavior : SequencerControlClickBehavior

pub record ControlBehavior : Type 0 where
  pub sequencer : SequencerControlBehavior

pub record ControlConfig : Type 0 where
  pub id : ControlId
  pub label : Option String
  pub control_type : ControlType
  pub position : ControlPosition
  pub size : ControlSize
  pub decoration : ControlDecorations
  pub behavior : ControlBehavior
  pub hotkey : Option String

pub record Layout : Type 0 where
  pub id : String
  pub controls : List ControlConfig

-- What the `LayoutStorage` holds
abbrev pub Layouts : Type 0
Layouts = List Layout
