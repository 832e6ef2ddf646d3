-- ===== src/Layouts/Store.antt =====
-- The helpers of crates/runtime/layouts/commands/src/lib.rs: the first layout with an identifier, and
-- its first control with one, which a command changes in a copy of the layouts; the copy is stored
-- only if nothing failed. Beside them `Iterator::position` with `Vec::remove`, and `Vec::retain`.
pub mod Laws
pub mod Commit
use Prim.Native.String.{String}
use text.Mathlib.Text.{◌==◌ as str_eq}
use mizer.Prelude.{ℕ, Bool, not, Option, none, some, List, [], ◌∷◌, ◌==◌, if◌then◌else◌}
use mizer.Commander.Executor.{Error, Result, ok, err, failed}
use mizer.Commander.Find.{at_first}
use mizer.Layouts.{ControlId, ControlConfig, Layout, Layouts}

abbrev pub unknown_layout : Error
unknown_layout = failed 1

abbrev pub unknown_control : Error
unknown_control = failed 2

abbrev pub unknown_node : Error
unknown_node = failed 3

abbrev pub has_name : String → Layout → Bool
has_name name layout = str_eq layout.id name

abbrev pub has_id : ControlId → ControlConfig → Bool
has_id id control = control.id == id

module _ {A : Type 0} where
  removed_behind : A → Option (A × List A) → Option (A × List A)
  removed_behind x (some (y, ys)) = some (y, x ∷ ys)
  removed_behind x none = none

  -- `iter().position(…)`, and `remove` at that place
  unfoldable pub remove_first : (A → Bool) → List A → Option (A × List A)
  unfolding removed_behind
  remove_first p [] = none
  remove_first p (x ∷ xs) =
      let rest = removed_behind x (remove_first p xs) in if p x then some (x, xs) else rest

  -- `Vec::retain` of what the test does not hold of
  unfoldable pub drop_all : (A → Bool) → List A → List A
  drop_all p [] = []
  drop_all p (x ∷ xs) = let rest = drop_all p xs in if p x then rest else x ∷ rest

module _ {B : Type 0} where
  -- `layout_storage.set(layouts)`, which an early return passes by
  unfoldable pub commit : Layouts → Result (Layouts × B) → Result (Unit {0} × B) × Layouts
  commit layouts (ok (layouts', b)) = (ok (tt, b), layouts')
  commit layouts (err e) = (err e, layouts)

  unfoldable pub get_layout :
      String → (Layout → Result (Layout × B)) → Layouts → Result (Layouts × B)
  unfolding at_first
  get_layout layout_id update layouts = at_first (has_name layout_id) unknown_layout update layouts

  unfoldable pub update_layout :
      String → (Layout → Result (Layout × B)) → Layouts → Result (Unit {0} × B) × Layouts
  unfolding commit get_layout
  update_layout layout_id update layouts = commit layouts (get_layout layout_id update layouts)

  unfoldable pub with_controls : Layout → Result (List ControlConfig × B) → Result (Layout × B)
  with_controls layout (ok (controls, b)) = ok (record layout { controls = controls }, b)
  with_controls layout (err e) = err e

  unfoldable pub get_control :
      String
      → ControlId
      → (ControlConfig → Result (ControlConfig × B))
      → Layouts
      → Result (Layouts × B)
  unfolding get_layout with_controls at_first
  get_control layout_id control_id update layouts =
      get_layout layout_id
        (λ layout.
          with_controls layout
            (at_first (has_id control_id) unknown_control update layout.controls))
        layouts
