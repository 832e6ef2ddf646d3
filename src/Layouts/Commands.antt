-- ===== src/Layouts/Commands.antt =====
-- The commands of crates/runtime/layouts/commands/src on whole layouts: add_layout.rs,
-- remove_layout.rs, rename_layout.rs and duplicate_layout.rs. The texts that describe a command are
-- left out.
use Prim.Native.String.{String}
use mizer.Prelude.{Option, none, some, [], ◌∷◌, ◌++◌}
use mizer.Commander.Executor.{Result, ok, err}
use mizer.Commander.Impl.{Impl}
use mizer.Layouts.{Layout, Layouts}
use mizer.Layouts.Store.{
  unknown_layout, has_name, remove_first, drop_all, get_layout, update_layout,
}
use mizer.Layouts.Edits.{as_done}

abbrev pub add_layout : Impl Layouts
add_layout = record {
  Command = String;
  State = Unit {0};
  type_id = λ name. 0;
  apply = λ name layouts. (ok (tt, tt), layouts ++ record { id = name; controls = [] } ∷ []);
  revert = λ name state layouts. (ok tt, drop_all (has_name name) layouts);
}

take_out : Layouts → Option (Layout × Layouts) → Result (Unit {0} × Layout) × Layouts
take_out layouts (some (layout, layouts')) = (ok (tt, layout), layouts')
take_out layouts none = (err unknown_layout, layouts)

-- `iter().position(…).ok_or_else(…)?` and `remove`
unfoldable pub remove_named : String → Layouts → Result (Unit {0} × Layout) × Layouts
unfolding take_out remove_first
remove_named id layouts = take_out layouts (remove_first (has_name id) layouts)

without_layout : Result (Unit {0} × Layout) × Layouts → Result (Unit {0}) × Layouts
without_layout (ok (o, layout), layouts) = (ok o, layouts)
without_layout (err e, layouts) = (err e, layouts)

abbrev pub remove_layout : Impl Layouts
remove_layout = record {
  Command = String;
  State = Layout;
  type_id = λ id. 0;
  apply = remove_named;
  revert = λ id layout layouts. (ok tt, layouts ++ layout ∷ []);
}

pub record RenameLayout : Type 0 where
  pub id : String
  pub name : String

unfoldable pub rename_to : String → String → Layouts → Result (Unit {0} × Unit {0}) × Layouts
unfolding update_layout
rename_to id name layouts =
    update_layout id (λ layout. ok (record layout { id = name }, tt)) layouts

abbrev pub rename_layout : Impl Layouts
rename_layout = record {
  Command = RenameLayout;
  State = Unit {0};
  type_id = λ c. 0;
  apply = λ c layouts. rename_to c.id c.name layouts;
  revert = λ c state layouts. as_done (rename_to c.name c.id layouts);
}

pub record DuplicateLayout : Type 0 where
  pub id : String
  pub name : String

push_copy : String → Layouts → Result (Layouts × Layout) → Result (Unit {0} × String) × Layouts
push_copy name layouts (ok (layouts', layout)) =
    (ok (tt, name), layouts' ++ record layout { id = name } ∷ [])
push_copy name layouts (err e) = (err e, layouts)

-- The clone is made through the reference, and the layouts are pushed to after it.
unfoldable pub duplicate_to : String → String → Layouts → Result (Unit {0} × String) × Layouts
unfolding push_copy get_layout
duplicate_to id name layouts =
    push_copy name layouts (get_layout id (λ layout. ok (layout, layout)) layouts)

-- What `revert` does with the identifier that `apply` returned
unfoldable pub remove_copy : String → Layouts → Result (Unit {0}) × Layouts
unfolding remove_named without_layout
remove_copy id layouts = without_layout (remove_named id layouts)

abbrev pub duplicate_layout : Impl Layouts
duplicate_layout = record {
  Command = DuplicateLayout;
  State = String;
  type_id = λ c. 0;
  apply = λ c layouts. duplicate_to c.id c.name layouts;
  revert = λ c id layouts. remove_copy id layouts;
}
