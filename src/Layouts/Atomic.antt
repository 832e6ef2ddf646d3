-- ===== src/Layouts/Atomic.antt =====
-- The commands on layouts and controls when they fail.
use Prim.Native.String.{String}
use mizer.Prelude.{◌≡◌, arith, Option, Option-cases, inl, inr}
use mizer.Commander.Executor.{Error, ok, err}
use mizer.Commander.Find.Laws.{Result-cases}
use mizer.Layouts.{Layouts}
use mizer.Layouts.Store.{has_name, remove_first, get_layout}
use mizer.Layouts.Store.Commit.{commit-err}
use mizer.Commander.Impl.{Impl, either}
use mizer.Commander.Impl.Lawful.{IsAtomic, either-IsAtomic}
use mizer.Layouts.Edits.{control_edits}
use mizer.Layouts.Edits.Lawful.{control_edits-IsLawful}
use mizer.Layouts.Commands.{
  add_layout, remove_layout, rename_layout, duplicate_layout, remove_named, rename_to, duplicate_to,
}
use mizer.Layouts.Controls.Undo.{add_control_atomic}
use mizer.Layouts.Controls.{
  add_layout_control, delete_layout_control, NodeType, DeleteLayoutControl, delete_control,
}

remove_named_atomic :
    (id : String) (ls ls' : Layouts) (e : Error) → remove_named id ls ≡ (err e, ls') → ls' ≡ ls
unfolding remove_named
remove_named_atomic id ls ls' e h = elim (Option-cases (remove_first (has_name id) ls)) [
  | inl missing ↦ ground (arith, missing)
  | inr (found, taken) ↦ absurd (ground (arith, taken))
]

rename_to_atomic :
    (id name : String) (ls ls' : Layouts) (e : Error)
    → rename_to id name ls ≡ (err e, ls')
    → ls' ≡ ls
unfolding rename_to
rename_to_atomic id name ls ls' e h = commit-err ls ls' _ e h

duplicate_to_atomic :
    (id name : String) (ls ls' : Layouts) (e : Error)
    → duplicate_to id name ls ≡ (err e, ls')
    → ls' ≡ ls
unfolding duplicate_to
duplicate_to_atomic id name ls ls' e h = elim (Result-cases (get_layout id (λ l. ok (l, l)) ls)) [
  | inl (copy, found) ↦ absurd (ground (arith, found))
  | inr (e', missing) ↦ ground (arith, missing)
]

delete_control_atomic :
    (c : DeleteLayoutControl) (ls ls' : Layouts) (e : Error)
    → delete_control c ls ≡ (err e, ls')
    → ls' ≡ ls
unfolding delete_control
delete_control_atomic c ls ls' e h = commit-err ls ls' _ e h

-- The commands that delete and add layouts and controls, and all others, in one executor
abbrev pub layout_commands : (String → Option NodeType) → Impl Layouts
layout_commands get_node = either control_edits (
    either add_layout (
      either remove_layout (
        either rename_layout
          (either duplicate_layout (either (add_layout_control get_node) delete_layout_control)))))

-- Whichever of the commands on layouts fails, the layouts are as they were.
pub layout_commands-IsAtomic :
    (get_node : String → Option NodeType) → IsAtomic (layout_commands get_node)
layout_commands-IsAtomic get_node = either-IsAtomic _ _ control_edits-IsLawful.apply_atomic (
    either-IsAtomic _ _ (λ c ls ls' e h. ground arith)
      (either-IsAtomic _ _ remove_named_atomic (
        either-IsAtomic _ _ (λ c. rename_to_atomic c.id c.name)
          (either-IsAtomic _ _ (λ c. duplicate_to_atomic c.id c.name)
            (either-IsAtomic _ _ (add_control_atomic get_node) delete_control_atomic)))))
