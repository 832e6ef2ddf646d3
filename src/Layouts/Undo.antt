-- ===== src/Layouts/Undo.antt =====
-- Undoing the commands on whole layouts.
use Prim.Native.String.{String}
use text.Mathlib.TextPositions.{eq_refl}
use text.Mathlib.TextEquality.{eq_iff}
use mathlib.Core.List.{append-nil}
use mizer.Prelude.{
  ◌≡◌, refl, ap, ◌∙◌, ◌≢◌, arith, true, false, some, [], ◌∷◌, ◌++◌, Option-cases, inl, inr,
}
use mizer.Commander.Executor.{Result, ok}
use mizer.Commander.Find.{at_first}
use mizer.Commander.Find.Laws.{NoneHas, Result-cases, at_first-at_first, at_first-look}
use mizer.Layouts.{Layout, Layouts}
use mizer.Layouts.Store.{
  has_name, remove_first, drop_all, unknown_layout, commit, update_layout, get_layout,
}
use mizer.Layouts.Store.Commit.{commit-ok}
use mizer.Layouts.Store.Laws.{
  drop_all-append, drop_all_kept, remove_first-append, remove_first-split,
}
use mizer.Layouts.Edits.{as_done}
use mizer.Layouts.Commands.{
  add_layout, remove_named, remove_layout, rename_to, duplicate_to, remove_copy,
}

abbrev named : String → Layout
named name = record { id = name; controls = [] }

drop_all-added :
    (name : String) (ls : Layouts)
    → drop_all (has_name name) (ls ++ named name ∷ []) ≡ drop_all (has_name name) ls ++ []
drop_all-added name ls =
    drop_all-append (has_name name) ls (named name ∷ [])
    ∙ ap (drop_all (has_name name) ls ++◌) (unfold drop_all in ground (arith, eq_refl name))

removed_of_remove_named :
    (id : String) (ls ls' : Layouts) (l : Layout)
    → remove_named id ls ≡ (ok (tt, l), ls')
    → remove_first (has_name id) ls ≡ some (l, ls')
unfolding remove_named
removed_of_remove_named id ls ls' l h = elim (Option-cases (remove_first (has_name id) ls)) [
  | inl missing ↦ absurd (ground (arith, missing))
  | inr ((m, ms), found) ↦ ground (arith, found)
]

abbrev renamed : String → Layout → Result (Layout × Unit {0})
renamed name l = ok (record l { id = name }, tt)

-- Undoing the addition of a layout leaves the layouts from before it that do not have its name: an
-- older layout of that name is lost.
pub revert-add_layout :
    (name : String) (ls : Layouts)
    → add_layout.revert name tt (add_layout.apply name ls).1 ≡ (ok tt, drop_all (has_name name) ls)
revert-add_layout name ls = ap (λ (x : Layouts). (ok tt, x)) (drop_all-added name ls ∙ append-nil _)

-- Where no layout had the name, that is all of them.
pub revert-add_layout_new :
    (name : String) (ls : Layouts)
    → NoneHas (has_name name) ls
    → add_layout.revert name tt (add_layout.apply name ls).1 ≡ (ok tt, ls)
revert-add_layout_new name ls fresh =
    revert-add_layout name ls
    ∙ ap (λ (x : Layouts). (ok tt, x)) (drop_all_kept (has_name name) ls fresh)

-- The removal of a layout takes out the first one with the name, and undoing it puts that one behind
-- all others, wherever it was.
pub revert-remove_layout :
    (id : String) (ls ls' : Layouts) (l : Layout)
    → remove_layout.apply id ls ≡ (ok (tt, l), ls')
    → (before : Layouts) × (after : Layouts) × (ls ≡ before ++ l ∷ after)
      × NoneHas (has_name id) before
      × (l.id ≡ id)
      × (remove_layout.revert id l ls' ≡ (ok tt, (before ++ after) ++ l ∷ []))
revert-remove_layout id ls ls' l h =
    let (before, after, shape, passed, holds, left) =
      remove_first-split (has_name id) ls l ls' (removed_of_remove_named id ls ls' l h) in
    (
      before,
      after,
      shape,
      passed,
      (eq_iff l.id id).0 holds,
      ap (λ (x : Layouts). (ok tt, x ++ l ∷ [])) left,
    )

-- Undoing a renaming of a layout gives back the layouts from before it, where no layout had the new
-- name.
pub revert-rename_layout :
    (id name : String) (ls ls' : Layouts)
    → NoneHas (has_name name) ls
    → rename_to id name ls ≡ (ok (tt, tt), ls')
    → as_done (rename_to name id ls') ≡ (ok tt, ls)
unfolding rename_to update_layout get_layout
revert-rename_layout id name ls ls' fresh h =
    rw
      (at_first-at_first (has_name id) (has_name name) unknown_layout
        (λ (l : Layout). has_name name l ≡ false) (renamed name) (λ (_ : Unit {0}). renamed id)
        (λ l good _. good)
        (λ l l' b good found done. ground (arith, eq_iff l.id id, eq_iff name name)) ls ls' tt fresh
        (commit-ok ls ls' (at_first (has_name id) unknown_layout (renamed name) ls) tt tt h))
      (unfold commit in refl)

-- Where a layout in front of the renamed one has the new name already, the undo renames that one and
-- leaves the renamed one with its new name.
pub revert-rename_layout_taken :
    (id name : String) (other : Layout) (ls ls' : Layouts)
    → other.id ≡ name
    → name ≢ id
    → rename_to id name ls ≡ (ok (tt, tt), ls')
    → (rename_to id name (other ∷ ls) ≡ (ok (tt, tt), other ∷ ls'))
      × (as_done (rename_to name id (other ∷ ls')) ≡ (ok tt, record other { id = id } ∷ ls'))
unfolding rename_to commit
revert-rename_layout_taken id name other ls ls' taken differ h =
    let missed : has_name id other ≡ false = ground (arith, eq_iff other.id id) in
    let found : has_name name other ≡ true = (eq_iff other.id name).1 taken in
    (
      rw
          (
            missed,
            commit-ok ls ls' (at_first (has_name id) unknown_layout (renamed name) ls) tt tt h,
          )
          refl,
      rw found refl,
    )

-- Undoing a duplication of a layout gives back the layouts from before it, where no layout had the
-- name of the copy.
pub revert-duplicate_layout :
    (id name s : String) (ls ls' : Layouts)
    → NoneHas (has_name name) ls
    → duplicate_to id name ls ≡ (ok (tt, s), ls')
    → remove_copy s ls' ≡ (ok tt, ls)
unfolding duplicate_to get_layout remove_copy
revert-duplicate_layout id name s ls ls' fresh h =
    elim (Result-cases (at_first (has_name id) unknown_layout (λ l. ok (l, l)) ls)) [
      | inl ((ms, m), found) ↦
          let same = at_first-look (has_name id) unknown_layout ls ms m found in
          let ends : ls' ≡ ls ++ record m { id = name } ∷ [] = ground (arith, found, same) in
          let called : s ≡ name = ground (arith, found) in
          rw
            (
              called,
              ends,
              remove_first-append (has_name name) ls (record m { id = name }) [] fresh
                  (eq_refl name),
            )
            (ap (λ (x : Layouts). (ok tt, x)) (append-nil ls))
      | inr (e, missing) ↦ absurd (ground (arith, missing))
    ]
