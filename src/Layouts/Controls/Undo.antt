-- ===== src/Layouts/Controls/Undo.antt =====
-- Undoing the commands that add and delete a control.
use Prim.Native.String.{String}
use mathlib.Core.List.{append-nil}
use mizer.Prelude.{◌≡◌, refl, ap, ◌∙◌, arith, true, Option, none, some, List, [], ◌∷◌, ◌++◌}
use mizer.Commander.Executor.{Error, Result, ok, err}
use mizer.Commander.Find.{at_first}
use mizer.Commander.Find.Laws.{All, NoneHas, at_first-append, at_first-at_first, at_first-split}
use mizer.Layouts.{ControlId, ControlConfig, Layout, Layouts, ControlSize}
use mizer.Layouts.Store.{
  has_name, has_id, remove_first, drop_all, commit, update_layout, get_layout, unknown_layout,
}
use mizer.Layouts.Store.Commit.{commit-ok, commit-err}
use mizer.Layouts.Store.Laws.{drop_all-append, drop_all_kept, remove_first-split}
use mizer.Layouts.Controls.{
  NodeType, AddLayoutControl, new_control, push_control, size_of, add_sized, with_state,
  add_control, retain_others, remove_control, DeleteLayoutControl, take_control, delete_control,
  put_control,
}

with_state-ok :
    {A : Type 0} (a a' : A) (ls' : Layouts) (r : Result (Unit {0} × Unit {0}) × Layouts)
    → with_state a r ≡ (ok (tt, a'), ls')
    → (a' ≡ a) × (r ≡ (ok (tt, tt), ls'))
unfolding with_state
with_state-ok a a' ls' (ok (o, s), ls) h = ground arith
with_state-ok a a' ls' (err e, ls) h = ground arith

added_of_add_sized :
    (c : AddLayoutControl) (ls ls' : Layouts) (id : ControlId) (sized : Option ControlSize)
    → add_sized c ls sized ≡ (ok (tt, id), ls')
    → (id ≡ c.control_id)
      × ((control : ControlConfig) × (control.id ≡ c.control_id)
          × (at_first (has_name c.layout_id) unknown_layout (push_control control) ls
              ≡ ok (ls', tt)))
unfolding add_sized update_layout get_layout
added_of_add_sized c ls ls' id none h = ground arith
added_of_add_sized c ls ls' id (some size) h =
    let (drawn, updated) = with_state-ok c.control_id id ls' _ h in
    (drawn, (new_control c size, refl, commit-ok ls ls' _ tt tt updated))

with_state-err :
    {A : Type 0} (a : A) (e : Error) (ls' : Layouts) (r : Result (Unit {0} × Unit {0}) × Layouts)
    → with_state a r ≡ (err e, ls')
    → r ≡ (err e, ls')
unfolding with_state
with_state-err a e ls' (ok (o, s), ls) h = ground arith
with_state-err a e ls' (err e', ls) h = ground arith

add_sized_atomic :
    (c : AddLayoutControl) (ls ls' : Layouts) (e : Error) (sized : Option ControlSize)
    → add_sized c ls sized ≡ (err e, ls')
    → ls' ≡ ls
unfolding add_sized
add_sized_atomic c ls ls' e none h = ground arith
add_sized_atomic c ls ls' e (some size) h =
    commit-err ls ls' _ e (with_state-err c.control_id e ls' _ h)

pub add_control_atomic :
    (get_node : String → Option NodeType) (c : AddLayoutControl) (ls ls' : Layouts) (e : Error)
    → add_control get_node c ls ≡ (err e, ls')
    → ls' ≡ ls
unfolding add_control
add_control_atomic get_node c ls ls' e h =
    add_sized_atomic c ls ls' e (size_of get_node c.control_type) h

retain-push :
    (id : ControlId) (control : ControlConfig) (l l' : Layout) (b : Unit {0})
    → control.id ≡ id
    → NoneHas (has_id id) l.controls
    → push_control control l ≡ ok (l', b)
    → (l'.id ≡ l.id) × (retain_others id l' ≡ ok (l, tt))
unfolding push_control retain_others
retain-push id control l l' b same fresh done =
    let dropped : drop_all (has_id id) (l.controls ++ control ∷ []) ≡ l.controls ++ [] =
      drop_all-append (has_id id) l.controls (control ∷ [])
      ∙ ap (λ (x : List ControlConfig). x ++ drop_all (has_id id) (control ∷ []))
          (drop_all_kept (has_id id) l.controls fresh)
      ∙ ap (l.controls ++◌) (unfold drop_all in ground (arith, same)) in
    let pushed : l' ≡ record l { controls = l.controls ++ control ∷ [] } = ground (arith, done) in
    rw pushed (
      refl,
      ap (λ (x : List ControlConfig). ok (record l { controls = x }, tt))
          (dropped ∙ append-nil l.controls),
    )

-- Undoing the addition of a control gives back the layouts from before it, where the identifier that
-- was drawn for the control is in none of them.
pub revert-add_layout_control :
    (get_node : String → Option NodeType) (c : AddLayoutControl) (ls ls' : Layouts) (id : ControlId)
    → All (λ l. NoneHas (has_id c.control_id) l.controls) ls
    → add_control get_node c ls ≡ (ok (tt, id), ls')
    → remove_control c.layout_id id ls' ≡ (ok tt, ls)
unfolding add_control remove_control get_layout
revert-add_layout_control get_node c ls ls' id fresh h =
    let (drawn, (control, same, added)) =
      added_of_add_sized c ls ls' id (size_of get_node c.control_type) h in
    let removed =
      at_first-at_first (has_name c.layout_id) (has_name c.layout_id) unknown_layout
        (λ (l : Layout). NoneHas (has_id c.control_id) l.controls) (push_control control)
        (λ (_ : Unit {0}). retain_others c.control_id) (λ l good missed. missed)
        (λ l l' b good found done.
          let (kept, back) = retain-push c.control_id control l l' b same good done in
          (rw kept found, back))
        ls ls' tt fresh added in
    rw (drawn, removed) (unfold commit in refl)

taken_of_take_control :
    (l l' : Layout) (control : ControlConfig) (taken : Option (ControlConfig × List ControlConfig))
    → take_control l taken ≡ ok (l', control)
    → (rest : List ControlConfig) × (taken ≡ some (control, rest))
      × (l' ≡ record l { controls = rest })
unfolding take_control
taken_of_take_control l l' control none h = ground arith
taken_of_take_control l l' control (some (control', rest)) h = (rest, ground arith, ground arith)

put_control_at :
    (layout_id : String) (control : ControlConfig) (before : Layouts) (l : Layout)
    (rest : List ControlConfig) (after ls : Layouts)
    → NoneHas (has_name layout_id) before
    → has_name layout_id l ≡ true
    → ls ≡ before ++ record l { controls = rest } ∷ after
    → put_control layout_id control ls
      ≡ (ok tt, before ++ record l { controls = rest ++ control ∷ [] } ∷ after)
unfolding put_control get_layout
put_control_at layout_id control before l rest after ls passed found e =
    rw
      (
        e,
        at_first-append (has_name layout_id) unknown_layout (push_control control) before
            (record l { controls = rest }) (record l { controls = rest ++ control ∷ [] }) tt after
            passed found (unfold push_control in refl),
      )
      (unfold commit in refl)

-- A deleted control comes back behind the other controls of its layout when the deletion is undone,
-- and nothing else is changed by both.
pub revert-delete_layout_control :
    (c : DeleteLayoutControl) (ls ls' : Layouts) (control : ControlConfig)
    → delete_control c ls ≡ (ok (tt, control), ls')
    → (before : Layouts) × (l : Layout) × (front : List ControlConfig) × (rear : List ControlConfig)
      × (after : Layouts) × (ls ≡ before ++ record l { controls = front ++ control ∷ rear } ∷ after)
      × (put_control c.layout_id control ls'
          ≡ (ok tt, before ++ record l { controls = (front ++ rear) ++ control ∷ [] } ∷ after))
unfolding delete_control put_control get_layout
revert-delete_layout_control c ls ls' control h =
    let take = λ (l : Layout). take_control l (remove_first (has_id c.control_id) l.controls) in
    let (before, l, l', after, whole, passed, found, done, left) =
      at_first-split (has_name c.layout_id) unknown_layout take ls ls' control
        (commit-ok ls ls' _ tt control h) in
    let (rest, taken, shape) = taken_of_take_control l l' control _ done in
    let (front, rear, controls, _, _, kept) =
      remove_first-split (has_id c.control_id) l.controls control rest taken in
    (
      before,
      l,
      front,
      rear,
      after,
      whole ∙ ap (λ (x : List ControlConfig). before ++ record l { controls = x } ∷ after) controls,
      put_control_at c.layout_id control before l rest after ls' passed found
            (left ∙ ap (λ (x : Layout). before ++ x ∷ after) shape)
          ∙ ap
              (λ (x : List ControlConfig).
                (ok tt, before ++ record l { controls = x ++ control ∷ [] } ∷ after))
              kept,
    )
