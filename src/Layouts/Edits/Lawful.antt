-- ===== src/Layouts/Edits/Lawful.antt =====
-- The commands that set one field of a control, against what undo needs of commands.
use Prim.Native.String.{String}
use mizer.Prelude.{some, ◌≡◌, refl, arith, true, false, List}
use mizer.Commander.Executor.{Result, ok, err, IsLawful}
use mizer.Commander.Impl.{trait_of}
use mizer.Commander.Impl.Lawful.{either-IsLawful}
use mizer.Commander.Find.{at_first}
use mizer.Commander.Find.Laws.{All-unit, at_first-at_first}
use mizer.Layouts.{ControlId, ControlConfig, Layout, Layouts}
use mizer.Layouts.Store.{
  commit, get_layout, get_control, with_controls, has_id, has_name, unknown_layout, unknown_control,
}
use mizer.Layouts.Store.Commit.{commit-ok, commit-err}
use mizer.Layouts.Edits.{
  set_control, restore_control, control_edits, move_layout_control, resize_layout_control,
  rename_layout_control, bind_layout_control_hotkey, update_layout_control_behavior,
  update_layout_control_decorations,
}

with_controls-ok :
    {B : Type 0} (l l' : Layout) (r : Result (List ControlConfig × B)) (b : B)
    → with_controls l r ≡ ok (l', b)
    → (cs : List ControlConfig) × (r ≡ ok (cs, b)) × (l' ≡ record l { controls = cs })
unfolding with_controls
with_controls-ok l l' (ok (cs, b')) b h = (cs, ground arith, ground arith)
with_controls-ok l l' (err e) b h = ground arith

module _ {A : Type 0} (layout_id : String) (control_id : ControlId) (previous : ControlConfig → A)
    (put : ControlConfig → ControlConfig) (put_back : A → ControlConfig → ControlConfig) where
  abbrev setting : ControlConfig → Result (ControlConfig × A)
  setting c = ok (put c, previous c)

  abbrev restoring : A → ControlConfig → Result (ControlConfig × Unit {0})
  restoring a c = ok (put_back a c, tt)

  module _ (keeps : (c : ControlConfig) → (put c).id ≡ c.id)
      (undoes : (c : ControlConfig) → put_back (previous c) (put c) ≡ c) where
    control_back :
        (x y : ControlConfig) (a : A)
        → has_id control_id x ≡ true
        → setting x ≡ ok (y, a)
        → (has_id control_id y ≡ true) × (restoring a y ≡ ok (x, tt))
    control_back x y a h e = ground (arith, keeps x, undoes x)

    layout_back :
        (l l' : Layout) (a : A)
        → has_name layout_id l ≡ true
        → with_controls l (at_first (has_id control_id) unknown_control setting l.controls)
          ≡ ok (l', a)
        → (has_name layout_id l' ≡ true)
          × (with_controls l'
                (at_first (has_id control_id) unknown_control (restoring a) l'.controls)
              ≡ ok (l, tt))
    layout_back l l' a h e =
        let (cs, done, shape) = with_controls-ok l l' _ a e in
        let undone =
          at_first-at_first (has_id control_id) (has_id control_id) unknown_control
            (λ (_ : ControlConfig). Unit {0}) setting restoring
            (λ (x : ControlConfig) (_ : Unit {0}) (h : has_id control_id x ≡ false). h)
            (λ (x y : ControlConfig) (b : A) (_ : Unit {0}) (h : has_id control_id x ≡ true)
                (e : setting x ≡ ok (y, b)).
              control_back x y b h e)
            l.controls cs a (All-unit l.controls) done in
        rw shape (h, rw undone (unfold with_controls in refl))

    restore_control-set_control :
        (ls ls' : Layouts) (o : Unit {0}) (a : A)
        → set_control layout_id control_id previous put ls ≡ (ok (o, a), ls')
        → restore_control layout_id control_id (put_back a) ls' ≡ (ok tt, ls)
    unfolding get_control get_layout
    restore_control-set_control ls ls' o a h =
        let changed = commit-ok ls ls' (get_control layout_id control_id setting ls) o a h in
        let undone =
          at_first-at_first (has_name layout_id) (has_name layout_id) unknown_layout
            (λ (_ : Layout). Unit {0})
            (λ (l : Layout).
              with_controls l (at_first (has_id control_id) unknown_control setting l.controls))
            (λ (b : A) (l : Layout).
              with_controls l
                (at_first (has_id control_id) unknown_control (restoring b) l.controls))
            (λ (l : Layout) (_ : Unit {0}) (h : has_name layout_id l ≡ false). h)
            (λ l l' b _ h e. layout_back l l' b h e) ls ls' a (All-unit ls) changed in
        rw undone (unfold commit in refl)

move_layout_control-IsLawful : IsLawful (trait_of move_layout_control)
move_layout_control-IsLawful = record {
  revert-apply = λ c ls ls' o a h.
      restore_control-set_control c.layout_id c.control_id (λ control. control.position)
        (λ control. record control { position = c.value })
        (λ b control. record control { position = b }) (λ control. refl) (λ control. refl) ls ls' o
        a h;
  apply_atomic = λ c ls ls' e h. commit-err ls ls' _ e h;
}

resize_layout_control-IsLawful : IsLawful (trait_of resize_layout_control)
resize_layout_control-IsLawful = record {
  revert-apply = λ c ls ls' o a h.
      restore_control-set_control c.layout_id c.control_id (λ control. control.size)
        (λ control. record control { size = c.value }) (λ b control. record control { size = b })
        (λ control. refl) (λ control. refl) ls ls' o a h;
  apply_atomic = λ c ls ls' e h. commit-err ls ls' _ e h;
}

rename_layout_control-IsLawful : IsLawful (trait_of rename_layout_control)
rename_layout_control-IsLawful = record {
  revert-apply = λ c ls ls' o a h.
      restore_control-set_control c.layout_id c.control_id (λ control. control.label)
        (λ control. record control { label = some c.value })
        (λ b control. record control { label = b }) (λ control. refl) (λ control. refl) ls ls' o a
        h;
  apply_atomic = λ c ls ls' e h. commit-err ls ls' _ e h;
}

bind_layout_control_hotkey-IsLawful : IsLawful (trait_of bind_layout_control_hotkey)
bind_layout_control_hotkey-IsLawful = record {
  revert-apply = λ c ls ls' o a h.
      restore_control-set_control c.layout_id c.control_id (λ control. control.hotkey)
        (λ control. record control { hotkey = c.value })
        (λ b control. record control { hotkey = b }) (λ control. refl) (λ control. refl) ls ls' o a
        h;
  apply_atomic = λ c ls ls' e h. commit-err ls ls' _ e h;
}

update_layout_control_behavior-IsLawful : IsLawful (trait_of update_layout_control_behavior)
update_layout_control_behavior-IsLawful = record {
  revert-apply = λ c ls ls' o a h.
      restore_control-set_control c.layout_id c.control_id (λ control. control.behavior)
        (λ control. record control { behavior = c.value })
        (λ b control. record control { behavior = b }) (λ control. refl) (λ control. refl) ls ls' o
        a h;
  apply_atomic = λ c ls ls' e h. commit-err ls ls' _ e h;
}

update_layout_control_decorations-IsLawful : IsLawful (trait_of update_layout_control_decorations)
update_layout_control_decorations-IsLawful = record {
  revert-apply = λ c ls ls' o a h.
      restore_control-set_control c.layout_id c.control_id (λ control. control.decoration)
        (λ control. record control { decoration = c.value })
        (λ b control. record control { decoration = b }) (λ control. refl) (λ control. refl) ls ls'
        o a h;
  apply_atomic = λ c ls ls' e h. commit-err ls ls' _ e h;
}

-- Undo takes back every command that sets a field of a control: reverting it after it succeeded gives
-- back the layouts from before it, whatever they are, and a command that fails has changed nothing.
pub control_edits-IsLawful : IsLawful (trait_of control_edits)
control_edits-IsLawful = either-IsLawful _ _ move_layout_control-IsLawful (
    either-IsLawful _ _ resize_layout_control-IsLawful (
      either-IsLawful _ _ rename_layout_control-IsLawful (
        either-IsLawful _ _ bind_layout_control_hotkey-IsLawful (
          either-IsLawful _ _ update_layout_control_behavior-IsLawful
            update_layout_control_decorations-IsLawful))))
