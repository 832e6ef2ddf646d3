-- ===== src/Commander/Cursor/Timeline.antt =====
-- The cursor against its specification, a timeline of two lists: the commands that are done, oldest
-- first, and those that were undone, the next one to redo first.
use mizer.Prelude.{
  ℕ, zero, suc, ◌+◌, ◌-◌, ◌^◌, ◌<◌, ◌≡◌, refl, false, none, some, List, [], ◌∷◌, ◌++◌, arith,
  length, ◌==◌, if◌then◌else◌, length-append, get_elem?-append_length, take-length_append,
}
use mathlib.Core.List.{append_assoc, append-nil}
use mizer.Prelude.Int.{pos}
use mizer.Commander.Cursor.{
  OptionIndex, CommandCursor, sub_assign, add_assign, add, push, back, forward, index, back_from,
  is_past,
}

-- From this many entries on the `i32` arithmetic would overflow.
abbrev pub limit : ℕ
limit = 2 ^ 31 - 2

pub sub_assign_one :
    (n : ℕ) → n < 2 ^ 31 → sub_assign (some n) (pos 1) ≡ (if n == 0 then none else some (n - 1))
unfolding sub_assign
sub_assign_one n h = ground arith

pub add_assign_one : (n : ℕ) → n + 1 < 2 ^ 31 → add_assign (some n) (pos 1) ≡ some (n + 1)
unfolding add_assign
add_assign_one n h = ground arith

-- Where the cursor stands when n commands are done.
abbrev pub marker : ℕ → OptionIndex
marker zero = none
marker (suc n) = some n

marker_up : (n : ℕ) → n < limit → add_assign (marker n) (pos 1) ≡ marker (suc n)
marker_up zero h = unfold add_assign in refl
marker_up (suc n) h = ground (arith, add_assign_one n)

marker_down : (n : ℕ) → n < limit → sub_assign (some n) (pos 1) ≡ marker n
marker_down zero h = unfold sub_assign in refl
marker_down (suc n) h = ground (arith, sub_assign_one (suc n))

add-marker : (n : ℕ) → add (marker n) 1 ≡ n
unfolding add
add-marker zero = refl
add-marker (suc n) = omega arith

module _ {ℓ} {A : Type ℓ} where
  -- The cursor that represents a timeline.
  abbrev pub between : List A → List A → CommandCursor A
  between past future = record { commands = past ++ future; cursor = marker (length past) }

  pub length-snoc : (past : List A) (x : A) → length (past ++ x ∷ []) ≡ suc (length past)
  length-snoc past x = omega (arith, length-append past (x ∷ []))

  marker_not_past :
      (past future : List A) → is_past (marker (length past)) (length (past ++ future)) ≡ false
  marker_not_past [] future = refl
  marker_not_past (y ∷ past) future = ground (arith, length-append past future)

  -- A new command follows those that are done, and the undone ones are dropped.
  pub push-between :
      (past future : List A) (x : A)
      → length past < limit
      → push (between past future) x ≡ between (past ++ x ∷ []) []
  unfolding push
  push-between [] [] x h = refl
  push-between [] (y ∷ future) x h = unfold add add_assign in refl
  push-between (y ∷ past) future x h = rw (
    add-marker (suc (length past)),
    marker_up (suc (length past)) h,
    take-length_append past future,
    append-nil,
    length-snoc past x,
  )

  -- Undo takes the latest of the done commands to the front of the undone ones.
  pub back-between :
      (past future : List A) (x : A)
      → length past < limit
      → back (between (past ++ x ∷ []) future) ≡ (between past (x ∷ future), some x)
  unfolding back
  back-between past future x h =
      rw (length-snoc past x, back_from, marker_down (length past) h, append_assoc)
        (rw (get_elem?-append_length past future x))

  -- Redo takes it back again.
  pub forward-between :
      (past future : List A) (x : A)
      → length past < limit
      → forward (between past (x ∷ future)) ≡ (between (past ++ x ∷ []) future, some x)
  unfolding forward
  forward-between past future x h =
      rw (marker_not_past past (x ∷ future), marker_up (length past) h)
        (rw (get_elem?-append_length past future x, length-snoc past x, append_assoc))

  -- `CommandHistory::index` counts the commands that are done.
  pub index-between : (past future : List A) → index (between past future) ≡ length past
  unfolding index
  index-between [] future = refl
  index-between (y ∷ past) future = omega arith

  -- With nothing done, undo finds nothing and the history stays as it is.
  pub back-between_nil : (future : List A) → back (between [] future) ≡ (between [] future, none)
  unfolding back
  back-between_nil future = refl
