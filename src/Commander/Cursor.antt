-- ===== src/Commander/Cursor.antt =====
-- `CommandCursor` and `OptionIndex` of crates/runtime/commander/executor/src/history.rs, over any
-- type of entries. `&mut self` methods return the new cursor beside their result. A `usize` is
-- a ℕ, and the `i32` arithmetic of `OptionIndex` wraps.
pub mod Timeline
pub mod Overshoot
use mizer.Prelude.{
  ℕ, ◌+◌, ◌-◌, Bool, true, false, Option, none, some, List, [], ◌∷◌, ◌++◌, length, get_elem?, take,
  ltb, if◌then◌else◌,
}
use mizer.Prelude.Int.{ℤ, pos, i32, usize, ◌+ℤ◌, ◌-ℤ◌, is_negative, is_positive}

-- The newtype `OptionIndex`.
abbrev pub OptionIndex : Type 0
OptionIndex = Option ℕ

-- `impl SubAssign<i32>`
unfoldable pub sub_assign : OptionIndex → ℤ → OptionIndex
unfolding i32 usize
sub_assign none rhs = none
sub_assign (some index) rhs =
    let difference = i32 (i32 (pos index) -ℤ rhs) in
    if is_negative difference then none else some (usize difference)

-- `impl AddAssign<i32>`
unfoldable pub add_assign : OptionIndex → ℤ → OptionIndex
unfolding i32 usize
add_assign none rhs = if is_positive rhs then some (usize rhs - 1) else none
add_assign (some index) rhs =
    let total = i32 (i32 (pos index) +ℤ rhs) in
    if is_negative total then none else some (usize total)

-- `impl Add<usize>`; the only caller adds 1, so that `rhs - 1` does not underflow.
unfoldable pub add : OptionIndex → ℕ → ℕ
add none rhs = rhs - 1
add (some index) rhs = index + rhs

-- The early return of `forward`.
abbrev is_past : OptionIndex → ℕ → Bool
is_past none n = false
is_past (some index) n = ltb n index

abbrev index_of : OptionIndex → ℕ
index_of none = 0
index_of (some pointer) = pointer + 1

pub record CommandCursor {ℓ} (A : Type ℓ) : Type ℓ where
  pub commands : List A
  pub cursor : OptionIndex

module _ {ℓ} {A : Type ℓ} where
  abbrev pub new : CommandCursor A
  new = record { commands = []; cursor = none }

  abbrev pub is_empty : List A → Bool
  is_empty [] = true
  is_empty (_ ∷ _) = false

  unfoldable pub push : CommandCursor A → A → CommandCursor A
  unfolding add add_assign
  push c command =
      if is_empty c.commands
      then record { commands = c.commands ++ command ∷ []; cursor = some 0 }
      else record {
        commands = take (add c.cursor 1) c.commands ++ command ∷ [];
        cursor = add_assign c.cursor (pos 1);
      }

  abbrev at : List A → OptionIndex → Option A
  at xs none = none
  at xs (some index) = get_elem? xs index

  unfoldable pub get : CommandCursor A → Option A
  get c = at c.commands c.cursor

  back_from : OptionIndex → CommandCursor A → CommandCursor A × Option A
  back_from none c = (c, none)
  back_from (some index) c =
      (record c { cursor = sub_assign c.cursor (pos 1) }, get_elem? c.commands index)

  unfoldable pub back : CommandCursor A → CommandCursor A × Option A
  unfolding back_from sub_assign
  back c = back_from c.cursor c

  unfoldable pub forward : CommandCursor A → CommandCursor A × Option A
  unfolding get add_assign
  forward c =
      if is_past c.cursor (length c.commands)
      then (c, none)
      else let c' = record c { cursor = add_assign c.cursor (pos 1) } in (c', get c')

  -- `CommandHistory::index`
  unfoldable pub index : CommandCursor A → ℕ
  index c = index_of c.cursor
