-- ===== src/Fixtures/Priority.antt =====
-- `FixturePriority` and `LTPPriority` of crates/components/fixtures/src/priority.rs.
pub mod Order
use Prim.Native.Nat.{compare, Ordering}
use mizer.Prelude.{ℕ, Bool, true, false, Option, none, some, ◌==◌, if◌then◌else◌}

pub data LtpPriority : Type 0 where
  highest high normal low lowest : LtpPriority

pub data FixturePriority : Type 0 where
  highlight programmer htp : FixturePriority
  ltp : LtpPriority → FixturePriority

abbrev pub default : FixturePriority
default = ltp normal

-- The discriminants, by which the derived order compares.
abbrev level : LtpPriority → ℕ
level highest = 4
level high = 3
level normal = 2
level low = 1
level lowest = 0

abbrev discriminant : FixturePriority → ℕ
discriminant highlight = 11
discriminant programmer = 10
discriminant htp = 1
discriminant (ltp _) = 0

then_compare : Ordering → FixturePriority → FixturePriority → Ordering
then_compare Ordering.eq (ltp a) (ltp b) = compare (level a) (level b)
then_compare o _ _ = o

-- `derive(Ord)`: by the discriminants, then by the fields.
unfoldable pub cmp : FixturePriority → FixturePriority → Ordering
unfolding then_compare
cmp a b = then_compare (compare (discriminant a) (discriminant b)) a b

-- `impl Sequence`
unfoldable pub next : FixturePriority → Option FixturePriority
next highlight = none
next programmer = none
next htp = some (ltp highest)
next (ltp highest) = some (ltp high)
next (ltp high) = some (ltp normal)
next (ltp normal) = some (ltp low)
next (ltp low) = some (ltp lowest)
next (ltp lowest) = none

unfoldable pub previous : FixturePriority → Option FixturePriority
previous highlight = none
previous programmer = none
previous htp = none
previous (ltp highest) = some htp
previous (ltp high) = some (ltp highest)
previous (ltp normal) = some (ltp high)
previous (ltp low) = some (ltp normal)
previous (ltp lowest) = some (ltp low)

unfoldable pub first : Option FixturePriority
first = some htp

unfoldable pub last : Option FixturePriority
last = some (ltp lowest)

-- `LTPPriority::CARDINALITY` is 5.
unfoldable pub cardinality : ℕ
cardinality = 6

abbrev pub is_highlight : FixturePriority → Bool
is_highlight highlight = true
is_highlight _ = false

abbrev pub is_programmer : FixturePriority → Bool
is_programmer programmer = true
is_programmer _ = false

abbrev pub is_ltp : FixturePriority → Bool
is_ltp (ltp _) = true
is_ltp _ = false

abbrev pub is_htp : FixturePriority → Bool
is_htp htp = true
is_htp _ = false

-- `impl From<FixturePriority> for u8`
unfoldable pub to_u8 : FixturePriority → ℕ
to_u8 highlight = 11
to_u8 programmer = 10
to_u8 htp = 5
to_u8 (ltp highest) = 4
to_u8 (ltp high) = 3
to_u8 (ltp normal) = 2
to_u8 (ltp low) = 1
to_u8 (ltp lowest) = 0

-- `impl TryFrom<u8> for FixturePriority`; the error carries the number.
pub data TryResult : Type 0 where
  ok : FixturePriority → TryResult
  invalid : ℕ → TryResult

unfoldable pub try_from : ℕ → TryResult
try_from value =
    if value == 11
    then ok highlight
    else if value == 10
    then ok programmer
    else if value == 5
    then ok htp
    else if value == 4
    then ok (ltp highest)
    else if value == 3
    then ok (ltp high)
    else if value == 2
    then ok (ltp normal)
    else if value == 1
    then ok (ltp low)
    else if value == 0
    then ok (ltp lowest)
    else invalid value
