-- ===== src/Fixtures/Priority/Order.antt =====
-- The order of priorities, their numbers, and their enumeration.
use Prim.Native.Nat.{compare}
use mizer.Prelude.{ℕ, ◌≡◌, refl, ◌↔◌, some, arith, ◌<◌, ◌≢◌}
use mizer.Fixtures.Priority.{
  FixturePriority, highlight, programmer, htp, ltp, highest, high, normal, low, lowest, cmp, next,
  previous, to_u8, ok, invalid, try_from,
}

-- The derived order is the order of the numbers that the conversion to `u8` gives, although the
-- discriminants are others.
pub cmp-eq-compare : (a b : FixturePriority) → cmp a b ≡ compare (to_u8 a) (to_u8 b)
unfolding cmp to_u8
cmp-eq-compare highlight highlight = refl
cmp-eq-compare (ltp highest) b = ground arith
cmp-eq-compare a b = ground arith

try_from-to_u8 : (p : FixturePriority) → try_from (to_u8 p) ≡ ok p
unfolding try_from to_u8
try_from-to_u8 highlight = refl
try_from-to_u8 p = ground arith

to_u8_of_try_from : (n : ℕ) (p : FixturePriority) → try_from n ≡ ok p → to_u8 p ≡ n
unfolding try_from to_u8
to_u8_of_try_from n p h = ground arith

try_from_of_to_u8 : (n : ℕ) (p : FixturePriority) → to_u8 p ≡ n → try_from n ≡ ok p
try_from_of_to_u8 n p h = rw (← h) (try_from-to_u8 p)

number_of_invalid : (n m : ℕ) → try_from n ≡ invalid m → m ≡ n
unfolding try_from
number_of_invalid n m h = ground arith

invalid_of_none : (n : ℕ) → ((p : FixturePriority) → to_u8 p ≢ n) → try_from n ≡ invalid n
unfolding try_from to_u8
invalid_of_none n h = ground (
  arith,
  h highlight,
  h programmer,
  h htp,
  h (ltp highest),
  h (ltp high),
  h (ltp normal),
  h (ltp low),
  h (ltp lowest),
)

-- The conversions are inverse to each other: a number is accepted exactly if it is the number of a
-- priority, and then it is read as that priority; any other number is given back in the error.
pub try_from_iff :
    (n : ℕ)
    → ((p : FixturePriority) → (try_from n ≡ ok p) ↔ (to_u8 p ≡ n))
      × ((m : ℕ) → (try_from n ≡ invalid m) ↔ ((m ≡ n) × ((p : FixturePriority) → to_u8 p ≢ n)))
try_from_iff n = (
  λ p. (to_u8_of_try_from n p, try_from_of_to_u8 n p),
  λ m. (
    λ h. (number_of_invalid n m h, λ p e. cc (h, try_from_of_to_u8 n p e)),
    λ h. rw h.0 (invalid_of_none n h.1),
  ),
)

-- A step forward is undone by a step back and the other way round, and leads to the next lower
-- priority.
pub next_iff :
    (p q : FixturePriority)
    → ((next p ≡ some q) ↔ (previous q ≡ some p)) × (next p ≡ some q → to_u8 q < to_u8 p)
unfolding next previous to_u8
next_iff highlight q = ground arith
next_iff p q = ground arith
