-- ===== src/Sequencer/Value.antt =====
-- `SequencerValue` of crates/components/sequencer/src/value.rs, over any type with the operators.
pub mod Pointwise
use mizer.Prelude.{ℕ, ◌≡◌, Bool, if◌then◌else◌}

pub data SequencerValue (T : Type 0) : Type 0 where
  direct : T → SequencerValue T
  range : T → T → SequencerValue T

-- The traits `Add`, `Sub`, `Mul`, `Div`, `Rem`, `Neg` and `PartialOrd` of the standard library.
pub record Arith (T : Type 0) : Type 0 where
  pub add : T → T → T
  pub sub : T → T → T
  pub mul : T → T → T
  pub div : T → T → T
  pub rem : T → T → T
  pub neg : T → T
  pub gt : T → T → Bool

module _ {T : Type 0} (a : Arith T) where
  unfoldable pub highest : SequencerValue T → T
  highest (direct value) = value
  highest (range lhs rhs) = if a.gt lhs rhs then lhs else rhs

  unfoldable pub mul : SequencerValue T → SequencerValue T → SequencerValue T
  mul (direct lhs) (direct rhs) = direct (a.mul lhs rhs)
  mul (range from to) (direct rhs) = range (a.mul from rhs) (a.mul to rhs)
  mul (direct lhs) (range from to) = range (a.mul lhs from) (a.mul lhs to)
  mul (range from to) (range from' to') = range (a.mul from from') (a.mul to to')

  -- `impl Mul<T>`
  unfoldable pub mul_by : SequencerValue T → T → SequencerValue T
  mul_by (direct lhs) rhs = direct (a.mul lhs rhs)
  mul_by (range from to) rhs = range (a.mul from rhs) (a.mul to rhs)

  unfoldable pub sub : SequencerValue T → SequencerValue T → SequencerValue T
  sub (direct lhs) (direct rhs) = direct (a.sub lhs rhs)
  sub (direct lhs) (range from to) = range (a.sub lhs from) (a.sub lhs to)
  sub (range from to) (direct rhs) = range (a.sub rhs from) (a.sub rhs to)
  sub (range from to) (range from' to') = range (a.sub from from') (a.sub to to')

  -- `impl Sub<T>`
  unfoldable pub sub_by : SequencerValue T → T → SequencerValue T
  sub_by (direct lhs) rhs = direct (a.sub lhs rhs)
  sub_by (range from to) rhs = range (a.sub from rhs) (a.sub to rhs)

  -- `impl Sub<SequencerValue<f64>> for f64`
  unfoldable pub sub_from : T → SequencerValue T → SequencerValue T
  sub_from lhs (direct rhs) = direct (a.sub lhs rhs)
  sub_from lhs (range from to) = range (a.sub lhs from) (a.sub lhs to)

  unfoldable pub add : SequencerValue T → SequencerValue T → SequencerValue T
  add (direct lhs) (direct rhs) = direct (a.add lhs rhs)
  add (direct lhs) (range from to) = range (a.add lhs from) (a.add lhs to)
  add (range from to) (direct rhs) = range (a.add rhs from) (a.add rhs to)
  add (range from to) (range from' to') = range (a.add from from') (a.add to to')

  unfoldable pub div : SequencerValue T → SequencerValue T → SequencerValue T
  div (direct lhs) (direct rhs) = direct (a.div lhs rhs)
  div (direct lhs) (range from to) = range (a.div lhs from) (a.div lhs to)
  div (range from to) (direct rhs) = range (a.div from rhs) (a.div to rhs)
  div (range from to) (range from' to') = range (a.div from from') (a.div to to')

  -- `impl Div<T>`
  unfoldable pub div_by : SequencerValue T → T → SequencerValue T
  div_by (direct lhs) rhs = direct (a.div lhs rhs)
  div_by (range from to) rhs = range (a.div from rhs) (a.div to rhs)

  unfoldable pub rem : SequencerValue T → SequencerValue T → SequencerValue T
  rem (direct lhs) (direct rhs) = direct (a.rem lhs rhs)
  rem (direct lhs) (range from to) = range (a.rem lhs from) (a.rem lhs to)
  rem (range from to) (direct rhs) = range (a.rem rhs from) (a.rem rhs to)
  rem (range from to) (range from' to') = range (a.rem from from') (a.rem to to')

  -- `impl Rem<T>`
  unfoldable pub rem_by : SequencerValue T → T → SequencerValue T
  rem_by (direct lhs) rhs = direct (a.rem lhs rhs)
  rem_by (range from to) rhs = range (a.rem from rhs) (a.rem to rhs)

  unfoldable pub neg : SequencerValue T → SequencerValue T
  neg (direct lhs) = direct (a.neg lhs)
  neg (range from to) = range (a.neg from) (a.neg to)
