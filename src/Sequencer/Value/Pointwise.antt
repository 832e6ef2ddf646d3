-- ===== src/Sequencer/Value/Pointwise.antt =====
-- The operators of value.rs on the two ends of a range, of which a direct value is the constant one.
use mizer.Prelude.{◌≡◌, refl}
use mizer.Sequencer.Value.{SequencerValue, direct, range, Arith, mul, sub, sub_by, add, div, neg}

abbrev pub from : {T : Type 0} → SequencerValue T → T
from (direct value) = value
from (range a b) = a

abbrev pub to : {T : Type 0} → SequencerValue T → T
to (direct value) = value
to (range a b) = b

-- Sums, products and quotients are taken at each end, where addition is commutative.
pub ends-pointwise :
    {T : Type 0} (a : Arith T) (v w : SequencerValue T)
    → ((x y : T) → a.add x y ≡ a.add y x)
    → ((from (add a v w) ≡ a.add (from v) (from w)) × (to (add a v w) ≡ a.add (to v) (to w)))
      × ((from (mul a v w) ≡ a.mul (from v) (from w)) × (to (mul a v w) ≡ a.mul (to v) (to w)))
      × ((from (div a v w) ≡ a.div (from v) (from w)) × (to (div a v w) ≡ a.div (to v) (to w)))
unfolding add mul div
ends-pointwise a (direct x) (direct y) comm = ((refl, refl), (refl, refl), (refl, refl))
ends-pointwise a (direct x) (range c d) comm = ((refl, refl), (refl, refl), (refl, refl))
ends-pointwise a (range c d) (direct x) comm = ((comm x c, comm x d), (refl, refl), (refl, refl))
ends-pointwise a (range c d) (range e f) comm = ((refl, refl), (refl, refl), (refl, refl))

-- Two values that are both direct, or of which the second is a range, are subtracted at each end. A
-- direct value that is taken from a range gives the negative of what the plain number gives.
pub sub-direct_negated :
    {T : Type 0} (a : Arith T) (v : SequencerValue T) (c d x y : T)
    → ((p q : T) → a.neg (a.sub p q) ≡ a.sub q p)
    → (sub a (range c d) (direct x) ≡ neg a (sub_by a (range c d) x))
      × ((from (sub a v (range x y)) ≡ a.sub (from v) x)
          × (to (sub a v (range x y)) ≡ a.sub (to v) y))
unfolding sub sub_by neg
sub-direct_negated a (direct z) c d x y h = (rw (h c x, h d x), (refl, refl))
sub-direct_negated a (range z w) c d x y h = (rw (h c x, h d x), (refl, refl))
