-- ===== src/Sequencer/Commands/Order.antt =====
-- `IndexSet` of the crate indexmap as sequencer.rs uses it for the order of the sequences.
use mizer.Prelude.{
  ℕ, ◌≡◌, refl, arith, Bool, false, ◌&&◌, ◌||◌, not, List, [], ◌∷◌, ◌++◌, ◌==◌, if◌then◌else◌,
}
use mizer.Sequencer.Commands.{has, index_insert, shift_remove, reorder}

has-append : (xs ys : List ℕ) (j : ℕ) → has j (xs ++ ys) ≡ (has j xs || has j ys)
unfolding has
has-append [] ys j = refl
has-append (x ∷ xs) ys j = ground (arith, has-append xs ys j)

has-index_insert : (id j : ℕ) (xs : List ℕ) → has j (index_insert id xs) ≡ (id == j || has j xs)
unfolding index_insert has
has-index_insert id j xs = ground (arith, has-append xs (id ∷ []) j)

pub has-shift_remove :
    (id j : ℕ) (xs : List ℕ) → has j (shift_remove id xs) ≡ (if id == j then false else has j xs)
unfolding shift_remove has
has-shift_remove id j [] = ground arith
has-shift_remove id j (x ∷ xs) = ground (arith, has-shift_remove id j xs)

pub has-reorder :
    (id j : ℕ) (was is : Bool) (xs : List ℕ)
    → has j (reorder id was is xs) ≡ (if id == j then is && (not was || has j xs) else has j xs)
unfolding reorder
has-reorder id j was is xs = ground (arith, has-index_insert id j xs, has-shift_remove id j xs)
