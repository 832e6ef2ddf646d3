-- ===== src/Commander/Find.antt =====
-- The searches of the standard library that commands make in a list, each with what is done through
-- the reference that it finds, or the error that is returned where it finds none.
pub mod Laws
use mizer.Prelude.{ℕ, zero, suc, Bool, List, [], ◌∷◌, if◌then◌else◌}
use mizer.Commander.Executor.{Error, Result, ok, err}

module _ {A B : Type 0} where
  in_place : List A → Result (A × B) → Result (List A × B)
  in_place xs (ok (x, b)) = ok (x ∷ xs, b)
  in_place xs (err e) = err e

  behind : A → Result (List A × B) → Result (List A × B)
  behind x (ok (xs, b)) = ok (x ∷ xs, b)
  behind x (err e) = err e

  -- `iter_mut().find(…).ok_or_else(…)?`, and what is then done through the reference
  unfoldable pub at_first : (A → Bool) → Error → (A → Result (A × B)) → List A → Result (List A × B)
  unfolding in_place behind
  at_first p missing f [] = err missing
  at_first p missing f (x ∷ xs) =
      let rest = at_first p missing f xs in if p x then in_place xs (f x) else behind x rest

  -- `get_mut(index).ok_or_else(…)?`
  unfoldable pub at_index : ℕ → Error → (A → Result (A × B)) → List A → Result (List A × B)
  unfolding in_place behind
  at_index i missing f [] = err missing
  at_index zero missing f (x ∷ xs) = in_place xs (f x)
  at_index (suc i) missing f (x ∷ xs) = behind x (at_index i missing f xs)
