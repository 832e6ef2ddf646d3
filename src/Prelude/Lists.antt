-- ===== src/Prelude/Lists.antt =====
-- Lists measured and indexed by native numbers, under the library's names.
use Prim.Native.Nat.{ℕ, zero, suc, ◌+◌, ◌≤◌, min}
use mathlib.Core.Path.{◌≡◌, refl, ap}
use mathlib.Core.Bool.{Bool}
use mathlib.Core.List.{List, [], ◌∷◌, ◌++◌, reverse_aux, reverse, flatten, map}
use mathlib.Core.Option.{Option, none, some}
use native.Mathlib.Omega.{arith}
use mizer.Prelude.Tests.{if◌then◌else◌}

module _ {ℓ} {A : Type ℓ} where
  abbrev pub length : List A → ℕ
  length [] = 0
  length (x ∷ xs) = suc (length xs)

  abbrev pub get_elem? : List A → ℕ → Option A
  get_elem? [] i = none
  get_elem? (x ∷ xs) zero = some x
  get_elem? (x ∷ xs) (suc i) = get_elem? xs i

  abbrev pub take : ℕ → List A → List A
  take zero xs = []
  take (suc n) [] = []
  take (suc n) (x ∷ xs) = x ∷ take n xs

  abbrev pub drop : ℕ → List A → List A
  drop zero xs = xs
  drop (suc n) [] = []
  drop (suc n) (x ∷ xs) = drop n xs

  abbrev pub replicate : ℕ → A → List A
  replicate zero a = []
  replicate (suc n) a = a ∷ replicate n a

  abbrev pub count_p : (A → Bool) → List A → ℕ
  count_p p [] = 0
  count_p p (x ∷ xs) = (if p x then 1 else 0) + count_p p xs

module _ {ℓ} {A : Type ℓ} where
  pub length-append : (xs ys : List A) → length (xs ++ ys) ≡ length xs + length ys
  length-append [] ys = omega arith
  length-append (x ∷ xs) ys = omega (arith, length-append xs ys)

  pub length-take : (n : ℕ) (xs : List A) → length (take n xs) ≡ min n (length xs)
  length-take zero xs = omega arith
  length-take (suc n) [] = omega arith
  length-take (suc n) (x ∷ xs) = omega (arith, length-take n xs)

  pub take_all : (n : ℕ) (xs : List A) → length xs ≤ n → take n xs ≡ xs
  take_all zero [] h = refl
  take_all zero (x ∷ xs) h = absurd (omega arith)
  take_all (suc n) [] h = refl
  take_all (suc n) (x ∷ xs) h = ap (x ∷◌) (take_all n xs (omega arith))

  pub get_elem?-append_length :
      (xs ys : List A) (y : A) → get_elem? (xs ++ y ∷ ys) (length xs) ≡ some y
  get_elem?-append_length [] ys y = refl
  get_elem?-append_length (x ∷ xs) ys y = get_elem?-append_length xs ys y

  pub get_elem?-none : (xs : List A) (i : ℕ) → length xs ≤ i → get_elem? xs i ≡ none
  get_elem?-none [] i h = refl
  get_elem?-none (x ∷ xs) zero h = absurd (omega arith)
  get_elem?-none (x ∷ xs) (suc i) h = get_elem?-none xs i (omega arith)

  pub take-length_append : (xs ys : List A) → take (length xs) (xs ++ ys) ≡ xs
  take-length_append [] ys = refl
  take-length_append (x ∷ xs) ys = ap (x ∷◌) (take-length_append xs ys)

  pub length-replicate : (n : ℕ) (a : A) → length (replicate n a) ≡ n
  length-replicate zero a = omega arith
  length-replicate (suc n) a = omega (arith, length-replicate n a)

  pub length-reverse_aux : (xs ys : List A) → length (reverse_aux xs ys) ≡ length xs + length ys
  length-reverse_aux [] ys = omega arith
  length-reverse_aux (x ∷ xs) ys = omega (arith, length-reverse_aux xs (x ∷ ys))

  pub length-reverse : (xs : List A) → length (reverse xs) ≡ length xs
  length-reverse xs = omega (arith, length-reverse_aux xs [])

  pub count_p-append :
      (p : A → Bool) (xs ys : List A) → count_p p (xs ++ ys) ≡ count_p p xs + count_p p ys
  count_p-append p [] ys = omega arith
  count_p-append p (x ∷ xs) ys = omega (arith, count_p-append p xs ys)

-- How many elements of the inner lists satisfy a predicate.
module _ {ℓ} {A : Type ℓ} where
  abbrev pub total : (A → Bool) → List (List A) → ℕ
  total p [] = 0
  total p (xs ∷ xss) = count_p p xs + total p xss

  pub count_p-flatten : (p : A → Bool) (xss : List (List A)) → count_p p (flatten xss) ≡ total p xss
  unfolding flatten
  count_p-flatten p [] = omega arith
  count_p-flatten p (xs ∷ xss) =
      omega (arith, count_p-append p xs (flatten xss), count_p-flatten p xss)

  pub total-append :
      (p : A → Bool) (xss yss : List (List A)) → total p (xss ++ yss) ≡ total p xss + total p yss
  total-append p [] yss = omega arith
  total-append p (xs ∷ xss) yss = omega (arith, total-append p xss yss)

  pub total-replicate_nil : (p : A → Bool) (n : ℕ) → total p (replicate n []) ≡ 0
  total-replicate_nil p zero = omega arith
  total-replicate_nil p (suc n) = omega (arith, total-replicate_nil p n)

  pub total-map-flatten :
      (p : A → Bool) (xsss : List (List (List A)))
      → total p (map flatten xsss) ≡ total p (flatten xsss)
  unfolding flatten
  total-map-flatten p [] = omega arith
  total-map-flatten p (xss ∷ xsss) =
      omega
        (arith, count_p-flatten p xss, total-append p xss (flatten xsss), total-map-flatten p xsss)

  pub total-reverse_aux :
      (p : A → Bool) (xss yss : List (List A))
      → total p (reverse_aux xss yss) ≡ total p xss + total p yss
  total-reverse_aux p [] yss = omega arith
  total-reverse_aux p (xs ∷ xss) yss = omega (arith, total-reverse_aux p xss (xs ∷ yss))
