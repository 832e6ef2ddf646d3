-- ===== src/Commander/Find/Laws.antt =====
-- The searches in a list, and what is done at the element that they find.
use mizer.Prelude.{
  ◌≡◌, refl, sym, ap, ◌∙◌, ◌⊎◌, inl, inr, arith, ℕ, zero, suc, Bool, true, false, List, [], ◌∷◌,
  ◌++◌, Bool-cases,
}
use mizer.Commander.Executor.{Error, Result, ok, err}
use mizer.Commander.Find.{in_place, behind, at_first, at_index}

-- Every element of a list meets a predicate.
abbrev pub All : {A : Type 0} → (A → Type 0) → List A → Type 0
All P [] = Unit
All P (x ∷ xs) = P x × All P xs

pub All-unit : {A : Type 0} (xs : List A) → All (λ _. Unit {0}) xs
All-unit [] = tt
All-unit (x ∷ xs) = (tt, All-unit xs)

-- The test holds of no element.
abbrev pub NoneHas : {A : Type 0} → (A → Bool) → List A → Type 0
NoneHas p xs = All (λ x. p x ≡ false) xs

pub Result-cases :
    {A : Type 0} (r : Result A) → ((a : A) × (r ≡ ok a)) ⊎ ((e : Error) × (r ≡ err e))
Result-cases (ok a) = inl (a, refl)
Result-cases (err e) = inr (e, refl)

module _ {A B : Type 0} where
  in_place-ok :
      (xs : List A) (r : Result (A × B)) (ys : List A) (b : B)
      → in_place xs r ≡ ok (ys, b)
      → (y : A) × (r ≡ ok (y, b)) × (ys ≡ y ∷ xs)
  unfolding in_place
  in_place-ok xs (ok (y, b')) ys b h = (y, ground arith, ground arith)
  in_place-ok xs (err e) ys b h = ground arith

  behind-ok :
      (x : A) (r : Result (List A × B)) (ys : List A) (b : B)
      → behind x r ≡ ok (ys, b)
      → (zs : List A) × (r ≡ ok (zs, b)) × (ys ≡ x ∷ zs)
  unfolding behind
  behind-ok x (ok (zs, b')) ys b h = (zs, ground arith, ground arith)
  behind-ok x (err e) ys b h = ground arith

module _ {A : Type 0} (p : A → Bool) (missing : Error) where
  -- The first element that the test holds of, and what is done there, split off.
  at_first_found :
      {C : Type 0} (f : A → Result (A × C)) (x : A) (xs : List A)
      → p x ≡ true
      → at_first p missing f (x ∷ xs) ≡ in_place xs (f x)
  unfolding at_first
  at_first_found f x xs h = rw h refl

  at_first_passed :
      {C : Type 0} (f : A → Result (A × C)) (x : A) (xs : List A)
      → p x ≡ false
      → at_first p missing f (x ∷ xs) ≡ behind x (at_first p missing f xs)
  unfolding at_first
  at_first_passed f x xs h = rw h refl

  -- A look at the first element leaves the list.
  pub at_first-look :
      (xs ys : List A) (y : A) → at_first p missing (λ x. ok (x, x)) xs ≡ ok (ys, y) → ys ≡ xs
  at_first-look [] ys y h = unfold at_first in ground arith
  at_first-look (x ∷ xs) ys y h = elim (Bool-cases (p x)) [
    | inl found ↦
        let (z, done, shape) =
          in_place-ok xs (ok (x, x)) ys y (sym (at_first_found (λ z. ok (z, z)) x xs found) ∙ h) in
        ground (arith, done, shape)
    | inr passed ↦
        let (zs, rest, shape) =
          behind-ok x (at_first p missing (λ z. ok (z, z)) xs) ys y
            (sym (at_first_passed (λ z. ok (z, z)) x xs passed) ∙ h) in
        shape ∙ ap (x ∷◌) (at_first-look xs zs y rest)
  ]

-- A change of the first element is taken back by one that takes it back there and passes by what the
-- change passed by.
module _ {A B : Type 0} (p q : A → Bool) (missing : Error) (Good : A → Type 0)
    (f : A → Result (A × B)) (g : B → A → Result (A × Unit {0}))
    (skips : (x : A) → Good x → p x ≡ false → q x ≡ false)
    (back : (x y : A) (b : B)
      → Good x
      → p x ≡ true
      → f x ≡ ok (y, b)
      → (q y ≡ true) × (g b y ≡ ok (x, tt))) where
  pub at_first-at_first :
      (xs ys : List A) (b : B)
      → All Good xs
      → at_first p missing f xs ≡ ok (ys, b)
      → at_first q missing (g b) ys ≡ ok (xs, tt)
  at_first-at_first [] ys b good h = unfold at_first in ground arith
  at_first-at_first (x ∷ xs) ys b good h = elim (Bool-cases (p x)) [
    | inl found ↦
        let (y, done, shape) =
          in_place-ok xs (f x) ys b (sym (at_first_found p missing f x xs found) ∙ h) in
        let (holds, undone) = back x y b good.0 found done in
        rw (shape, at_first_found q missing (g b) y xs holds, undone) (unfold in_place in refl)
    | inr passed ↦
        let (zs, rest, shape) =
          behind-ok x (at_first p missing f xs) ys b
            (sym (at_first_passed p missing f x xs passed) ∙ h) in
        rw
          (
            shape,
            at_first_passed q missing (g b) x zs (skips x good.0 passed),
            at_first-at_first xs zs b good.1 rest,
          )
          (unfold behind in refl)
  ]

module _ {A B : Type 0} (p : A → Bool) (missing : Error) (f : A → Result (A × B)) where
  pub at_first-split :
      (xs ys : List A) (b : B)
      → at_first p missing f xs ≡ ok (ys, b)
      → (before : List A) × (x : A) × (y : A) × (after : List A) × (xs ≡ before ++ x ∷ after)
        × NoneHas p before
        × (p x ≡ true)
        × (f x ≡ ok (y, b))
        × (ys ≡ before ++ y ∷ after)
  at_first-split [] ys b h = unfold at_first in ground arith
  at_first-split (x ∷ xs) ys b h = elim (Bool-cases (p x)) [
    | inl found ↦
        let (y, done, shape) =
          in_place-ok xs (f x) ys b (sym (at_first_found p missing f x xs found) ∙ h) in
        ([], x, y, xs, refl, tt, found, done, shape)
    | inr passed ↦
        let (zs, rest, shape) =
          behind-ok x (at_first p missing f xs) ys b
            (sym (at_first_passed p missing f x xs passed) ∙ h) in
        let (before, z, y, after, whole, none_before, found, done, left) =
          at_first-split xs zs b rest in
        (
          x ∷ before,
          z,
          y,
          after,
          ap (x ∷◌) whole,
          (passed, none_before),
          found,
          done,
          shape ∙ ap (x ∷◌) left,
        )
  ]

  pub at_first-append :
      (before : List A) (x y : A) (b : B) (after : List A)
      → NoneHas p before
      → p x ≡ true
      → f x ≡ ok (y, b)
      → at_first p missing f (before ++ x ∷ after) ≡ ok (before ++ y ∷ after, b)
  unfolding at_first
  at_first-append [] x y b after passed found done = rw (found, done) refl
  at_first-append (z ∷ before) x y b after passed found done =
      rw (passed.0, at_first-append before x y b after passed.1 found done) refl

-- One change takes back another one, and a change keeps a test.
abbrev pub Undoes : {A B : Type 0} → (A → Result (A × B)) → (B → A → Result (A × Unit {0})) → Type 0
Undoes {A} {B} f g = (x y : A) (b : B) → f x ≡ ok (y, b) → g b y ≡ ok (x, tt)

abbrev pub Keeps : {A B : Type 0} → (A → Bool) → (A → Result (A × B)) → Type 0
Keeps {A} {B} p f = (x y : A) (b : B) → f x ≡ ok (y, b) → p x ≡ true → p y ≡ true

module _ {A B : Type 0} (missing : Error) (f : A → Result (A × B))
    (g : B → A → Result (A × Unit {0})) (back : Undoes f g) where
  pub at_first-Undoes :
      (p : A → Bool) → Keeps p f → Undoes (at_first p missing f) (λ b. at_first p missing (g b))
  at_first-Undoes p keeps xs ys b h =
      at_first-at_first p p missing (λ (_ : A). Unit {0}) f g
        (λ (x : A) (_ : Unit {0}) (passed : p x ≡ false). passed)
        (λ (x y : A) (b : B) (_ : Unit {0}) (found : p x ≡ true) (e : f x ≡ ok (y, b)).
          (keeps x y b e found, back x y b e))
        xs ys b (All-unit xs) h

  pub at_index-Undoes : (i : ℕ) → Undoes (at_index i missing f) (λ b. at_index i missing (g b))
  unfolding at_index in_place behind
  at_index-Undoes i [] ys b h = ground arith
  at_index-Undoes zero (x ∷ xs) ys b h =
      let (y, done, shape) = in_place-ok xs (f x) ys b h in rw (shape, back x y b done) refl
  at_index-Undoes (suc i) (x ∷ xs) ys b h =
      let (zs, rest, shape) = behind-ok x (at_index i missing f xs) ys b h in
      rw (shape, at_index-Undoes i xs zs b rest) refl
