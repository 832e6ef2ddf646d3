-- ===== src/Layouts/Store/Laws.antt =====
-- The helpers on lists and layouts.
use mizer.Prelude.{
  ◌≡◌, refl, ap, ◌∙◌, inl, inr, arith, Bool, true, none, some, List, [], ◌∷◌, ◌++◌, Bool-cases,
  Option-cases,
}
use mizer.Commander.Find.Laws.{NoneHas}
use mizer.Layouts.Store.{remove_first, drop_all}

module _ {A : Type 0} (p : A → Bool) where
  pub drop_all-append : (xs ys : List A) → drop_all p (xs ++ ys) ≡ drop_all p xs ++ drop_all p ys
  unfolding drop_all
  drop_all-append [] ys = refl
  drop_all-append (x ∷ xs) ys = ground (arith, drop_all-append xs ys)

  pub drop_all_kept : (xs : List A) → NoneHas p xs → drop_all p xs ≡ xs
  unfolding drop_all
  drop_all_kept [] h = refl
  drop_all_kept (x ∷ xs) h = ground (arith, drop_all_kept xs h.1)

  pub drop_all-NoneHas : (xs : List A) → NoneHas p (drop_all p xs)
  unfolding drop_all
  drop_all-NoneHas [] = tt
  drop_all-NoneHas (x ∷ xs) = elim (Bool-cases (p x)) [
    | inl dropped ↦ rw dropped (drop_all-NoneHas xs)
    | inr kept ↦ rw kept (kept, drop_all-NoneHas xs)
  ]

  pub remove_first-append :
      (xs : List A) (y : A) (ys : List A)
      → NoneHas p xs
      → p y ≡ true
      → remove_first p (xs ++ y ∷ ys) ≡ some (y, xs ++ ys)
  unfolding remove_first
  remove_first-append [] y ys h e = rw e refl
  remove_first-append (x ∷ xs) y ys h e = rw (h.0, remove_first-append xs y ys h.1 e) refl

  pub remove_first-none : (xs : List A) → NoneHas p xs → remove_first p xs ≡ none
  unfolding remove_first
  remove_first-none [] h = refl
  remove_first-none (x ∷ xs) h = rw (h.0, remove_first-none xs h.1) refl

  pub NoneHas-remove_first : (xs : List A) → remove_first p xs ≡ none → NoneHas p xs
  NoneHas-remove_first [] h = tt
  NoneHas-remove_first (x ∷ xs) h = elim (Bool-cases (p x)) [
    | inl found ↦ absurd (unfold remove_first in ground (arith, found))
    | inr passed ↦ elim (Option-cases (remove_first p xs)) [
      | inl missing ↦ (passed, NoneHas-remove_first xs missing)
      | inr ((z, zs), rest) ↦ absurd (unfold remove_first in ground (arith, passed, rest))
    ]
  ]

  pub remove_first-split :
      (xs : List A) (y : A) (ys : List A)
      → remove_first p xs ≡ some (y, ys)
      → (before : List A) × (after : List A) × (xs ≡ before ++ y ∷ after)
        × NoneHas p before
        × (p y ≡ true)
        × (ys ≡ before ++ after)
  remove_first-split [] y ys h = unfold remove_first in ground arith
  remove_first-split (x ∷ xs) y ys h = elim (Bool-cases (p x)) [
    | inl found ↦ (
      [],
      xs,
      unfold remove_first in ground (arith, found),
      tt,
      unfold remove_first in ground (arith, found),
      unfold remove_first in ground (arith, found),
    )
    | inr passed ↦ elim (Option-cases (remove_first p xs)) [
      | inl missing ↦ absurd (unfold remove_first in ground (arith, passed, missing))
      | inr ((z, zs), rest) ↦
          let (before, after, shape, none_before, holds, left) = remove_first-split xs z zs rest in
          let same : y ≡ z = unfold remove_first in ground (arith, passed, rest) in
          let same_rest : ys ≡ x ∷ zs = unfold remove_first in ground (arith, passed, rest) in
          (
            x ∷ before,
            after,
            rw same (ap (x ∷◌) shape),
            (passed, none_before),
            rw same holds,
            same_rest ∙ ap (x ∷◌) left,
          )
    ]
  ]
