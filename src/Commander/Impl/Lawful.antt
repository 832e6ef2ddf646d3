-- ===== src/Commander/Impl/Lawful.antt =====
-- Several implementations of commands on one world, and what undo needs of them.
use mizer.Prelude.{◌≡◌, ◌⊎◌, inl, inr, arith, subst, sym}
use mizer.Commander.Executor.{Result, ok, err, Error, IsLawful}
use mizer.Commander.Impl.{Impl, trait_of, either, left, right, apply_either, revert_either}

module _ {A B W : Type 0} where
  inl_of_left :
      (r : Result (Unit {0} × A) × W) (o : Unit {0}) (s : A ⊎ B) (w : W)
      → left {B = B} r ≡ (ok (o, s), w)
      → (a : A) × (s ≡ inl a) × (r ≡ (ok (o, a), w))
  unfolding left
  inl_of_left (ok (o', a), w') o s w h = (a, ground arith, ground arith)
  inl_of_left (err e, w') o s w h = ground arith

  err_of_left :
      (r : Result (Unit {0} × A) × W) (e : Error) (w : W)
      → left {B = B} r ≡ (err e, w)
      → r ≡ (err e, w)
  unfolding left
  err_of_left (ok (o', a), w') e w h = ground arith
  err_of_left (err e', w') e w h = ground arith

  inr_of_right :
      (r : Result (Unit {0} × B) × W) (o : Unit {0}) (s : A ⊎ B) (w : W)
      → right {A = A} r ≡ (ok (o, s), w)
      → (b : B) × (s ≡ inr b) × (r ≡ (ok (o, b), w))
  unfolding right
  inr_of_right (ok (o', a), w') o s w h = (a, ground arith, ground arith)
  inr_of_right (err e, w') o s w h = ground arith

  err_of_right :
      (r : Result (Unit {0} × B) × W) (e : Error) (w : W)
      → right {A = A} r ≡ (err e, w)
      → r ≡ (err e, w)
  unfolding right
  err_of_right (ok (o', a), w') e w h = ground arith
  err_of_right (err e', w') e w h = ground arith

-- A command that fails has changed nothing.
abbrev pub IsAtomic : {W : Type 0} → Impl W → Type 0
IsAtomic {W} i = (c : i.Command) (w w' : W) (e : Error) → i.apply c w ≡ (err e, w') → w' ≡ w

module _ {W : Type 0} (i j : Impl W) where
  pub either-IsAtomic : IsAtomic i → IsAtomic j → IsAtomic (either i j)
  unfolding apply_either
  either-IsAtomic li lj (inl c) w w' e h = li c w w' e (err_of_left _ e w' h)
  either-IsAtomic li lj (inr c) w w' e h = lj c w w' e (err_of_right _ e w' h)

module _ {W : Type 0} (i j : Impl W) (li : IsLawful (trait_of i)) (lj : IsLawful (trait_of j)) where
  revert-apply_either :
      (c : i.Command ⊎ j.Command) (w w' : W) (o : Unit {0}) (s : i.State ⊎ j.State)
      → apply_either i j c w ≡ (ok (o, s), w')
      → revert_either i j c s w' ≡ (ok tt, w)
  unfolding apply_either revert_either
  revert-apply_either (inl c) w w' o s h =
      let (a, same, applied) = inl_of_left (i.apply c w) o s w' h in
      subst (λ x. revert_either i j (inl c) x w' ≡ (ok tt, w)) (sym same)
        (li.revert-apply c w w' o a applied)
  revert-apply_either (inr c) w w' o s h =
      let (b, same, applied) = inr_of_right (j.apply c w) o s w' h in
      subst (λ x. revert_either i j (inr c) x w' ≡ (ok tt, w)) (sym same)
        (lj.revert-apply c w w' o b applied)

  pub either-IsLawful : IsLawful (trait_of (either i j))
  either-IsLawful = record {
    revert-apply = revert-apply_either;
    apply_atomic = either-IsAtomic i j li.apply_atomic lj.apply_atomic;
  }
