-- ===== src/Commander/Impl/Beside.antt =====
-- Implementations of commands on parts of a world, and what undo needs of them.
use mizer.Prelude.{◌≡◌, refl, ap, sym}
use mizer.Commander.Executor.{ok, err, IsLawful}
use mizer.Commander.Impl.{Impl, trait_of, keep_first, keep_second, on_first, on_second}

module _ {W V : Type 0} where
  of_keep_second :
      {A : Type 0} (v : V) (r : A × W) (a : A) (world : W × V)
      → keep_second v r ≡ (a, world)
      → (r ≡ (a, world.0)) × (world.1 ≡ v)
  unfolding keep_second
  of_keep_second v (b, u) a (w, v') h = (ap (λ x. (x.0, x.1.0)) h, ap (λ x. x.1.1) (sym h))

  of_keep_first :
      {A : Type 0} (w : W) (r : A × V) (a : A) (world : W × V)
      → keep_first w r ≡ (a, world)
      → (r ≡ (a, world.1)) × (world.0 ≡ w)
  unfolding keep_first
  of_keep_first w (b, u) a (w', v) h = (ap (λ x. (x.0, x.1.1)) h, ap (λ x. x.1.0) (sym h))

  pair_eq : (x y : W × V) → x.0 ≡ y.0 → x.1 ≡ y.1 → x ≡ y
  pair_eq (w, v) (w', v') p q = rw (p, q) refl

  pub on_first-IsLawful :
      (i : Impl W) → IsLawful (trait_of i) → IsLawful (trait_of (on_first {V = V} i))
  on_first-IsLawful i law = record {
    revert-apply = λ c x y o s h.
        let (applied, same) = of_keep_second x.1 (i.apply c x.0) (ok (o, s)) y h in
        rw (law.revert-apply c x.0 y.0 o s applied, same) (unfold keep_second in refl);
    apply_atomic = λ c x y e h.
        let (applied, same) = of_keep_second x.1 (i.apply c x.0) (err e) y h in
        pair_eq y x (law.apply_atomic c x.0 y.0 e applied) same;
  }

  pub on_second-IsLawful :
      (i : Impl V) → IsLawful (trait_of i) → IsLawful (trait_of (on_second {W = W} i))
  on_second-IsLawful i law = record {
    revert-apply = λ c x y o s h.
        let (applied, same) = of_keep_first x.0 (i.apply c x.1) (ok (o, s)) y h in
        rw (law.revert-apply c x.1 y.1 o s applied, same) (unfold keep_first in refl);
    apply_atomic = λ c x y e h.
        let (applied, same) = of_keep_first x.0 (i.apply c x.1) (err e) y h in
        pair_eq y x same (law.apply_atomic c x.1 y.1 e applied);
  }
