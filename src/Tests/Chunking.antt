-- ===== src/Tests/Chunking.antt =====
-- A function in the place of `chunks` of the crate itertools, with what is asked of it.
use mathlib.Core.List.{flatten}
use mizer.Prelude.{
  ℕ, zero, suc, ◌-◌, ◌<◌, ◌≤◌, ◌≡◌, refl, ap, ◌∙◌, arith, List, [], ◌∷◌, ◌++◌, length, take, drop,
  length-take,
}
use mizer.Fixtures.Selection.{AreChunks, Itertools}

module _ {B : Type 0} where
  abbrev pub chunk : ℕ → ℕ → List B → List (List B)
  chunk zero n xs = []
  chunk (suc f) n [] = []
  chunk (suc f) n (x ∷ xs) = take n (x ∷ xs) ∷ chunk f n (drop n (x ∷ xs))

  take-drop : (n : ℕ) (xs : List B) → take n xs ++ drop n xs ≡ xs
  take-drop zero xs = refl
  take-drop (suc n) [] = refl
  take-drop (suc n) (x ∷ xs) = ap (x ∷◌) (take-drop n xs)

  length-drop : (n : ℕ) (xs : List B) → length (drop n xs) ≡ length xs - n
  length-drop zero xs = omega arith
  length-drop (suc n) [] = omega arith
  length-drop (suc n) (x ∷ xs) = omega (arith, length-drop n xs)

  pub flatten-chunk : (f n : ℕ) (xs : List B) → length xs ≤ f → 0 < n → flatten (chunk f n xs) ≡ xs
  unfolding flatten
  flatten-chunk zero n [] h pos = refl
  flatten-chunk zero n (x ∷ xs) h pos = absurd (omega arith)
  flatten-chunk (suc f) n [] h pos = refl
  flatten-chunk (suc f) n (x ∷ xs) h pos =
      ap (take n (x ∷ xs) ++◌)
        (flatten-chunk f n (drop n (x ∷ xs)) (omega (arith, length-drop n (x ∷ xs))) pos)
      ∙ take-drop n (x ∷ xs)

  chunk-cons :
      (c : List B) (f n : ℕ) (ys : List B)
      → 0 < length c
      → length c ≤ n
      → (0 < length ys → length c ≡ n)
      → AreChunks n (chunk f n ys)
      → AreChunks n (c ∷ chunk f n ys)
  chunk-cons c zero n ys pos le full h = (pos, le)
  chunk-cons c (suc f) n [] pos le full h = (pos, le)
  chunk-cons c (suc f) n (y ∷ ys) pos le full h = (full (omega arith), h)

  pub chunk-AreChunks : (f n : ℕ) (xs : List B) → 0 < n → AreChunks n (chunk f n xs)
  chunk-AreChunks zero n xs pos = tt
  chunk-AreChunks (suc f) n [] pos = tt
  chunk-AreChunks (suc f) n (x ∷ xs) pos =
      chunk-cons (take n (x ∷ xs)) f n (drop n (x ∷ xs)) (omega (arith, length-take n (x ∷ xs)))
        (omega (arith, length-take n (x ∷ xs)))
        (λ h. omega (arith, length-take n (x ∷ xs), length-drop n (x ∷ xs), h))
        (chunk-AreChunks f n (drop n (x ∷ xs)) pos)

abbrev pub chunking : Itertools
chunking = record {
  chunks = λ B n xs. chunk (length xs) n xs;
  flatten-chunks = λ B n xs. flatten-chunk (length xs) n xs (omega arith);
  chunks-AreChunks = λ B n xs. chunk-AreChunks (length xs) n xs;
}
