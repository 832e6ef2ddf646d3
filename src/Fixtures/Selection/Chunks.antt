-- ===== src/Fixtures/Selection/Chunks.antt =====
-- What the steps of `get_fixtures` (selection.rs) do with the elements.
use mathlib.Core.List.{flatten, reverse}
use native.Mathlib.Nat.{mod-lt}
use mizer.Prelude.{
  ℕ, zero, suc, ◌+◌, ◌%◌, ◌≤◌, ◌<◌, ◌≡◌, Bool, List, [], ◌∷◌, length, count_p, total,
  count_p-append, total-append, total-reverse_aux, length-reverse, arith, ◌==◌, if◌then◌else◌,
}
use mizer.Fixtures.Selection.{append_at, deal, reverse_odd, merge, merge_all, AreChunks}

module _ {B : Type 0} (p : B → Bool) where
  total-append_at :
      (acc : List (List B)) (i : ℕ) (ids : List B)
      → i < length acc
      → total p (append_at acc i ids) ≡ total p acc + count_p p ids
  unfolding append_at
  total-append_at [] i ids h = absurd (omega arith)
  total-append_at (g ∷ acc) zero ids h = omega (arith, count_p-append p g ids)
  total-append_at (g ∷ acc) (suc i) ids h = omega (arith, total-append_at acc i ids (omega arith))

module _ {B : Type 0} where
  length-append_at :
      (acc : List (List B)) (i : ℕ) (ids : List B) → length (append_at acc i ids) ≡ length acc
  unfolding append_at
  length-append_at [] i ids = omega arith
  length-append_at (g ∷ acc) zero ids = omega arith
  length-append_at (g ∷ acc) (suc i) ids = omega (arith, length-append_at acc i ids)

  pub length-deal :
      (groups i : ℕ) (acc xs : List (List B)) → length (deal groups i acc xs) ≡ length acc
  unfolding deal
  length-deal groups i acc [] = omega arith
  length-deal groups i acc (ids ∷ rest) = omega (
    arith,
    length-append_at acc (i % groups) ids,
    length-deal groups (i + 1) (append_at acc (i % groups) ids) rest,
  )

module _ {B : Type 0} (p : B → Bool) where
  pub total-deal :
      (groups i : ℕ) (acc xs : List (List B))
      → 0 < groups
      → length acc ≡ groups
      → total p (deal groups i acc xs) ≡ total p acc + total p xs
  unfolding deal
  total-deal groups i acc [] pos h = omega arith
  total-deal groups i acc (ids ∷ rest) pos h = omega (
    arith,
    total-append_at p acc (i % groups) ids (omega (arith, mod-lt i pos)),
    total-deal groups (i + 1) (append_at acc (i % groups) ids) rest pos
        (omega (arith, length-append_at acc (i % groups) ids)),
  )

-- No list is longer than n.
module _ {B : Type 0} where
  abbrev pub Fits : ℕ → List (List B) → Type 0
  Fits n [] = Unit
  Fits n (c ∷ cs) = (length c ≤ n) × Fits n cs

  pub AreChunks-Fits : (n : ℕ) (cs : List (List B)) → AreChunks n cs → Fits n cs
  AreChunks-Fits n [] h = tt
  AreChunks-Fits n (c ∷ []) h = (h.1, tt)
  AreChunks-Fits n (c ∷ d ∷ cs) h = (omega (arith, h.0), AreChunks-Fits n (d ∷ cs) h.1)

  reverse_odd-cons :
      (i : ℕ) (chunk : List B) (rest : List (List B))
      → length (if i % 2 == 1 then reverse chunk else chunk) ≡ length chunk
  reverse_odd-cons i chunk rest = ground (arith, length-reverse chunk)

  pub reverse_odd-Fits : (n i : ℕ) (cs : List (List B)) → Fits n cs → Fits n (reverse_odd i cs)
  unfolding reverse_odd
  reverse_odd-Fits n i [] h = tt
  reverse_odd-Fits n i (c ∷ cs) h =
      (omega (arith, h.0, reverse_odd-cons i c cs), reverse_odd-Fits n (i + 1) cs h.1)

  pub length-merge : (acc group : List (List B)) → length (merge acc group) ≡ length acc
  unfolding merge
  length-merge acc [] = omega arith
  length-merge [] (ids ∷ group) = omega arith
  length-merge (g ∷ acc) (ids ∷ group) = omega (arith, length-merge acc group)

  pub length-merge_all :
      (acc : List (List B)) (gs : List (List (List B))) → length (merge_all acc gs) ≡ length acc
  unfolding merge_all
  length-merge_all acc [] = omega arith
  length-merge_all acc (g ∷ gs) =
      omega (arith, length-merge acc g, length-merge_all (merge acc g) gs)

module _ {B : Type 0} (p : B → Bool) where
  total-reverse :
      (i : ℕ) (c : List (List B)) → total p (if i % 2 == 1 then reverse c else c) ≡ total p c
  total-reverse i c = ground (arith, total-reverse_aux p c [])

  pub total-reverse_odd :
      (i : ℕ) (cs : List (List (List B)))
      → total p (flatten (reverse_odd i cs)) ≡ total p (flatten cs)
  unfolding reverse_odd flatten
  total-reverse_odd i [] = omega arith
  total-reverse_odd i (c ∷ cs) = omega (
    arith,
    total-append p (if i % 2 == 1 then reverse c else c) (flatten (reverse_odd (i + 1) cs)),
    total-append p c (flatten cs),
    total-reverse i c,
    total-reverse_odd (i + 1) cs,
  )

  total-merge :
      (acc group : List (List B))
      → length group ≤ length acc
      → total p (merge acc group) ≡ total p acc + total p group
  unfolding merge
  total-merge acc [] h = omega arith
  total-merge [] (ids ∷ group) h = absurd (omega arith)
  total-merge (g ∷ acc) (ids ∷ group) h =
      omega (arith, count_p-append p g ids, total-merge acc group (omega arith))

  pub total-merge_all :
      (n : ℕ) (acc : List (List B)) (gs : List (List (List B)))
      → length acc ≡ n
      → Fits n gs
      → total p (merge_all acc gs) ≡ total p acc + total p (flatten gs)
  unfolding merge_all flatten
  total-merge_all n acc [] e h = omega arith
  total-merge_all n acc (g ∷ gs) e h = omega (
    arith,
    total-append p g (flatten gs),
    total-merge acc g (omega (arith, h.0)),
    total-merge_all n (merge acc g) gs (omega (arith, length-merge acc g)) h.1,
  )
