-- ===== src/Fixtures/Selection.antt =====
-- `FixtureSelection` of crates/components/fixtures/src/selection.rs. A panic is `none`; `chunks` of
-- the crate itertools is a parameter.
pub mod Chunks
pub mod Conserve
pub mod Members
use mathlib.Core.List.{flatten, reverse}
use mizer.Prelude.{
  ℕ, zero, suc, ◌+◌, ◌/◌, ◌%◌, ◌≤◌, ◌<◌, ◌≡◌, Bool, true, false, ◌&&◌, ◌||◌, Option, none, some,
  List, [], ◌∷◌, ◌++◌, map, length, replicate, ◌==◌, ltb, if◌then◌else◌, ◌>>=◌,
}
use mizer.Fixtures.Id.{FixtureId, id_beq}

pub record FixtureSelection : Type 0 where
  pub fixtures : List FixtureId
  pub block_size : Option ℕ
  pub groups : Option ℕ
  pub wings : Option ℕ

unfoldable pub new : List FixtureId → FixtureSelection
new fixtures = record { fixtures = fixtures; block_size = none; groups = none; wings = none }

-- `Vec::contains`
unfoldable pub contains_in : List FixtureId → FixtureId → Bool
contains_in [] id = false
contains_in (x ∷ xs) id = id_beq x id || contains_in xs id

unfoldable pub contains : FixtureSelection → FixtureId → Bool
unfolding contains_in
contains s id = contains_in s.fixtures id

unfoldable pub add_fixture : FixtureSelection → FixtureId → FixtureSelection
add_fixture s id = record s { fixtures = s.fixtures ++ id ∷ [] }

unfoldable pub add_fixtures : FixtureSelection → List FixtureId → FixtureSelection
unfolding contains add_fixture
add_fixtures s [] = s
add_fixtures s (id ∷ ids) =
    add_fixtures (if contains_in s.fixtures id then s else add_fixture s id) ids

-- `position` and `Vec::remove`: the first occurrence goes.
unfoldable pub remove_first : FixtureId → List FixtureId → List FixtureId
remove_first id [] = []
remove_first id (x ∷ xs) = if id_beq x id then xs else x ∷ remove_first id xs

unfoldable pub remove : FixtureSelection → FixtureId → FixtureSelection
unfolding remove_first
remove s id = record s { fixtures = remove_first id s.fixtures }

unfoldable pub clear : FixtureSelection → FixtureSelection
clear s = record s { fixtures = [] }

-- `VecExtension::overlaps`: the loop is over the other selection.
unfoldable pub overlaps_in : List FixtureId → List FixtureId → Bool
unfolding contains_in
overlaps_in xs [] = false
overlaps_in xs (y ∷ ys) = contains_in xs y || overlaps_in xs ys

unfoldable pub overlaps : FixtureSelection → FixtureSelection → Bool
unfolding overlaps_in
overlaps s other = overlaps_in s.fixtures other.fixtures

unfoldable pub retain_in : (FixtureId → Bool) → List FixtureId → List FixtureId
retain_in f [] = []
retain_in f (x ∷ xs) = let rest = retain_in f xs in if f x then x ∷ rest else rest

unfoldable pub retain : (FixtureId → Bool) → FixtureSelection → FixtureSelection
unfolding retain_in
retain f s = record s { fixtures = retain_in f s.fixtures }

unfoldable pub is_nil : List FixtureId → Bool
is_nil [] = true
is_nil (_ ∷ _) = false

unfoldable pub is_empty : FixtureSelection → Bool
unfolding is_nil
is_empty s = is_nil s.fixtures

unfoldable pub total_fixtures : FixtureSelection → ℕ
total_fixtures s = length s.fixtures

-- With a divisor of 0 the division panics in the source; the caller below tests for that.
unfoldable pub div_ceil : ℕ → ℕ → ℕ
div_ceil lhs rhs =
    let d = lhs / rhs in let r = lhs % rhs in if ltb 0 r && ltb 0 rhs then d + 1 else d

-- What itertools documents of `chunks`, for a size that is not 0: the chunks in their order are the
-- list, each has as many elements as the size says, and the last one at most as many and at least one.
module _ {B : Type 0} where
  abbrev pub AreChunks : ℕ → List (List B) → Type 0
  AreChunks n [] = Unit
  AreChunks n (c ∷ []) = (0 < length c) × (length c ≤ n)
  AreChunks n (c ∷ d ∷ cs) = (length c ≡ n) × AreChunks n (d ∷ cs)

pub record Itertools : Type 1 where
  pub chunks : (B : Type 0) → ℕ → List B → List (List B)
  pub flatten-chunks : (B : Type 0) (n : ℕ) (xs : List B) → 0 < n → flatten (chunks B n xs) ≡ xs
  pub chunks-AreChunks : (B : Type 0) (n : ℕ) (xs : List B) → 0 < n → AreChunks n (chunks B n xs)

module _ {B : Type 0} where
  -- `acc[i].append(ids)`, in range
  unfoldable pub append_at : List (List B) → ℕ → List B → List (List B)
  append_at [] i ids = []
  append_at (g ∷ gs) zero ids = (g ++ ids) ∷ gs
  append_at (g ∷ gs) (suc i) ids = g ∷ append_at gs i ids

  -- The fold for `groups`, from the index `i` on.
  unfoldable pub deal : ℕ → ℕ → List (List B) → List (List B) → List (List B)
  unfolding append_at
  deal groups i acc [] = acc
  deal groups i acc (ids ∷ rest) = deal groups (i + 1) (append_at acc (i % groups) ids) rest

  -- Every other chunk is reversed.
  unfoldable pub reverse_odd : ℕ → List (List B) → List (List B)
  reverse_odd i [] = []
  reverse_odd i (chunk ∷ rest) =
      (if i % 2 == 1 then reverse chunk else chunk) ∷ reverse_odd (i + 1) rest

  -- One round of the fold for `wings`; what finds no place in `acc` is dropped.
  unfoldable pub merge : List (List B) → List (List B) → List (List B)
  merge acc [] = acc
  merge [] (ids ∷ group) = []
  merge (g ∷ acc) (ids ∷ group) = (g ++ ids) ∷ merge acc group

  unfoldable pub merge_all : List (List B) → List (List (List B)) → List (List B)
  unfolding merge
  merge_all acc [] = acc
  merge_all acc (group ∷ rest) = merge_all (merge acc group) rest

module _ (it : Itertools) where
  in_blocks : Option ℕ → List (List FixtureId) → Option (List (List FixtureId))
  in_blocks none xs = some xs
  in_blocks (some block_size) xs =
      if block_size == 0
      then none
      else some (map flatten (it.chunks (List FixtureId) block_size xs))

  in_groups : Option ℕ → List (List FixtureId) → Option (List (List FixtureId))
  unfolding deal
  in_groups none xs = some xs
  in_groups (some groups) xs =
      if groups == 0 then none else some (deal groups 0 (replicate groups []) xs)

  in_wings : Option ℕ → List (List FixtureId) → Option (List (List FixtureId))
  unfolding div_ceil reverse_odd merge_all
  in_wings none xs = some xs
  in_wings (some wings) xs =
      if wings == 0
      then none
      else let groups = div_ceil (length xs) wings in
        some
          (merge_all (replicate groups []) (reverse_odd 0 (it.chunks (List FixtureId) groups xs)))

  unfoldable pub get_fixtures : FixtureSelection → Option (List (List FixtureId))
  unfolding in_blocks in_groups in_wings is_empty
  get_fixtures s = if is_empty s then some [] else do
    blocks ← in_blocks s.block_size (it.chunks FixtureId 1 s.fixtures)
    grouped ← in_groups s.groups blocks
    in_wings s.wings grouped
