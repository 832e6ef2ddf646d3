-- ===== src/Tests/FixturesTests.antt =====
-- Priorities and selections at concrete inputs.
use mathlib.Core.List.{flatten}
use mizer.Prelude.{
  ◌<◌, ◌≡◌, ◌↔◌, ◌⊎◌, refl, arith, Bool, true, false, none, some, List, [], ◌∷◌, length, count_p,
}
use mizer.Fixtures.Id.{FixtureId, fixture, sub_fixture}
use mizer.Fixtures.Selection.{FixtureSelection, new, get_fixtures}
use mizer.Fixtures.Selection.Conserve.{get_fixtures-kept, get_fixtures-none_iff}
use mizer.Tests.Chunking.{chunking}

abbrev ids : List FixtureId
ids = fixture 1 ∷ fixture 2 ∷ fixture 3 ∷ fixture 4 ∷ sub_fixture 4 1 ∷ []

abbrev selection : FixtureSelection
selection = record { fixtures = ids; block_size = none; groups = some 2; wings = some 2 }

abbrev no_groups : FixtureSelection
no_groups = record { fixtures = ids; block_size = none; groups = some 0; wings = none }

abbrev small : FixtureSelection
small = new (fixture 1 ∷ fixture 7 ∷ [])

-- A test of the repository: two wings of four fixtures
wings_test :
    get_fixtures chunking (record {
      fixtures = fixture 1 ∷ fixture 2 ∷ fixture 3 ∷ fixture 4 ∷ [];
      block_size = none;
      groups = none;
      wings = some 2;
    })
    ≡ some ((fixture 1 ∷ fixture 4 ∷ []) ∷ (fixture 2 ∷ fixture 3 ∷ []) ∷ [])
unfolding get_fixtures flatten
wings_test = refl

get_fixtures-kept_example :
    (out : List (List FixtureId)) × (get_fixtures chunking selection ≡ some out)
    × ((p : FixtureId → Bool) → count_p p (flatten out) ≡ count_p p ids)
get_fixtures-kept_example = get_fixtures-kept chunking selection tt (omega arith) (omega arith)

get_fixtures-none_iff_example : (get_fixtures chunking no_groups ≡ none) ↔ (
    (0 < length ids)
    × ((no_groups.block_size ≡ some 0) ⊎ (no_groups.groups ≡ some 0) ⊎ (no_groups.wings ≡ some 0)))
get_fixtures-none_iff_example = get_fixtures-none_iff chunking no_groups

abbrev is_plain : FixtureId → Bool
is_plain (fixture _) = true
is_plain (sub_fixture _ _) = false
