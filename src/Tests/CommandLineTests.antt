-- ===== src/Tests/CommandLineTests.antt =====
-- Ranges of identifiers at concrete inputs.
use mizer.Prelude.{◌≡◌, refl, Bool, ◌&&◌, List, [], ◌∷◌, count_p, ◌==◌}
use mizer.CommandLine.Ranges.{EntityId, single, pair, first, depth, id_le, Range, evaluate_range}
use mizer.CommandLine.Ranges.Sorted.{count-evaluate_range}

abbrev available : List EntityId
available = single 1 ∷ pair (1, 4) ∷ pair (1, 2) ∷ pair (2, 1) ∷ single 2 ∷ pair (1, 3) ∷ []

abbrev some_children : Range
some_children = record { from = pair (1, 2); to = pair (1, 3) }

children_test : evaluate_range some_children available ≡ pair (1, 2) ∷ pair (1, 3) ∷ []
unfolding evaluate_range single pair
children_test = refl

singles_test :
    evaluate_range (record { from = single 1; to = single 3 }) available
    ≡ single 1 ∷ single 2 ∷ single 3 ∷ []
unfolding evaluate_range single pair
singles_test = refl

abbrev starts_with_one : EntityId → Bool
starts_with_one id = first id == 1

count-evaluate_range_example :
    count_p starts_with_one (evaluate_range some_children available)
    ≡ count_p
        (λ id.
          depth id == depth some_children.from
          && ((id_le some_children.from id && id_le id some_children.to) && starts_with_one id))
        available
unfolding depth pair
count-evaluate_range_example =
    count-evaluate_range some_children available starts_with_one refl refl
