-- ===== src/Fixtures/Selection/Members.antt =====
-- Which fixtures a selection of selection.rs has after its operations, and how often.
use mizer.Prelude.{
  ℕ, ◌-◌, ◌≤◌, ◌<◌, ◌≡◌, refl, sym, ap, ◌∙◌, Bool, true, ◌&&◌, ◌||◌, List, [], ◌∷◌, ◌++◌, count_p,
  count_p-append, Bool-cases, inl, inr, arith, if◌then◌else◌, ◌↔◌,
}
use mizer.Fixtures.Id.{FixtureId, id_beq, id_beq_iff}
use mizer.Fixtures.Selection.{
  FixtureSelection, contains_in, contains, add_fixture, add_fixtures, remove_first, remove,
  overlaps_in, overlaps, retain_in, retain,
}

-- How often a selection has a fixture.
abbrev pub count : FixtureId → List FixtureId → ℕ
count id = count_p λ x. id_beq x id

pub contains_in-count :
    (xs : List FixtureId) (id : FixtureId) → (contains_in xs id ≡ true) ↔ (0 < count id xs)
unfolding contains_in
contains_in-count [] id = ground arith
contains_in-count (x ∷ xs) id = ground (arith, contains_in-count xs id)

pub contains_in-append :
    (xs ys : List FixtureId) (id : FixtureId)
    → contains_in (xs ++ ys) id ≡ (contains_in xs id || contains_in ys id)
unfolding contains_in
contains_in-append [] ys id = refl
contains_in-append (x ∷ xs) ys id = ground (arith, contains_in-append xs ys id)

step : FixtureSelection → FixtureId → FixtureSelection
unfolding add_fixture
step s id = if contains_in s.fixtures id then s else add_fixture s id

contains_in-beq :
    (xs : List FixtureId) (y id : FixtureId)
    → contains_in xs y ≡ true
    → id_beq y id ≡ true
    → contains_in xs id ≡ true
contains_in-beq xs y id h e = ap (contains_in xs) (sym ((id_beq_iff y id).0 e)) ∙ h

contains-step :
    (s : FixtureSelection) (y id : FixtureId)
    → contains_in (step s y).fixtures id ≡ (contains_in s.fixtures id || id_beq y id)
unfolding step add_fixture contains_in
contains-step s y id =
    ground (arith, contains_in-beq s.fixtures y id, contains_in-append s.fixtures (y ∷ []) id)

count-step :
    (s : FixtureSelection) (y id : FixtureId)
    → count id s.fixtures ≤ 1
    → count id (step s y).fixtures ≤ 1
unfolding step add_fixture
count-step s y id h = ground (
  arith,
  h,
  contains_in-beq s.fixtures y id,
  contains_in-count s.fixtures id,
  count_p-append (λ x. id_beq x id) s.fixtures (y ∷ []),
)

-- After `add_fixtures` a selection contains what it contained and what was added.
pub contains-add_fixtures :
    (s : FixtureSelection) (ids : List FixtureId) (id : FixtureId)
    → contains (add_fixtures s ids) id ≡ (contains s id || contains_in ids id)
unfolding contains contains_in add_fixtures step
contains-add_fixtures s [] id = ground arith
contains-add_fixtures s (y ∷ ys) id =
    ground (arith, contains-add_fixtures (step s y) ys id, contains-step s y id)

-- `add_fixtures` doubles no fixture.
pub count-add_fixtures :
    (s : FixtureSelection) (ids : List FixtureId) (id : FixtureId)
    → count id s.fixtures ≤ 1
    → count id (add_fixtures s ids).fixtures ≤ 1
unfolding contains add_fixtures step
count-add_fixtures s [] id h = h
count-add_fixtures s (y ∷ ys) id h = count-add_fixtures (step s y) ys id (count-step s y id h)

count-remove_first :
    (xs : List FixtureId) (id j : FixtureId)
    → count j (remove_first id xs) ≡ (if id_beq id j then count j xs - 1 else count j xs)
unfolding remove_first
count-remove_first [] id j = ground arith
count-remove_first (x ∷ xs) id j =
    ground (arith, id_beq_iff x id, id_beq_iff x j, id_beq_iff id j, count-remove_first xs id j)

contains_in_refl : (y : FixtureId) (ys : List FixtureId) → contains_in (y ∷ ys) y ≡ true
unfolding contains_in
contains_in_refl y ys = ground (arith, (id_beq_iff y y).1 refl)

Common : List FixtureId → List FixtureId → Type 0
Common xs ys = (id : FixtureId) × (contains_in xs id ≡ true) × (contains_in ys id ≡ true)

Common-cons : (xs ys : List FixtureId) (y : FixtureId) → Common xs ys → Common xs (y ∷ ys)
unfolding contains_in Common
Common-cons xs ys y (id, h, h') = (id, h, ground (arith, h'))

overlaps_in-Common : (xs ys : List FixtureId) → overlaps_in xs ys ≡ true → Common xs ys
unfolding overlaps_in Common
overlaps_in-Common xs [] e = ground arith
overlaps_in-Common xs (y ∷ ys) e = elim (Bool-cases (contains_in xs y)) [
  | inl h ↦ (y, h, contains_in_refl y ys)
  | inr h ↦ Common-cons xs ys y (overlaps_in-Common xs ys (ground (arith, e, h)))
]

Common-overlaps_in :
    (xs ys : List FixtureId) (id : FixtureId)
    → contains_in xs id ≡ true
    → contains_in ys id ≡ true
    → overlaps_in xs ys ≡ true
unfolding overlaps_in contains_in
Common-overlaps_in xs [] id h h' = h'
Common-overlaps_in xs (y ∷ ys) id h h' = elim (Bool-cases (id_beq y id)) [
  | inl e ↦ ground (arith, ap (contains_in xs) ((id_beq_iff y id).0 e), h)
  | inr e ↦ ground (arith, Common-overlaps_in xs ys id h (ground (arith, e, h')))
]

-- `remove` takes one occurrence of the fixture away, if there is one, and no other fixture.
pub count-remove :
    (s : FixtureSelection) (id j : FixtureId)
    → count j (remove s id).fixtures
      ≡ (if id_beq id j then count j s.fixtures - 1 else count j s.fixtures)
unfolding remove
count-remove s id j = count-remove_first s.fixtures id j

-- Two selections overlap exactly if a fixture is in both.
pub overlaps_iff :
    (s other : FixtureSelection)
    → (overlaps s other ≡ true)
      ↔ ((id : FixtureId) × (contains s id ≡ true) × (contains other id ≡ true))
unfolding overlaps contains Common
overlaps_iff s other = (
  overlaps_in-Common s.fixtures other.fixtures,
  λ (id, h, h'). Common-overlaps_in s.fixtures other.fixtures id h h',
)

retain_in-lem :
    (f : FixtureId → Bool) (xs : List FixtureId) (id : FixtureId)
    → contains_in (retain_in f xs) id ≡ (contains_in xs id && f id)
unfolding retain_in contains_in
retain_in-lem f [] id = refl
retain_in-lem f (x ∷ xs) id = elim (Bool-cases (id_beq x id)) [
  | inl h ↦ ground (arith, ap f ((id_beq_iff x id).0 h), retain_in-lem f xs id)
  | inr h ↦ ground (arith, retain_in-lem f xs id)
]

-- `retain` keeps exactly the fixtures that the test holds of.
pub contains-retain :
    (f : FixtureId → Bool) (s : FixtureSelection) (id : FixtureId)
    → contains (retain f s) id ≡ (contains s id && f id)
unfolding contains retain
contains-retain f s id = retain_in-lem f s.fixtures id
