-- ===== src/CommandLine/Ranges/Sorted.antt =====
-- What `evaluate_range` of the command line gives: which identifiers, and in which order.
use mizer.Prelude.{
  ℕ, zero, suc, ◌+◌, ◌-◌, ◌≡◌, refl, sym, subst, ◌∙◌, arith, Bool, true, false, ◌&&◌, not,
  Bool-cases, inl, inr, List, [], ◌∷◌, count_p, ◌==◌, if◌then◌else◌,
}
use mizer.CommandLine.Ranges.{
  EntityId, single, deref, first, depth, slice_cmp, cmp, is_le, id_le, Range, up_from, keep,
  insert_sorted, sort, is_between, evaluate_range,
}

unfoldable pub IsSorted : List EntityId → Type 0
IsSorted [] = Unit
IsSorted (x ∷ []) = Unit
IsSorted (x ∷ y ∷ ys) = (id_le x y ≡ true) × IsSorted (y ∷ ys)

slice_cmp-total :
    (xs ys : List ℕ) → is_le (slice_cmp xs ys) ≡ false → is_le (slice_cmp ys xs) ≡ true
unfolding slice_cmp is_le
slice_cmp-total [] [] h = refl
slice_cmp-total [] (y ∷ ys) h = ground (arith, h)
slice_cmp-total (x ∷ xs) [] h = refl
slice_cmp-total (x ∷ xs) (y ∷ ys) h = ground (arith, h, slice_cmp-total xs ys)

id_le-total : (a b : EntityId) → id_le a b ≡ false → id_le b a ≡ true
unfolding id_le cmp
id_le-total a b h = slice_cmp-total (deref a) (deref b) h

cons-insert_sorted :
    (y x : EntityId) (ys : List EntityId)
    → id_le y x ≡ true
    → IsSorted (y ∷ ys)
    → IsSorted (y ∷ insert_sorted x ys)
unfolding insert_sorted IsSorted
cons-insert_sorted y x [] le h = (le, tt)
cons-insert_sorted y x (z ∷ zs) le h = elim (Bool-cases (id_le x z)) [
  | inl t ↦
      subst (λ (b : Bool). IsSorted (y ∷ (if b then x ∷ z ∷ zs else z ∷ insert_sorted x zs)))
        (sym t) (le, (t, h.1))
  | inr f ↦
      subst (λ (b : Bool). IsSorted (y ∷ (if b then x ∷ z ∷ zs else z ∷ insert_sorted x zs)))
        (sym f) (h.0, cons-insert_sorted z x zs (id_le-total x z f) h.1)
]

insert_sorted-IsSorted :
    (x : EntityId) (ys : List EntityId) → IsSorted ys → IsSorted (insert_sorted x ys)
unfolding insert_sorted IsSorted
insert_sorted-IsSorted x [] h = tt
insert_sorted-IsSorted x (y ∷ ys) h = elim (Bool-cases (id_le x y)) [
  | inl t ↦
      subst (λ (b : Bool). IsSorted (if b then x ∷ y ∷ ys else y ∷ insert_sorted x ys)) (sym t)
        (t, h)
  | inr f ↦
      subst (λ (b : Bool). IsSorted (if b then x ∷ y ∷ ys else y ∷ insert_sorted x ys)) (sym f)
        (cons-insert_sorted y x ys (id_le-total x y f) h)
]

sort-IsSorted : (xs : List EntityId) → IsSorted (sort xs)
unfolding sort IsSorted
sort-IsSorted [] = tt
sort-IsSorted (x ∷ xs) = insert_sorted-IsSorted x (sort xs) (sort-IsSorted xs)

single-le : (n : ℕ) → id_le (single n) (single (n + 1)) ≡ true
unfolding id_le cmp is_le slice_cmp deref single
single-le n = ground arith

up_from-IsSorted : (n k : ℕ) → IsSorted (up_from n k)
unfolding up_from IsSorted
up_from-IsSorted n zero = tt
up_from-IsSorted n (suc zero) = tt
up_from-IsSorted n (suc (suc k)) = (single-le n, up_from-IsSorted (n + 1) (suc k))

if-IsSorted :
    (b c : Bool) (xs ys : List EntityId)
    → IsSorted xs
    → IsSorted ys
    → IsSorted (if b then [] else if c then xs else ys)
unfolding IsSorted
if-IsSorted true c xs ys h h' = tt
if-IsSorted false true xs ys h h' = h
if-IsSorted false false xs ys h h' = h'

-- The identifiers that a range gives are in order, in all cases.
pub evaluate_range-IsSorted :
    (r : Range) (available_ids : List EntityId) → IsSorted (evaluate_range r available_ids)
unfolding evaluate_range
evaluate_range-IsSorted r available_ids =
    if-IsSorted (not (depth r.from == depth r.to)) (depth r.from == 1)
      (up_from (first r.from) (first r.to + 1 - first r.from))
      (sort (keep (is_between r) (keep (λ id. depth id == depth r.from) available_ids)))
      (up_from-IsSorted (first r.from) (first r.to + 1 - first r.from))
      (sort-IsSorted (keep (is_between r) (keep (λ id. depth id == depth r.from) available_ids)))

count-insert_sorted :
    (p : EntityId → Bool) (x : EntityId) (ys : List EntityId)
    → count_p p (insert_sorted x ys) ≡ count_p p (x ∷ ys)
unfolding insert_sorted
count-insert_sorted p x [] = refl
count-insert_sorted p x (y ∷ ys) = ground (arith, count-insert_sorted p x ys)

count-sort : (p : EntityId → Bool) (xs : List EntityId) → count_p p (sort xs) ≡ count_p p xs
unfolding sort
count-sort p [] = refl
count-sort p (x ∷ xs) = omega (arith, count-insert_sorted p x (sort xs), count-sort p xs)

count-keep :
    (p q : EntityId → Bool) (xs : List EntityId)
    → count_p p (keep q xs) ≡ count_p (λ id. q id && p id) xs
unfolding keep
count-keep p q [] = refl
count-keep p q (x ∷ xs) = ground (arith, count-keep p q xs)

-- A range between identifiers of the same depth, which is not 1, gives each available identifier of that
-- depth that is not before the first and not behind the last, as often as it is available, and no other.
pub count-evaluate_range :
    (r : Range) (available_ids : List EntityId) (p : EntityId → Bool)
    → depth r.from ≡ depth r.to
    → (depth r.from == 1) ≡ false
    → count_p p (evaluate_range r available_ids)
      ≡ count_p
          (λ id. depth id == depth r.from && ((id_le r.from id && id_le id r.to) && p id))
          available_ids
unfolding evaluate_range is_between
count-evaluate_range r available_ids p same deep =
    let kept = keep (λ id. depth id == depth r.from) available_ids in
    ground (arith, same, deep)
    ∙ count-sort p (keep (is_between r) kept)
    ∙ count-keep p (is_between r) kept
    ∙ count-keep (λ id. is_between r id && p id) (λ id. depth id == depth r.from) available_ids
