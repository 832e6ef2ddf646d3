-- ===== src/CommandLine/Ranges.antt =====
-- `Id` of crates/components/command-line/src/lib.rs, here EntityId, and `Range::evaluate_range` of
-- ast/mod.rs.
pub mod Sorted
use Prim.Native.Nat.{compare, Ordering}
use mizer.Prelude.{
  ℕ, zero, suc, ◌+◌, ◌-◌, Bool, true, false, ◌&&◌, not, List, [], ◌∷◌, ◌++◌, take, leb, ◌==◌,
  if◌then◌else◌,
}

-- The array has two numbers.
pub record EntityId : Type 0 where
  pub array : ℕ × ℕ
  pub len : ℕ

unfoldable pub single : ℕ → EntityId
single id = record { array = (id, 0); len = 1 }

-- `Id::new`
unfoldable pub pair : ℕ × ℕ → EntityId
pair slice = record { array = slice; len = 2 }

-- `Deref`
unfoldable pub deref : EntityId → List ℕ
deref id = take id.len (id.array.0 ∷ id.array.1 ∷ [])

unfoldable pub first : EntityId → ℕ
first id = id.array.0

unfoldable pub depth : EntityId → ℕ
depth id = id.len

-- The order of slices
unfoldable pub slice_cmp : List ℕ → List ℕ → Ordering
slice_cmp [] [] = Ordering.eq
slice_cmp [] (_ ∷ _) = Ordering.lt
slice_cmp (_ ∷ _) [] = Ordering.gt
slice_cmp (x ∷ xs) (y ∷ ys) =
    let rest = slice_cmp xs ys in elim (compare x y) [ Ordering.eq ↦ rest | o ↦ o ]

unfoldable pub cmp : EntityId → EntityId → Ordering
unfolding deref slice_cmp
cmp a b = slice_cmp (deref a) (deref b)

unfoldable pub is_le : Ordering → Bool
is_le Ordering.gt = false
is_le _ = true

unfoldable pub id_le : EntityId → EntityId → Bool
unfolding cmp is_le
id_le a b = is_le (cmp a b)

pub record Range : Type 0 where
  pub from : EntityId
  pub to : EntityId

-- `(from..=to).map(EntityId::single)`, as a number of identifiers from the first on
unfoldable pub up_from : ℕ → ℕ → List EntityId
unfolding single
up_from n zero = []
up_from n (suc k) = single n ∷ up_from (n + 1) k

unfoldable pub keep : (EntityId → Bool) → List EntityId → List EntityId
keep p [] = []
keep p (x ∷ xs) = let rest = keep p xs in if p x then x ∷ rest else rest

-- `sort`, which is stable
unfoldable pub insert_sorted : EntityId → List EntityId → List EntityId
unfolding id_le
insert_sorted x [] = x ∷ []
insert_sorted x (y ∷ ys) =
    let rest = insert_sorted x ys in if id_le x y then x ∷ y ∷ ys else y ∷ rest

unfoldable pub sort : List EntityId → List EntityId
unfolding insert_sorted
sort [] = []
sort (x ∷ xs) = insert_sorted x (sort xs)

unfoldable pub is_between : Range → EntityId → Bool
unfolding id_le
is_between r id = id_le r.from id && id_le id r.to

unfoldable pub evaluate_range : Range → List EntityId → List EntityId
unfolding depth first up_from keep sort is_between
evaluate_range r available_ids =
    if not (depth r.from == depth r.to)
    then []
    else if depth r.from == 1
    then up_from (first r.from) (first r.to + 1 - first r.from)
    else sort (keep (is_between r) (keep (λ id. depth id == depth r.from) available_ids))
