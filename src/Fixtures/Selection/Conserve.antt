-- ===== src/Fixtures/Selection/Conserve.antt =====
-- The results of `get_fixtures` of selection.rs.
use mathlib.Core.List.{flatten}
use mizer.Prelude.{
  ℕ, zero, suc, ◌<◌, ◌≡◌, refl, ◌⊎◌, inl, inr, ◌↔◌, ap, ◌∙◌, Bool, Option, none, some, List, [],
  ◌∷◌, map, length, replicate, count_p, total, length-replicate, total-replicate_nil,
  total-map-flatten, count_p-flatten, arith, ◌>>=◌,
}
use mizer.Fixtures.Id.{FixtureId}
use mizer.Fixtures.Selection.{
  FixtureSelection, Itertools, div_ceil, deal, reverse_odd, merge_all, in_blocks, in_groups,
  in_wings, is_empty, is_nil, get_fixtures,
}
use mizer.Fixtures.Selection.Chunks.{
  length-deal, total-deal, AreChunks-Fits, reverse_odd-Fits, length-merge_all, total-reverse_odd,
  total-merge_all,
}

-- A size that is given is not 0.
abbrev pub IsUsable : Option ℕ → Type 0
IsUsable none = Unit
IsUsable (some n) = 0 < n

-- A step returns lists with the same elements.
abbrev Keeps : List (List FixtureId) → Option (List (List FixtureId)) → Type 0
Keeps xs r =
    (out : List (List FixtureId)) × (r ≡ some out)
    × (0 < length out)
    × ((p : FixtureId → Bool) → total p out ≡ total p xs)

length-map : {A B : Type 0} (f : A → B) (xs : List A) → length (map f xs) ≡ length xs
length-map f [] = omega arith
length-map f (x ∷ xs) = omega (arith, length-map f xs)

flatten-pos :
    {A : Type 0} (xss : List (List A)) (xs : List A)
    → flatten xss ≡ xs
    → 0 < length xs
    → 0 < length xss
unfolding flatten
flatten-pos [] xs e h = omega (arith, ap length e)
flatten-pos (_ ∷ _) xs e h = omega arith

pub div_ceil-pos : (n k : ℕ) → 0 < n → 0 < k → 0 < div_ceil n k
unfolding div_ceil
div_ceil-pos n k hn hk = ground arith

module _ (it : Itertools) where
  in_blocks-Keeps :
      (b : Option ℕ) (xs : List (List FixtureId))
      → IsUsable b
      → 0 < length xs
      → Keeps xs (in_blocks it b xs)
  unfolding in_blocks
  in_blocks-Keeps none xs h pos = (xs, refl, pos, λ p. refl)
  in_blocks-Keeps (some n) xs h pos =
      let cs = it.chunks (List FixtureId) n xs in
      let e = it.flatten-chunks (List FixtureId) n xs h in
      (
        map flatten cs,
        ground (arith, h),
        omega (arith, length-map flatten cs, flatten-pos cs xs e pos),
        λ p. omega (arith, total-map-flatten p cs, ap (total p) e),
      )

  in_groups-Keeps :
      (g : Option ℕ) (xs : List (List FixtureId))
      → IsUsable g
      → 0 < length xs
      → Keeps xs (in_groups it g xs)
  unfolding in_groups
  in_groups-Keeps none xs h pos = (xs, refl, pos, λ p. refl)
  in_groups-Keeps (some n) xs h pos =
      let acc : List (List FixtureId) = replicate n [] in
      (
        deal n 0 acc xs,
        ground (arith, h),
        omega (arith, length-deal n 0 acc xs, length-replicate {A = List FixtureId} n []),
        λ p.
            omega
              (arith, total-deal p n 0 acc xs h (length-replicate n []), total-replicate_nil p n),
      )

  in_wings-Keeps :
      (w : Option ℕ) (xs : List (List FixtureId))
      → IsUsable w
      → 0 < length xs
      → Keeps xs (in_wings it w xs)
  unfolding in_wings
  in_wings-Keeps none xs h pos = (xs, refl, pos, λ p. refl)
  in_wings-Keeps (some k) xs h pos =
      let n = div_ceil (length xs) k in
      let acc : List (List FixtureId) = replicate n [] in
      let cs = it.chunks (List FixtureId) n xs in
      let n_pos : 0 < n = div_ceil-pos (length xs) k pos h in
      (
        merge_all acc (reverse_odd 0 cs),
        ground (arith, h),
        omega (
          arith,
          length-merge_all acc (reverse_odd 0 cs),
          length-replicate {A = List FixtureId} n [],
          n_pos,
        ),
        λ p. omega (
          arith,
          total-merge_all p n acc (reverse_odd 0 cs) (length-replicate n []) (
              reverse_odd-Fits n 0 cs
                (AreChunks-Fits n cs (it.chunks-AreChunks (List FixtureId) n xs n_pos))),
          total-replicate_nil p n,
          total-reverse_odd p 0 cs,
          ap (total p) (it.flatten-chunks (List FixtureId) n xs n_pos),
        ),
      )

module _ (it : Itertools) where
  Keeps->>= :
      (xs : List (List FixtureId)) (r : Option (List (List FixtureId)))
      (f : List (List FixtureId) → Option (List (List FixtureId)))
      → Keeps xs r
      → ((out : List (List FixtureId)) → 0 < length out → Keeps out (f out))
      → Keeps xs (r >>= f)
  Keeps->>= xs r f (out, e, pos, same) rest =
      let (out', e', pos', same') = rest out pos in
      (out', ap (λ r. r >>= f) e ∙ e', pos', λ p. omega (arith, same p, same' p))

  singles-total :
      (p : FixtureId → Bool) (xs : List FixtureId)
      → total p (it.chunks FixtureId 1 xs) ≡ count_p p xs
  singles-total p xs = omega (
    arith,
    count_p-flatten p (it.chunks FixtureId 1 xs),
    ap (count_p p) (it.flatten-chunks FixtureId 1 xs (omega arith)),
  )

  kept_lem :
      (xs : List FixtureId) (b g w : Option ℕ)
      → IsUsable b
      → IsUsable g
      → IsUsable w
      → (out : List (List FixtureId)) × (get_fixtures it
            (record { fixtures = xs; block_size = b; groups = g; wings = w })
          ≡ some out)
        × ((p : FixtureId → Bool) → count_p p (flatten out) ≡ count_p p xs)
  unfolding get_fixtures is_empty is_nil flatten
  kept_lem [] b g w hb hg hw = ([], refl, λ p. refl)
  kept_lem (x ∷ xs) b g w hb hg hw =
      let cs = it.chunks FixtureId 1 (x ∷ xs) in
      let pos =
        flatten-pos cs (x ∷ xs) (it.flatten-chunks FixtureId 1 (x ∷ xs) (omega arith))
          (omega arith) in
      let (out, e, _, same) =
        Keeps->>= cs (in_blocks it b cs) (λ blocks. in_groups it g blocks >>= in_wings it w)
          (in_blocks-Keeps it b cs hb pos)
          (λ blocks pos'.
            Keeps->>= blocks (in_groups it g blocks) (in_wings it w)
              (in_groups-Keeps it g blocks hg pos')
              (λ grouped pos''. in_wings-Keeps it w grouped hw pos'')) in
      (out, e, λ p. omega (arith, count_p-flatten p out, same p, singles-total p (x ∷ xs)))

  -- When no size is 0, `get_fixtures` returns, and every predicate holds of as many elements of the
  -- groups together as of the selected fixtures.
  pub get_fixtures-kept :
      (s : FixtureSelection)
      → IsUsable s.block_size
      → IsUsable s.groups
      → IsUsable s.wings
      → (out : List (List FixtureId)) × (get_fixtures it s ≡ some out)
        × ((p : FixtureId → Bool) → count_p p (flatten out) ≡ count_p p s.fixtures)
  get_fixtures-kept s = kept_lem s.fixtures s.block_size s.groups s.wings

  size-cases : (o : Option ℕ) → IsUsable o ⊎ (o ≡ some 0)
  size-cases none = inl tt
  size-cases (some zero) = inr refl
  size-cases (some (suc n)) = inl (omega arith)

  in_blocks-zero :
      (b : Option ℕ) (xs : List (List FixtureId)) → b ≡ some 0 → in_blocks it b xs ≡ none
  unfolding in_blocks
  in_blocks-zero b xs e = ap (λ b. in_blocks it b xs) e

  in_groups-zero :
      (b : Option ℕ) (xs : List (List FixtureId)) → b ≡ some 0 → in_groups it b xs ≡ none
  unfolding in_groups
  in_groups-zero b xs e = ap (λ b. in_groups it b xs) e

  in_wings-zero : (b : Option ℕ) (xs : List (List FixtureId)) → b ≡ some 0 → in_wings it b xs ≡ none
  unfolding in_wings
  in_wings-zero b xs e = ap (λ b. in_wings it b xs) e

  >>=-none :
      {A B : Type 0} (r : Option A) (f : A → Option B) → ((a : A) → f a ≡ none) → (r >>= f) ≡ none
  >>=-none none f h = refl
  >>=-none (some a) f h = h a

  panics_lem :
      (xs : List FixtureId) (b g w : Option ℕ)
      → 0 < length xs
      → (b ≡ some 0) ⊎ (g ≡ some 0) ⊎ (w ≡ some 0)
      → get_fixtures it (record { fixtures = xs; block_size = b; groups = g; wings = w }) ≡ none
  unfolding get_fixtures is_empty is_nil
  panics_lem [] b g w pos h = absurd (omega arith)
  panics_lem (x ∷ xs) b g w pos (inl e) =
      ap (◌>>= (λ blocks. in_groups it g blocks >>= in_wings it w))
        (in_blocks-zero b (it.chunks FixtureId 1 (x ∷ xs)) e)
  panics_lem (x ∷ xs) b g w pos (inr (inl e)) =
      >>=-none (in_blocks it b (it.chunks FixtureId 1 (x ∷ xs)))
        (λ blocks. in_groups it g blocks >>= in_wings it w)
        λ blocks. ap (◌>>= in_wings it w) (in_groups-zero g blocks e)
  panics_lem (x ∷ xs) b g w pos (inr (inr e)) =
      >>=-none (in_blocks it b (it.chunks FixtureId 1 (x ∷ xs)))
        (λ blocks. in_groups it g blocks >>= in_wings it w)
        λ blocks.
          >>=-none (in_groups it g blocks) (in_wings it w) λ grouped. in_wings-zero w grouped e

  returns_lem :
      (s : FixtureSelection)
      → IsUsable s.block_size
      → IsUsable s.groups
      → IsUsable s.wings
      → get_fixtures it s ≡ none
      → ⊥
  returns_lem s hb hg hw e = let (out, e', _) = get_fixtures-kept s hb hg hw in cc

  zero_lem :
      (xs : List FixtureId) (b g w : Option ℕ)
      → get_fixtures it (record { fixtures = xs; block_size = b; groups = g; wings = w }) ≡ none
      → (0 < length xs) × ((b ≡ some 0) ⊎ (g ≡ some 0) ⊎ (w ≡ some 0))
  unfolding get_fixtures is_empty is_nil
  zero_lem [] b g w e = ground arith
  zero_lem (x ∷ xs) b g w e = (
    omega arith,
    elim (size-cases b) [
      | inr h ↦ inl h
      | inl hb ↦ elim (size-cases g) [
        | inr h ↦ inr (inl h)
        | inl hg ↦ elim (size-cases w) [
          | inr h ↦ inr (inr h)
          | inl hw ↦ absurd (
              returns_lem (record { fixtures = x ∷ xs; block_size = b; groups = g; wings = w }) hb
                hg hw e)
        ]
      ]
    ],
  )

  -- `get_fixtures` panics exactly when a fixture is selected and one of the sizes is 0.
  pub get_fixtures-none_iff :
      (s : FixtureSelection)
      → (get_fixtures it s ≡ none) ↔ (
          (0 < length s.fixtures)
          × ((s.block_size ≡ some 0) ⊎ (s.groups ≡ some 0) ⊎ (s.wings ≡ some 0)))
  get_fixtures-none_iff s = (
    zero_lem s.fixtures s.block_size s.groups s.wings,
    λ h. panics_lem s.fixtures s.block_size s.groups s.wings h.0 h.1,
  )
