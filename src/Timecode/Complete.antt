-- ===== src/Timecode/Complete.antt =====
-- The values of controls in the timecode tracks, counted.
pub mod Tracks
use Prim.Native.String.{String}
use mizer.Prelude.{
  ◌≡◌, refl, sym, ap, ◌∙◌, arith, ℕ, ◌+◌, ◌<◌, ◌^◌, Bool, true, false, Bool-cases, Option-cases,
  inl, inr, Option, none, some, List, [], ◌∷◌, ◌++◌, ◌==◌, ==_iff, if◌then◌else◌, subst,
}
use mizer.Prelude.Maps.{Map, lookup, insert, erase, nat_eq, lookup-insert, lookup-erase}
use mizer.Commander.Find.Laws.{NoneHas}
use mizer.Layouts.Store.{remove_first}
use mizer.Layouts.Store.Laws.{remove_first-split, NoneHas-remove_first}
use mizer.Timecode.{
  Splines, TimecodeControl, TimecodeTrack, TimecodeControlValues, TimecodeManager, map_values,
  empty_values, controls_of, add_timecode, insert_timecode, remove_timecode, update_timecode,
  with_track,
}
use mizer.Timecode.Controls.{has_values}

abbrev pub held : Option TimecodeControl → ℕ
held none = 0
held (some c) = 1

-- A control is found under its own identifier, and under no other.
abbrev pub IsKeyed : Map ℕ TimecodeControl → Type 0
IsKeyed [] = Unit
IsKeyed ((k, c) ∷ m) = (c.id ≡ k) × (lookup k m ≡ none) × IsKeyed m

pub insert-IsKeyed :
    (c : TimecodeControl) (m : Map ℕ TimecodeControl) → IsKeyed m → IsKeyed (insert c.id c m)
unfolding insert
insert-IsKeyed c [] h = (refl, unfold lookup in refl, tt)
insert-IsKeyed c ((k, d) ∷ m) h = elim (Bool-cases (k == c.id)) [
  | inl same ↦ rw same (refl, subst (λ n. lookup n m ≡ none) (ground (arith, same)) h.1, h.2)
  | inr other ↦ rw other (
    h.0,
    rw (lookup-insert c.id k c m) (ground (arith, ==_iff c.id k, h.1)),
    insert-IsKeyed c m h.2,
  )
]

pub erase-IsKeyed : (id : ℕ) (m : Map ℕ TimecodeControl) → IsKeyed m → IsKeyed (erase id m)
unfolding erase
erase-IsKeyed id [] h = tt
erase-IsKeyed id ((k, d) ∷ m) h = elim (Bool-cases (k == id)) [
  | inl same ↦ rw same (erase-IsKeyed id m h.2)
  | inr other ↦
      rw other (h.0, rw (lookup-erase id k m) (ground (arith, h.1)), erase-IsKeyed id m h.2)
]

module _ (splines : Splines) where
  abbrev Values : Type 0
  Values = TimecodeControlValues splines

  unfoldable pub count_values : ℕ → List Values → ℕ
  count_values id [] = 0
  count_values id (v ∷ vs) = let rest = count_values id vs in if v.id == id then 1 + rest else rest

  pub count_values-push :
      (id : ℕ) (vs : List Values) (v : Values)
      → count_values id (vs ++ v ∷ []) ≡ count_values id (v ∷ vs)
  unfolding count_values
  count_values-push id [] v = refl
  count_values-push id (u ∷ vs) v = ground (arith, count_values-push id vs v)

  count_values-middle :
      (id : ℕ) (us : List Values) (v : Values) (vs : List Values)
      → count_values id (us ++ v ∷ vs) ≡ count_values id (v ∷ us ++ vs)
  unfolding count_values
  count_values-middle id [] v vs = refl
  count_values-middle id (u ∷ us) v vs = ground (arith, count_values-middle id us v vs)

  pub count_values-remove_first :
      (j id : ℕ) (vs : List Values) (v : Values) (ws : List Values)
      → remove_first (has_values splines id) vs ≡ some (v, ws)
      → (v.id ≡ id) × (count_values j vs ≡ count_values j (v ∷ ws))
  count_values-remove_first j id vs v ws h =
      let (before, after, shape, none_before, holds, left) =
        remove_first-split (has_values splines id) vs v ws h in
      (
        ground (arith, holds),
        ap (count_values j) shape
            ∙ count_values-middle j before v after
            ∙ ap (λ (xs : List Values). count_values j (v ∷ xs)) (sym left),
      )

  pub count_values-none :
      (id : ℕ) (vs : List Values) → NoneHas (has_values splines id) vs → count_values id vs ≡ 0
  unfolding count_values
  count_values-none id [] h = refl
  count_values-none id (u ∷ vs) h = rw (h.0, count_values-none id vs h.1) refl

  count_values-controls_of :
      (j : ℕ) (m : Map ℕ TimecodeControl)
      → IsKeyed m
      → count_values j (controls_of splines m) ≡ held (lookup j m)
  unfolding count_values controls_of lookup
  count_values-controls_of j [] h = refl
  count_values-controls_of j ((k, c) ∷ m) h = ground (
    arith,
    ==_iff k j,
    ==_iff c.id j,
    h.0,
    λ (e : k ≡ j). subst (λ n. lookup n m ≡ none) e h.1,
    count_values-controls_of j m h.2,
  )

  -- A track has values of every control once, and of no other.
  abbrev pub Complete : Map ℕ TimecodeControl → TimecodeTrack splines → Type 0
  Complete controls t = (j : ℕ) → count_values j t.controls ≡ held (lookup j controls)

  abbrev pub AllComplete : Map ℕ TimecodeControl → Map ℕ (TimecodeTrack splines) → Type 0
  AllComplete controls [] = Unit
  AllComplete controls ((_, t) ∷ ts) = Complete controls t × AllComplete controls ts

  -- So has every track of a manager, of which the counter is behind all controls.
  pub record IsComplete (m : TimecodeManager splines) : Type 0 where
    pub tracks : AllComplete m.controls m.timecodes
    pub keyed : IsKeyed m.controls
    pub fresh : (j : ℕ) → lookup (m.control_counter + j) m.controls ≡ none
