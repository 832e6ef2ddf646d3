-- ===== src/Sequencer/Merge.antt =====
-- `merge_controls` and `merge_presets` of crates/components/sequencer/src/cue.rs: storing what was
-- programmed in a cue. A panic is `none`.
pub mod Assigned
pub mod Second
use mathlib.Core.List.{flatten}
use mizer.Prelude.{
  ℕ, Bool, true, false, ◌&&◌, ◌||◌, not, Option, none, some, List, [], ◌∷◌, ◌++◌, ◌==◌,
  if◌then◌else◌, ◌>>=◌,
}
use mizer.Fixtures.Id.{FixtureId}
use mizer.Fixtures.Selection.{
  FixtureSelection, Itertools, add_fixture, contains, overlaps, retain, is_empty, get_fixtures,
}
use mizer.Sequencer.Value.{SequencerValue, direct, range}
use mizer.Sequencer.Time.{Rig}
use mizer.Sequencer.Cue.{Cue, CueControl, CuePreset}

module _ {A : Type 0} where
  -- `iter_mut().find(…)` and what is done to the element found
  unfoldable pub update_first : (A → Bool) → (A → A) → List A → List A
  update_first p f [] = []
  update_first p f (x ∷ xs) = let rest = update_first p f xs in if p x then f x ∷ xs else x ∷ rest

  unfoldable pub any : (A → Bool) → List A → Bool
  any p [] = false
  any p (x ∷ xs) = p x || any p xs

  -- `Vec::retain`
  unfoldable pub filter : (A → Bool) → List A → List A
  filter p [] = []
  filter p (x ∷ xs) = let rest = filter p xs in if p x then x ∷ rest else rest

unfoldable pub add_each : FixtureSelection → List FixtureId → FixtureSelection
unfolding add_fixture
add_each s [] = s
add_each s (id ∷ ids) = add_each (add_fixture s id) ids

module _ (it : Itertools) (rig : Rig) where
  -- `derive(PartialEq)` of `SequencerValue`
  unfoldable pub value_beq : SequencerValue rig.F64 → SequencerValue rig.F64 → Bool
  value_beq (direct a) (direct b) = rig.eq a b
  value_beq (range a b) (range c d) = rig.eq a c && rig.eq b d
  value_beq _ _ = false

  -- A control from which the fixtures of the new one may have to go
  unfoldable pub is_overlapped : CueControl rig → CueControl rig → Bool
  unfolding overlaps
  is_overlapped new c = rig.control_eq.beq c.control new.control && overlaps c.fixtures new.fixtures

  unfoldable pub without : CueControl rig → CueControl rig → CueControl rig
  unfolding retain contains
  without new c = record c { fixtures = retain (λ id. not (contains new.fixtures id)) c.fixtures }

  unfoldable pub is_same : CueControl rig → CueControl rig → Bool
  unfolding value_beq
  is_same new c = rig.control_eq.beq c.control new.control && value_beq c.value new.value

  unfoldable pub with_ids : List FixtureId → CueControl rig → CueControl rig
  unfolding add_each
  with_ids ids c = record c { fixtures = add_each c.fixtures ids }

  unfoldable pub store : CueControl rig → List (CueControl rig) → Option (List (CueControl rig))
  unfolding is_same with_ids any update_first get_fixtures
  store new cs =
      if any (is_same new) cs
      then (get_fixtures it new.fixtures >>= λ groups.
          some (update_first (is_same new) (with_ids (flatten groups)) cs))
      else some (cs ++ new ∷ [])

  unfoldable pub merge_one : CueControl rig → List (CueControl rig) → Option (List (CueControl rig))
  unfolding store is_overlapped without update_first
  merge_one new cs = store new (update_first (is_overlapped new) (without new) cs)

  unfoldable pub merge_each :
      List (CueControl rig) → List (CueControl rig) → Option (List (CueControl rig))
  unfolding merge_one
  merge_each [] cs = some cs
  merge_each (new ∷ rest) cs = merge_one new cs >>= merge_each rest

  unfoldable pub is_used : CueControl rig → Bool
  unfolding is_empty
  is_used c = not (is_empty c.fixtures)

  unfoldable pub merge_controls : Cue rig → List (CueControl rig) → Option (Cue rig)
  unfolding merge_each is_used filter
  merge_controls cue controls =
      merge_each controls cue.controls >>= λ cs. some (record cue { controls = filter is_used cs })

-- A preset that the programmer holds: its kind, its number and its fixtures
strip : CuePreset → CuePreset → CuePreset
unfolding retain contains
strip new old =
    if old.preset_type == new.preset_type
    then record old { fixtures = retain (λ id. not (contains new.fixtures id)) old.fixtures }
    else old

strip_all : CuePreset → List CuePreset → List CuePreset
unfolding strip
strip_all new [] = []
strip_all new (p ∷ ps) = strip new p ∷ strip_all new ps

strip_each : List CuePreset → List CuePreset → List CuePreset
unfolding strip_all
strip_each [] old = old
strip_each (new ∷ rest) old = strip_each rest (strip_all new old)

unfoldable pub has_fixtures : CuePreset → Bool
unfolding is_empty
has_fixtures p = not (is_empty p.fixtures)

unfoldable pub merge_presets : {rig : Rig} → Cue rig → List CuePreset → Cue rig
unfolding strip_each has_fixtures filter
merge_presets cue presets = record cue {
  presets = filter has_fixtures (strip_each presets cue.presets) ++ presets;
}
