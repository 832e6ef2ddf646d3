-- ===== src/Sequencer/Values.antt =====
-- `CueControl::values` of crates/components/sequencer/src/cue.rs: what a control of a running cue writes
-- to each of its fixtures. A panic is `none`.
use mathlib.Core.List.{flatten}
use mizer.Prelude.{
  ℕ, ◌+◌, Bool, true, false, Option, none, some, List, [], ◌∷◌, ◌++◌, length, ltb, if◌then◌else◌,
  ◌>>=◌,
}
use mizer.Prelude.Maps.{Map, lookup, insert}
use mizer.Fixtures.Id.{FixtureId, id_beq, id_eq}
use mizer.Fixtures.Selection.{Itertools, get_fixtures}
use mizer.Sequencer.Value.{SequencerValue, direct, range}
use mizer.Sequencer.Time.{Rig, SequencerTime, seconds, beats, linear_extrapolate}
use mizer.Sequencer.Cue.{Cue, CueControl}
use mizer.Sequencer.State.{SequenceState, CueChannel, CueChannelState, fading, key_eq}
use mizer.Sequencer.Progress.{get_timer, get_beats_passed}

module _ (it : Itertools) (rig : Rig) where
  -- The values that are to be written, none for a fixture that waits
  abbrev Values : Type 0
  Values = Map FixtureId (Option rig.F64)

  -- `SequenceState::get_fixture_value`, 0 if there is none
  unfoldable pub get_fixture_value : SequenceState rig → FixtureId → rig.Control → Option rig.F64
  unfolding lookup
  get_fixture_value s id control = lookup ⦃e = key_eq rig⦄ (id, control) s.fixture_values

  unfoldable pub set_fixture_value :
      SequenceState rig → FixtureId → rig.Control → rig.F64 → SequenceState rig
  unfolding insert
  set_fixture_value s id control value = record s {
    fixture_values = insert ⦃e = key_eq rig⦄ (id, control) value s.fixture_values;
  }

  with_value : rig.F64 → List FixtureId → List (FixtureId × rig.F64)
  with_value v [] = []
  with_value v (id ∷ ids) = (id, v) ∷ with_value v ids

  shares : ℕ → ℕ → rig.F64 × rig.F64 → List (List FixtureId) → List (FixtureId × rig.F64)
  unfolding linear_extrapolate with_value
  shares i count to [] = []
  shares i count to (ids ∷ rest) =
      with_value
        (linear_extrapolate rig (rig.from_nat i) (rig.zero, rig.sub (rig.from_nat count) rig.one)
          to)
        ids
      ++ shares (i + 1) count to rest

  -- The calls that `interpolate` makes of its callback
  unfoldable pub interpolate :
      CueControl rig → rig.F64 × rig.F64 → Option (List (FixtureId × rig.F64))
  unfolding get_fixtures shares
  interpolate c to = do
    groups ← get_fixtures it c.fixtures
    some (shares 0 (length groups) to groups)

  set_each : (rig.F64 → Option rig.F64) → List (FixtureId × rig.F64) → Values → Values
  unfolding insert
  set_each f [] m = m
  set_each f ((id, v) ∷ rest) m = set_each f rest (insert id (f v) m)

  set_all : Option rig.F64 → Values → Values
  set_all v [] = []
  set_all v ((id, _) ∷ m) = (id, v) ∷ set_all v m

  none_for : List FixtureId → Values → Values
  unfolding insert
  none_for [] m = m
  none_for (id ∷ ids) m = none_for ids (insert id none m)

  unfoldable pub fill_values : CueControl rig → Values → Option Values
  unfolding interpolate set_each set_all
  fill_values c m = elim c.value [
    | direct v ↦ some (set_all (some v) m)
    | range from to ↦ interpolate c (from, to) >>= λ vs. some (set_each some vs m)
  ]

  wait_each : (rig.F64 → Option Bool) → List (FixtureId × rig.F64) → Values → Option Values
  unfolding insert
  wait_each waits [] m = some m
  wait_each waits ((id, d) ∷ rest) m = do
    w ← waits d
    wait_each waits rest (if w then insert id none m else m)

  waits_for_time : SequenceState rig → rig.F64 → Option Bool
  unfolding get_timer
  waits_for_time s d = rig.from_secs d >>= λ t. some (ltb (get_timer rig s) t)

  waits_for_beats : SequenceState rig → rig.F64 → Option Bool
  unfolding get_beats_passed
  waits_for_beats s d = some (rig.lt (get_beats_passed rig s) d)

  delay_all : Option Bool → Values → Option Values
  unfolding set_all
  delay_all w m = w >>= λ b. some (if b then set_all none m else m)

  -- A range from seconds to beats or the other way round is unreachable, and panics.
  unfoldable pub delay_values :
      Option (SequencerValue (SequencerTime rig))
      → CueControl rig
      → SequenceState rig
      → Values
      → Option Values
  unfolding interpolate delay_all wait_each waits_for_time waits_for_beats
  delay_values none c s m = some m
  delay_values (some (direct (seconds d))) c s m = delay_all (waits_for_time s d) m
  delay_values (some (range (seconds from) (seconds to))) c s m =
      interpolate c (from, to) >>= λ ds. wait_each (waits_for_time s) ds m
  delay_values (some (direct (beats d))) c s m = delay_all (waits_for_beats s d) m
  delay_values (some (range (beats from) (beats to))) c s m =
      interpolate c (from, to) >>= λ ds. wait_each (waits_for_beats s) ds m
  delay_values (some (range _ _)) c s m = none

  -- The value on the way from the previous one
  faded : rig.F64 → rig.F64 → rig.F64 → rig.F64 → Option rig.F64
  unfolding linear_extrapolate
  faded time previous value duration =
      some (linear_extrapolate rig time (rig.zero, duration) (previous, value))

  fade_own : FixtureId → (rig.F64 → Option rig.F64) → List (FixtureId × rig.F64) → Values → Values
  unfolding insert
  fade_own own f [] m = m
  fade_own own f ((id, d) ∷ rest) m =
      fade_own own f rest (if id_beq id own then insert id (f d) m else m)

  fade_one :
      Option (SequencerValue (SequencerTime rig))
      → CueControl rig
      → FixtureId
      → CueChannel rig
      → rig.F64
      → rig.F64
      → Values
      → Option Values
  unfolding faded fade_own interpolate insert
  fade_one none c id ch previous value m = some m
  fade_one (some (direct (seconds d))) c id ch previous value m =
      some (insert id (faded (rig.as_secs ch.duration.time) previous value d) m)
  fade_one (some (range (seconds from) (seconds to))) c id ch previous value m = do
    ds ← interpolate c (from, to)
    some (fade_own id (faded (rig.as_secs ch.duration.time) previous value) ds m)
  fade_one (some (direct (beats d))) c id ch previous value m =
      some (insert id (faded ch.duration.beat previous value d) m)
  fade_one (some (range (beats from) (beats to))) c id ch previous value m = do
    ds ← interpolate c (from, to)
    some (fade_own id (faded ch.duration.beat previous value) ds m)
  fade_one (some (range _ _)) c id ch previous value m = none

  or_zero : Option rig.F64 → rig.F64
  or_zero none = rig.zero
  or_zero (some v) = v

  is_fading : CueChannelState → Bool
  is_fading fading = true
  is_fading _ = false

  fade_fixture :
      Cue rig
      → CueControl rig
      → SequenceState rig
      → FixtureId
      → Option (CueChannel rig)
      → Option (Option rig.F64)
      → Values
      → Option Values
  unfolding fade_one or_zero is_fading get_fixture_value
  fade_fixture cue c s id (some ch) (some (some value)) m =
      if is_fading ch.state
      then fade_one cue.cue_fade c id ch (or_zero (get_fixture_value s id c.control)) value m
      else some m
  fade_fixture cue c s id _ _ m = some m

  fade_each : Cue rig → CueControl rig → SequenceState rig → List FixtureId → Values → Option Values
  unfolding fade_fixture lookup
  fade_each cue c s [] m = some m
  fade_each cue c s (id ∷ ids) m =
      fade_fixture cue c s id (lookup ⦃e = key_eq rig⦄ (id, c.control) s.channel_state)
        (lookup id m) m
      >>= fade_each cue c s ids

  unfoldable pub fade_values : Cue rig → CueControl rig → SequenceState rig → Values → Option Values
  unfolding fade_each get_fixtures
  fade_values cue c s m = do
    groups ← get_fixtures it c.fixtures
    fade_each cue c s (flatten groups) m

  unfoldable pub values : CueControl rig → Cue rig → SequenceState rig → Option Values
  unfolding none_for fill_values delay_values fade_values get_fixtures
  values c cue s = do
    groups ← get_fixtures it c.fixtures
    filled ← fill_values c (none_for (flatten groups) [])
    delayed ← delay_values cue.cue_delay c s filled
    fade_values cue c s delayed
