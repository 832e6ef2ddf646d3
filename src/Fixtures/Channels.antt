-- ===== src/Fixtures/Channels.antt =====
-- `ChannelsWithValues` of crates/components/fixtures/src/channel_values.rs: the channels of a fixture
-- with their values, by name.
use Prim.Native.String.{String}
use text.Mathlib.Text.{◌==◌ as str_eq}
use text.Mathlib.TextEquality.{eq_iff}
use mizer.Prelude.{ℕ, Option, none, some, List, [], ◌∷◌, ◌>>=◌}
use mizer.Prelude.Maps.{Eq, Map, lookup, insert}
use mizer.Fixtures.Priority.{FixturePriority, default}
use mizer.Fixtures.ChannelValues.{
  FadeTimings, ChannelValues, default_values, insert_value, set_master,
}
use mizer.Fixtures.ChannelValues
use mizer.Sequencer.Time.{Rig}

instance abbrev pub string_eq : Eq String
string_eq = record { beq = str_eq; beq_iff = eq_iff }

module _ (rig : Rig) where
  abbrev pub Channels : Type 0
  Channels = Map String (ChannelValues rig)

  unfoldable pub flush : ℕ → Channels → Option Channels
  unfolding ChannelValues.flush
  flush now [] = some []
  flush now ((name, c) ∷ channels) = do
    c' ← ChannelValues.flush rig now c
    channels' ← flush now channels
    some ((name, c') ∷ channels')

  unfoldable pub clear : Channels → Channels
  unfolding ChannelValues.clear
  clear [] = []
  clear ((name, c) ∷ channels) = (name, ChannelValues.clear rig c) ∷ clear channels

  mastered_in : String → rig.F64 → Channels → Option (ChannelValues rig) → Channels
  unfolding insert set_master
  mastered_in name value channels none = channels
  mastered_in name value channels (some c) = insert name (set_master rig value c) channels

  unfoldable pub apply_master : String → rig.F64 → Channels → Channels
  unfolding mastered_in lookup
  apply_master name value channels = mastered_in name value channels (lookup name channels)

  or_default : Option (ChannelValues rig) → ChannelValues rig
  unfolding default_values
  or_default (some c) = c
  or_default none = default_values rig

  -- A channel that is not there yet is inserted after its value, one that is there is changed.
  unfoldable pub write_priority_with_timings :
      String → rig.F64 → FixturePriority → Option ℕ → FadeTimings → Channels → Channels
  unfolding insert insert_value or_default lookup
  write_priority_with_timings name value priority source fade_timings channels =
      insert name
        (insert_value rig value priority source fade_timings (or_default (lookup name channels)))
        channels

  unfoldable pub write_priority : String → rig.F64 → FixturePriority → Channels → Channels
  unfolding write_priority_with_timings
  write_priority name value priority channels =
      write_priority_with_timings name value priority none (record { fade_out = none }) channels

  unfoldable pub write : String → rig.F64 → Channels → Channels
  unfolding write_priority
  write name value channels = write_priority name value default channels

  unfoldable pub get : String → Channels → Option rig.F64
  unfolding ChannelValues.get lookup
  get name channels = lookup name channels >>= λ c. ChannelValues.get rig c

  -- `iter`
  unfoldable pub entries : Channels → List (String × rig.F64)
  unfolding ChannelValues.get
  entries [] = []
  entries ((name, c) ∷ channels) = elim (ChannelValues.get rig c) [
    | some value ↦ (name, value) ∷ entries channels
    | none ↦ entries channels
  ]
