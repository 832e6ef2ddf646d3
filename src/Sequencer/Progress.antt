-- ===== src/Sequencer/Progress.antt =====
-- Time in a running cue: `update_timestamps_based_on_rate` and the getters of
-- crates/components/sequencer/src/state.rs, `should_go` and `update_state` of cue.rs. A panic is `none`.
pub mod Monotone
use mizer.Prelude.{
  ℕ, zero, suc, ◌+◌, Bool, true, false, ◌&&◌, not, Option, none, some, List, [], ◌∷◌, length, leb,
  if◌then◌else◌, ◌>>=◌,
}
use mizer.Prelude.Maps.{Map, lookup, insert}
use mizer.Fixtures.Id.{FixtureId, id_eq}
use mizer.Sequencer.Value.{SequencerValue, direct, range}
use mizer.Sequencer.Time.{
  Rig, ClockFrame, SequencerTime, seconds, beats, SequenceTimestamp, SequenceDuration, for_time,
  for_beats, RateMatched, timestamp, timestamp_eq, rate_matched, forward, has_passed,
  linear_extrapolate,
}
use mizer.Sequencer.Cue.{Cue, CueControl, CueTrigger, Sequence}
use mizer.Sequencer.State.{
  SequenceState, CueChannel, CueChannelState, delay, fading, active, Key, key_eq,
}

module _ (rig : Rig) where
  -- The duration since a timestamp, begun anew if the timestamp is another one
  unfoldable pub measure :
      Option (SequenceTimestamp rig)
      → Option (RateMatched rig)
      → ℕ
      → ClockFrame rig
      → rig.F64
      → Option (Option (RateMatched rig))
  unfolding rate_matched timestamp_eq forward
  measure none d now frame rate = some d
  measure (some t) none now frame rate = do
    d' ← forward rig (rate_matched rig t) now frame rate
    some (some d')
  measure (some t) (some d) now frame rate = do
    d' ← forward rig (if timestamp_eq rig d.start t then d else rate_matched rig t) now frame rate
    some (some d')

  unfoldable pub update_timestamps_based_on_rate :
      SequenceState rig → ℕ → ClockFrame rig → Option (SequenceState rig)
  unfolding measure
  update_timestamps_based_on_rate s now frame = do
    since_go ← measure s.last_go s.duration_since_last_go now frame s.rate
    since_end ← measure s.cue_finished_at s.duration_since_finished_at now frame s.rate
    some (record s { duration_since_last_go = since_go; duration_since_finished_at = since_end })

  time_of : Option (RateMatched rig) → ℕ
  time_of none = 0
  time_of (some d) = d.time

  beats_of : Option (RateMatched rig) → rig.F64
  beats_of none = rig.zero
  beats_of (some d) = d.beat

  unfoldable pub get_timer : SequenceState rig → ℕ
  unfolding time_of
  get_timer s = time_of s.duration_since_last_go

  unfoldable pub get_beats_passed : SequenceState rig → rig.F64
  unfolding beats_of
  get_beats_passed s = beats_of s.duration_since_last_go

  unfoldable pub get_timer_since_finished : SequenceState rig → ℕ
  unfolding time_of
  get_timer_since_finished s = time_of s.duration_since_finished_at

  unfoldable pub get_beats_passed_since_finished : SequenceState rig → rig.F64
  unfolding beats_of
  get_beats_passed_since_finished s = beats_of s.duration_since_finished_at

  unfoldable pub is_cue_finished : SequenceState rig → Bool
  is_cue_finished s = elim s.cue_finished_at [ none ↦ false | some _ ↦ true ]

  is_over : Option (SequencerTime rig) → ℕ → rig.F64 → Option Bool
  is_over none passed beats_passed = some true
  is_over (some (seconds s)) passed beats_passed = do wait ← rig.from_secs s; some (leb wait passed)
  is_over (some (beats b)) passed beats_passed = some (rig.le b beats_passed)

  triggers : CueTrigger → Bool → Option Bool → Option Bool → Option Bool
  triggers CueTrigger.time finished since_go since_end = since_go
  triggers CueTrigger.follow finished since_go since_end =
      if finished then since_end else some false
  triggers _ finished since_go since_end = some false

  unfoldable pub should_go : Cue rig → SequenceState rig → Option Bool
  unfolding is_over triggers get_timer get_beats_passed get_timer_since_finished
      get_beats_passed_since_finished is_cue_finished
  should_go cue s =
      triggers cue.trigger (is_cue_finished s)
        (is_over cue.trigger_time (get_timer s) (get_beats_passed s))
        (is_over cue.trigger_time (get_timer_since_finished s) (get_beats_passed_since_finished s))

  is_active : CueChannelState → Bool
  is_active active = true
  is_active _ = false

  unfoldable pub all_active : Map (Key rig) (CueChannel rig) → Bool
  unfolding is_active
  all_active [] = true
  all_active ((_, c) ∷ m) = is_active c.state && all_active m

  unfoldable pub is_done : SequenceState rig → Bool
  unfolding all_active
  is_done s = all_active s.channel_state

  -- The share of the fixture at the index i
  spread : ℕ → ℕ → rig.F64 × rig.F64 → rig.F64
  unfolding linear_extrapolate
  spread i count to =
      linear_extrapolate rig (rig.from_nat i) (rig.zero, rig.sub (rig.from_nat count) rig.one) to

  duration_of : Option (SequencerValue (SequencerTime rig)) → ℕ → ℕ → Option (SequenceDuration rig)
  unfolding spread
  duration_of (some (direct (seconds s))) i count = do t ← rig.from_secs s; some (for_time t)
  duration_of (some (range (seconds from) (seconds to))) i count = do
    t ← rig.from_secs (spread i count (from, to))
    some (for_time t)
  duration_of (some (direct (beats b))) i count = some (for_beats b)
  duration_of (some (range (beats from) (beats to))) i count =
      some (for_beats (spread i count (from, to)))
  duration_of _ i count = some (for_time 0)

  durations_from :
      Option (SequencerValue (SequencerTime rig))
      → ℕ
      → ℕ
      → List FixtureId
      → Map FixtureId (SequenceDuration rig)
      → Option (Map FixtureId (SequenceDuration rig))
  unfolding duration_of insert
  durations_from d i count [] m = some m
  durations_from d i count (id ∷ ids) m = do
    t ← duration_of d i count
    durations_from d (i + 1) count ids (insert id t m)

  unfoldable pub durations :
      Option (SequencerValue (SequencerTime rig))
      → Sequence rig
      → Option (Map FixtureId (SequenceDuration rig))
  unfolding durations_from
  durations d sequence = durations_from d 0 (length sequence.fixtures) sequence.fixtures []

  -- One channel that waits: it goes on to the next state when its time has passed.
  unfoldable pub advance :
      CueChannel rig
      → CueChannelState
      → Option (SequenceDuration rig)
      → ℕ
      → ClockFrame rig
      → rig.F64
      → Option (CueChannel rig)
  unfolding forward has_passed rate_matched
  advance c next none now frame rate = none
  advance c next (some t) now frame rate = do
    d ← forward rig c.duration now frame rate
    some (
        if has_passed rig d t
        then record {
          state = next;
          start_time = timestamp rig now frame;
          duration = rate_matched rig (timestamp rig now frame);
        }
        else record c { duration = d })

  unfoldable pub advance_from :
      CueChannelState
      → CueChannel rig
      → Option (SequenceDuration rig)
      → Option (SequenceDuration rig)
      → ℕ
      → ClockFrame rig
      → rig.F64
      → Option (CueChannel rig)
  unfolding advance
  advance_from delay c delays fades now frame rate = advance c fading delays now frame rate
  advance_from fading c delays fades now frame rate = advance c active fades now frame rate
  advance_from active c delays fades now frame rate = some c

  abbrev Channels : Type 0
  Channels = Map (Key rig) (CueChannel rig)

  unfoldable pub step_channel :
      Key rig
      → Option (CueChannel rig)
      → Option (SequenceDuration rig)
      → Option (SequenceDuration rig)
      → ℕ
      → ClockFrame rig
      → rig.F64
      → Channels
      → Option Channels
  unfolding advance_from insert
  step_channel k none delays fades now frame rate m = some m
  step_channel k (some c) delays fades now frame rate m = do
    c' ← advance_from c.state c delays fades now frame rate
    some (insert ⦃e = key_eq rig⦄ k c' m)

  unfoldable pub step_fixtures :
      rig.Control
      → Map FixtureId (SequenceDuration rig)
      → Map FixtureId (SequenceDuration rig)
      → ℕ
      → ClockFrame rig
      → rig.F64
      → List FixtureId
      → Channels
      → Option Channels
  unfolding step_channel lookup
  step_fixtures control delays fades now frame rate [] m = some m
  step_fixtures control delays fades now frame rate (id ∷ ids) m =
      step_channel (id, control) (lookup ⦃e = key_eq rig⦄ (id, control) m) (lookup id delays)
        (lookup id fades) now frame rate m
      >>= step_fixtures control delays fades now frame rate ids

  unfoldable pub step_controls :
      Cue rig
      → Sequence rig
      → ℕ
      → ClockFrame rig
      → rig.F64
      → List (CueControl rig)
      → Channels
      → Option Channels
  unfolding step_fixtures durations
  step_controls cue sequence now frame rate [] m = some m
  step_controls cue sequence now frame rate (c ∷ cs) m = do
    delays ← durations cue.cue_delay sequence
    fades ← durations cue.cue_fade sequence
    m' ← step_fixtures c.control delays fades now frame rate sequence.fixtures m
    step_controls cue sequence now frame rate cs m'

  unfoldable pub update_state :
      Cue rig → Sequence rig → SequenceState rig → ℕ → ClockFrame rig → Option (SequenceState rig)
  unfolding step_controls is_done is_cue_finished
  update_state cue sequence s now frame = if is_cue_finished s then some s else do
    m ← step_controls cue sequence now frame s.rate cue.controls s.channel_state
    some (record s {
      channel_state = m;
      cue_finished_at = if is_done s then some (timestamp rig now frame) else none;
    })
