-- ===== src/Sequencer/State.antt =====
-- `SequenceState` of crates/components/sequencer/src/state.rs. A panic is `none`; a call reads the
-- clock once, as `now`.
pub mod Channels
pub mod Places
use mizer.Prelude.{
  ℕ, ◌+◌, ◌-◌, ◌≡◌, ◌↔◌, arith, Bool, true, false, ◌&&◌, ◌||◌, not, Option, none, some, List, [],
  ◌∷◌, ◌++◌, length, get_elem?, ◌==◌, leb, if◌then◌else◌, ◌>>=◌,
}
use mizer.Prelude.Maps.{Eq, Map, lookup, insert}
use mizer.Fixtures.Id.{FixtureId, id_beq, id_eq, id_beq_iff}
use mizer.Fixtures.Selection.{FixtureSelection}
use mizer.Sequencer.Time.{
  Rig, ClockFrame, SequencerTime, seconds, beats, SequenceTimestamp, RateMatched, timestamp,
  timestamp_eq, rate_matched, forward,
}
use mizer.Sequencer.Effects.{EffectEngine, stop_effect}
use mizer.Sequencer.Cue.{Cue, CueControl, CueEffect, Sequence}

pub data CueChannelState : Type 0 where
  delay fading active : CueChannelState

pub record CueChannel (rig : Rig) : Type 0 where
  pub start_time : SequenceTimestamp rig
  pub duration : RateMatched rig
  pub state : CueChannelState

-- A fixture and a control of it, the key of the two maps of a state
abbrev pub Key : Rig → Type 0
Key rig = FixtureId × rig.Control

module _ (rig : Rig) where
  abbrev pub key_beq : Key rig → Key rig → Bool
  key_beq (i, c) (j, d) = id_beq i j && rig.control_eq.beq c d

  pub key_beq_iff : (a b : Key rig) → (key_beq a b ≡ true) ↔ (a ≡ b)
  key_beq_iff (i, c) (j, d) = ground (arith, id_beq_iff i j, rig.control_eq.beq_iff c d)

  abbrev pub key_eq : Eq (Key rig)
  key_eq = record { beq = key_beq; beq_iff = key_beq_iff }

-- The effects that run, with the names of their instances, in the order in which they were started
abbrev pub Running : Rig → Type 0
Running rig = List (CueEffect rig × ℕ)

pub record SequenceState (rig : Rig) : Type 0 where
  pub active_cue_index : ℕ
  pub active : Bool
  pub rate : rig.F64
  pub last_go : Option (SequenceTimestamp rig)
  pub cue_finished_at : Option (SequenceTimestamp rig)
  pub fixture_values : Map (Key rig) rig.F64
  pub channel_state : Map (Key rig) (CueChannel rig)
  pub running_effects : Running rig
  pub duration_since_last_go : Option (RateMatched rig)
  pub duration_since_finished_at : Option (RateMatched rig)

module _ (rig : Rig) where
  -- `SequenceState::default`
  unfoldable pub default_state : SequenceState rig
  default_state = record {
    active_cue_index = 0;
    active = false;
    rate = rig.one;
    last_go = none;
    cue_finished_at = none;
    fixture_values = [];
    channel_state = [];
    running_effects = [];
    duration_since_last_go = none;
    duration_since_finished_at = none;
  }

  abbrev S : Type 0
  S = SequenceState rig

  abbrev E : Type 0
  E = EffectEngine rig

  unfoldable pub stop_all : Running rig → E → E
  unfolding stop_effect
  stop_all [] e = e
  stop_all ((_, id) ∷ rest) e = stop_all rest (stop_effect rig e id)

  unfoldable pub stop_effects : S → E → S × E
  unfolding stop_all
  stop_effects s e = (record s { running_effects = [] }, stop_all s.running_effects e)

  is_some : {A : Type 0} → Option A → Bool
  is_some none = false
  is_some (some _) = true

  unfoldable pub initial_channel_state : Cue rig → CueChannelState
  unfolding is_some
  initial_channel_state cue =
      if is_some cue.cue_delay then delay else if is_some cue.cue_fade then fading else active

  unfoldable pub fill_fixtures :
      rig.Control
      → CueChannel rig
      → List FixtureId
      → Map (Key rig) (CueChannel rig)
      → Map (Key rig) (CueChannel rig)
  unfolding insert
  fill_fixtures control channel [] m = m
  fill_fixtures control channel (id ∷ rest) m =
      fill_fixtures control channel rest (insert ⦃e = key_eq rig⦄ (id, control) channel m)

  unfoldable pub fill_controls :
      CueChannel rig
      → List FixtureId
      → List (CueControl rig)
      → Map (Key rig) (CueChannel rig)
      → Map (Key rig) (CueChannel rig)
  unfolding fill_fixtures
  fill_controls channel fixtures [] m = m
  fill_controls channel fixtures (c ∷ rest) m =
      fill_controls channel fixtures rest (fill_fixtures c.control channel fixtures m)

  -- The channels of a cue, as they start.
  unfoldable pub channels_of :
      Cue rig → Sequence rig → ℕ → ClockFrame rig → Map (Key rig) (CueChannel rig)
  unfolding fill_controls initial_channel_state rate_matched
  channels_of cue sequence now frame =
      let start_time = timestamp rig now frame in
      let channel : CueChannel rig = record {
        state = initial_channel_state cue;
        start_time = start_time;
        duration = rate_matched rig start_time;
      } in
      fill_controls channel sequence.fixtures cue.controls []

  unfoldable pub update_channel_states : S → Sequence rig → ℕ → ClockFrame rig → Option S
  unfolding channels_of
  update_channel_states s sequence now frame = do
    cue ← get_elem? sequence.cues s.active_cue_index
    some (record s { channel_state = channels_of cue sequence now frame })

  unfoldable pub stop : S → Sequence rig → E → ℕ → ClockFrame rig → Option (S × E)
  unfolding update_channel_states stop_effects
  stop s sequence engine now frame = do
    s' ←
        update_channel_states
          (record s { active = false; active_cue_index = 0; fixture_values = [] }) sequence now
          frame
    some (stop_effects s' engine)

  unfoldable pub next_cue : S → Sequence rig → E → ℕ → ClockFrame rig → Option (S × E)
  unfolding stop
  next_cue s sequence engine now frame =
      let i = s.active_cue_index + 1 in
      if leb (length sequence.cues) i
      then if sequence.wrap_around
        then some (record s { active_cue_index = 0 }, engine)
        else stop (record s { active_cue_index = 0; active = false }) sequence engine now frame
      else some (record s { active_cue_index = i }, engine)

  unfoldable pub prev_cue : S → Sequence rig → E → ℕ → ClockFrame rig → Option (S × E)
  unfolding stop
  prev_cue s sequence engine now frame =
      if s.active_cue_index == 0
      then if sequence.wrap_around
        then some (record s { active_cue_index = length sequence.cues - 1 }, engine)
        else stop (record s { active_cue_index = 0; active = false }) sequence engine now frame
      else some (record s { active_cue_index = s.active_cue_index - 1 }, engine)

  -- What `go`, `go_backward` and `go_to` begin with.
  unfoldable pub begin : S → E → ℕ → ClockFrame rig → S × E
  unfolding stop_effects
  begin s engine now frame =
      stop_effects (record s { last_go = some (timestamp rig now frame); cue_finished_at = none })
        engine

  unfoldable pub finish : Sequence rig → ℕ → ClockFrame rig → S × E → Option (S × E)
  unfolding update_channel_states
  finish sequence now frame (s, engine) = do
    s' ← update_channel_states s sequence now frame
    some (s', engine)

  unfoldable pub go : S → Sequence rig → E → ℕ → ClockFrame rig → Option (S × E)
  unfolding begin finish next_cue
  go s sequence engine now frame =
      let (s', engine') = begin s engine now frame in
      (if s'.active
        then next_cue s' sequence engine' now frame
        else some (record s' { active = true; active_cue_index = 0 }, engine'))
      >>= finish sequence now frame

  unfoldable pub go_backward : S → Sequence rig → E → ℕ → ClockFrame rig → Option (S × E)
  unfolding begin finish prev_cue
  go_backward s sequence engine now frame =
      let (s', engine') = begin s engine now frame in
      (if s'.active
        then prev_cue s' sequence engine' now frame
        else some
            (record s' { active = true; active_cue_index = length sequence.cues - 1 }, engine'))
      >>= finish sequence now frame

  -- `position`
  unfoldable pub position : ℕ → List (Cue rig) → Option ℕ
  position cue_id [] = none
  position cue_id (cue ∷ rest) =
      let later = position cue_id rest in
      if cue.id == cue_id then some 0 else later >>= λ i. some (i + 1)

  unfoldable pub jump : Option ℕ → S → Sequence rig → E → ℕ → ClockFrame rig → Option (S × E)
  unfolding begin finish
  jump none s sequence engine now frame = some (s, engine)
  jump (some i) s sequence engine now frame =
      let (s', engine') = begin s engine now frame in
      finish sequence now frame (record s' { active = true; active_cue_index = i }, engine')

  unfoldable pub go_to : S → Sequence rig → ℕ → E → ℕ → ClockFrame rig → Option (S × E)
  unfolding position jump
  go_to s sequence cue_id engine now frame =
      jump (position cue_id sequence.cues) s sequence engine now frame

  unfoldable pub get_next_cue : S → Sequence rig → Option (Option (Cue rig))
  get_next_cue s sequence =
      let i = s.active_cue_index + 1 in
      if leb (length sequence.cues) i
      then if sequence.wrap_around
        then (get_elem? sequence.cues 0 >>= λ cue. some (some cue))
        else some none
      else get_elem? sequence.cues i >>= λ cue. some (some cue)
