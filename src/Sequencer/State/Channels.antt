-- ===== src/Sequencer/State/Channels.antt =====
-- What state.rs makes of the channels of a cue and of the effects that run, and its panic.
use mizer.Prelude.{
  ◌-◌, ℕ, ◌≡◌, refl, ap, arith, Bool, true, false, ◌&&◌, ◌||◌, Option, none, some, List, [], ◌∷◌,
  length, get_elem?, get_elem?-none, ◌==◌, if◌then◌else◌, ◌>>=◌,
}
use mizer.Prelude.Maps.{Map, lookup, insert, lookup-insert, lookup-erase, nat_eq}
use mizer.Fixtures.Id.{FixtureId}
use mizer.Fixtures.Selection.{contains_in}
use mizer.Sequencer.Time.{Rig, ClockFrame, timestamp, rate_matched}
use mizer.Sequencer.Effects.{EffectEngine, stop_effect}
use mizer.Sequencer.Cue.{Cue, CueControl, Sequence}
use mizer.Sequencer.State.{
  SequenceState, CueChannel, Key, key_eq, Running, stop_all, stop_effects, fill_fixtures,
  fill_controls, channels_of, initial_channel_state, update_channel_states, go, go_backward, stop,
  next_cue, prev_cue, begin, finish,
}

module _ (rig : Rig) where
  unfoldable pub has_control : rig.Control → List (CueControl rig) → Bool
  has_control c [] = false
  has_control c (x ∷ xs) = rig.control_eq.beq x.control c || has_control c xs

  lookup-fill_fixtures :
      (c : rig.Control) (ch : CueChannel rig) (ids : List FixtureId)
      (m : Map (Key rig) (CueChannel rig)) (id : FixtureId) (d : rig.Control)
      → lookup ⦃e = key_eq rig⦄ (id, d) (fill_fixtures rig c ch ids m) ≡ (
          if contains_in ids id && rig.control_eq.beq c d
          then some ch
          else lookup ⦃e = key_eq rig⦄ (id, d) m)
  unfolding fill_fixtures contains_in
  lookup-fill_fixtures c ch [] m id d = refl
  lookup-fill_fixtures c ch (x ∷ xs) m id d = ground (
    arith,
    lookup-fill_fixtures c ch xs (insert ⦃e = key_eq rig⦄ (x, c) ch m) id d,
    lookup-insert ⦃e = key_eq rig⦄ (x, c) (id, d) ch m,
  )

  lookup-fill_controls :
      (ch : CueChannel rig) (ids : List FixtureId) (cs : List (CueControl rig))
      (m : Map (Key rig) (CueChannel rig)) (id : FixtureId) (d : rig.Control)
      → lookup ⦃e = key_eq rig⦄ (id, d) (fill_controls rig ch ids cs m) ≡ (
          if contains_in ids id && has_control d cs
          then some ch
          else lookup ⦃e = key_eq rig⦄ (id, d) m)
  unfolding fill_controls has_control
  lookup-fill_controls ch ids [] m id d = ground arith
  lookup-fill_controls ch ids (c ∷ cs) m id d = ground (
    arith,
    lookup-fill_controls ch ids cs (fill_fixtures rig c.control ch ids m) id d,
    lookup-fill_fixtures c.control ch ids m id d,
  )

  unfoldable pub runs : ℕ → Running rig → Bool
  runs id [] = false
  runs id ((_, j) ∷ rest) = j == id || runs id rest

  lookup-stop_all :
      (r : Running rig) (e : EffectEngine rig) (id : ℕ)
      → lookup id (stop_all rig r e).instances ≡ (if runs id r then none else lookup id e.instances)
  unfolding stop_all stop_effect runs
  lookup-stop_all [] e id = refl
  lookup-stop_all ((_, j) ∷ r) e id =
      ground (arith, lookup-stop_all r (stop_effect rig e j) id, lookup-erase j id e.instances)

  -- Stopping the effects removes their instances from the engine, and no other instance.
  pub lookup-stop_effects :
      (s : SequenceState rig) (e : EffectEngine rig) (id : ℕ)
      → ((stop_effects rig s e).0.running_effects ≡ [])
        × (lookup id (stop_effects rig s e).1.instances
            ≡ (if runs id s.running_effects then none else lookup id e.instances))
  unfolding stop_effects
  lookup-stop_effects s e id = (refl, lookup-stop_all s.running_effects e id)

module _ (rig : Rig) (s : SequenceState rig) (sequence : Sequence rig) (now : ℕ)
    (frame : ClockFrame rig) where
  -- When the cue at the index is entered, the channels are exactly those of the fixtures of the sequence and the
  -- controls of that cue. Each starts now, as its cue says: with the delay, else with the fade, else active.
  pub lookup-update_channel_states :
      (cue : Cue rig) (id : FixtureId) (d : rig.Control)
      → get_elem? sequence.cues s.active_cue_index ≡ some cue
      → (s' : SequenceState rig) × (update_channel_states rig s sequence now frame ≡ some s')
        × (lookup ⦃e = key_eq rig⦄ (id, d) s'.channel_state ≡ (
            if contains_in sequence.fixtures id && has_control rig d cue.controls
            then some (record {
              start_time = timestamp rig now frame;
              duration = rate_matched rig (timestamp rig now frame);
              state = initial_channel_state rig cue;
            })
            else none))
  unfolding update_channel_states channels_of lookup
  lookup-update_channel_states cue id d h = (
    record s { channel_state = channels_of rig cue sequence now frame },
    ap
        (λ r.
          r >>= λ cue. some (record s { channel_state = channels_of rig cue sequence now frame }))
        h,
    lookup-fill_controls rig
        (record {
          start_time = timestamp rig now frame;
          duration = rate_matched rig (timestamp rig now frame);
          state = initial_channel_state rig cue;
        })
        sequence.fixtures cue.controls [] id d,
  )

module _ (rig : Rig) (sequence : Sequence rig) (now : ℕ) (frame : ClockFrame rig) where
  update-no_cues :
      (s : SequenceState rig)
      → length sequence.cues ≡ 0
      → update_channel_states rig s sequence now frame ≡ none
  unfolding update_channel_states
  update-no_cues s h =
      ap
        (λ r.
          r >>= λ cue. some (record s { channel_state = channels_of rig cue sequence now frame }))
        (get_elem?-none sequence.cues s.active_cue_index (omega (arith, h)))

  finish-no_cues :
      (r : Option (SequenceState rig × EffectEngine rig))
      → length sequence.cues ≡ 0
      → (r >>= finish rig sequence now frame) ≡ none
  unfolding finish
  finish-no_cues none h = refl
  finish-no_cues (some (s, e)) h = ap (λ r. r >>= λ s'. some (s', e)) (update-no_cues s h)

  -- A sequence that has no cues panics on every call of `go`, `go_backward` and `stop`.
  pub no_cues-panic :
      (s : SequenceState rig) (e : EffectEngine rig)
      → length sequence.cues ≡ 0
      → (go rig s sequence e now frame ≡ none)
        × (go_backward rig s sequence e now frame ≡ none)
        × (stop rig s sequence e now frame ≡ none)
  unfolding go go_backward stop
  no_cues-panic s e h = (
    finish-no_cues
        (let s' = (begin rig s e now frame).0 in
          let e' = (begin rig s e now frame).1 in
          if s'.active
          then next_cue rig s' sequence e' now frame
          else some (record s' { active = true; active_cue_index = 0 }, e'))
        h,
    finish-no_cues
        (let s' = (begin rig s e now frame).0 in
          let e' = (begin rig s e now frame).1 in
          if s'.active
          then prev_cue rig s' sequence e' now frame
          else some (record s' { active = true; active_cue_index = length sequence.cues - 1 }, e'))
        h,
    ap (λ r. r >>= λ s'. some (stop_effects rig s' e))
        (update-no_cues (record s { active = false; active_cue_index = 0; fixture_values = [] }) h),
  )
