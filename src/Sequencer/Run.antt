-- ===== src/Sequencer/Run.antt =====
-- `Sequence::run` of crates/components/sequencer/src/sequence.rs and `handle_sequences` of sequencer.rs:
-- one frame of the sequences. A panic is `none`.
pub mod Own
pub mod Frame
use mathlib.Core.List.{flatten}
use mizer.Prelude.{
  ℕ, Bool, true, false, ◌&&◌, Option, none, some, List, [], ◌∷◌, ◌++◌, length, get_elem?, ◌==◌, leb,
  if◌then◌else◌, ◌>>=◌,
}
use mizer.Prelude.Maps.{Map, lookup, insert, nat_eq}
use mizer.Fixtures.Id.{FixtureId, id_beq}
use mizer.Fixtures.Priority.{FixturePriority}
use mizer.Fixtures.Selection.{FixtureSelection, Itertools, get_fixtures}
use mizer.Sequencer.Value.{SequencerValue, direct}
use mizer.Sequencer.Time.{Rig, ClockFrame, SequencerTime, seconds, beats}
use mizer.Sequencer.Effects.{EffectEngine, run_effect, set_instance_rate, set_instance_offset}
use mizer.Sequencer.Cue.{Cue, CueControl, CueEffect, CuePreset, Sequence}
use mizer.Sequencer.State.{SequenceState, Running, go, get_next_cue}
use mizer.Sequencer.Progress.{
  update_timestamps_based_on_rate, should_go, update_state, is_cue_finished,
}
use mizer.Sequencer.Values.{values, set_fixture_value}
use mizer.Sequencer.Commands.{Sequencer, state_of}

-- A call of `FixtureController::write`; the source names the sequence.
pub record Write (rig : Rig) : Type 0 where
  pub fixture_id : FixtureId
  pub control : rig.Control
  pub value : rig.F64
  pub priority : FixturePriority
  pub fade_out : Option ℕ
  pub source : ℕ

-- What `CuePreset::values` gets from the presets of the fixtures
abbrev pub Presets : Rig → Type 0
Presets rig = ℕ → ℕ → List FixtureId → List (FixtureId × rig.Control × rig.F64)

module _ (it : Itertools) (rig : Rig) where
  abbrev S : Type 0
  S = SequenceState rig

  -- `Into<FadeTimings>`
  unfoldable pub fade_out : Option (SequencerValue (SequencerTime rig)) → Option (Option ℕ)
  fade_out (some (direct (seconds s))) = rig.from_secs s >>= λ t. some (some t)
  fade_out _ = some none

  unfoldable pub writes :
      Sequence rig
      → Option (Option ℕ)
      → rig.Control
      → Map FixtureId (Option rig.F64)
      → S × List (Write rig)
      → Option (S × List (Write rig))
  unfolding set_fixture_value
  writes sequence timings control [] r = some r
  writes sequence timings control ((id, none) ∷ rest) r = writes sequence timings control rest r
  writes sequence timings control ((id, some v) ∷ rest) (s, ws) = do
    fade ← timings
    let w : Write rig = record {
      fixture_id = id;
      control = control;
      value = v;
      priority = sequence.priority;
      fade_out = fade;
      source = sequence.id;
    }
    writes sequence timings control rest (set_fixture_value it rig s id control v, ws ++ w ∷ [])

  unfoldable pub run_controls :
      Sequence rig
      → Cue rig
      → List (CueControl rig)
      → S × List (Write rig)
      → Option (S × List (Write rig))
  unfolding values writes fade_out
  run_controls sequence cue [] r = some r
  run_controls sequence cue (c ∷ cs) (s, ws) = do
    vs ← values it rig c cue s
    r ← writes sequence (fade_out cue.cue_fade) c.control vs (s, ws)
    run_controls sequence cue cs r

  unfoldable pub write_presets :
      Sequence rig
      → Option (Option ℕ)
      → List (FixtureId × rig.Control × rig.F64)
      → S × List (Write rig)
      → Option (S × List (Write rig))
  unfolding writes
  write_presets sequence timings [] r = some r
  write_presets sequence timings ((id, control, v) ∷ rest) r = do
    r' ← writes sequence timings control ((id, some v) ∷ []) r
    write_presets sequence timings rest r'

  unfoldable pub run_presets :
      Presets rig
      → Sequence rig
      → Cue rig
      → List CuePreset
      → S × List (Write rig)
      → Option (S × List (Write rig))
  unfolding write_presets get_fixtures fade_out
  run_presets presets sequence cue [] r = some r
  run_presets presets sequence cue (p ∷ ps) r = do
    groups ← get_fixtures it p.fixtures
    r' ←
        write_presets sequence (fade_out cue.cue_fade)
          (presets p.preset_type p.preset_id (flatten groups)) r
    run_presets presets sequence cue ps r'

  ids_beq : List FixtureId → List FixtureId → Bool
  ids_beq [] [] = true
  ids_beq (x ∷ xs) (y ∷ ys) = id_beq x y && ids_beq xs ys
  ids_beq _ _ = false

  size_beq : Option ℕ → Option ℕ → Bool
  size_beq none none = true
  size_beq (some a) (some b) = a == b
  size_beq _ _ = false

  time_beq : Option (SequencerTime rig) → Option (SequencerTime rig) → Bool
  time_beq none none = true
  time_beq (some (seconds a)) (some (seconds b)) = rig.eq a b
  time_beq (some (beats a)) (some (beats b)) = rig.eq a b
  time_beq _ _ = false

  selection_beq : FixtureSelection → FixtureSelection → Bool
  unfolding ids_beq size_beq
  selection_beq a b =
      ids_beq a.fixtures b.fixtures
      && size_beq a.block_size b.block_size
      && size_beq a.groups b.groups
      && size_beq a.wings b.wings

  -- `derive(PartialEq)` of `CueEffect`
  unfoldable pub effect_beq : CueEffect rig → CueEffect rig → Bool
  unfolding selection_beq time_beq
  effect_beq a b =
      selection_beq a.fixtures b.fixtures
      && a.effect == b.effect
      && time_beq a.effect_offset b.effect_offset

  unfoldable pub running_id : CueEffect rig → Running rig → Option ℕ
  unfolding effect_beq
  running_id effect [] = none
  running_id effect ((f, id) ∷ rest) =
      if effect_beq f effect then some id else running_id effect rest

  unfoldable pub started : CueEffect rig → EffectEngine rig × Option ℕ → S → S × EffectEngine rig
  started effect (e, none) s = (s, e)
  started effect (e, some id) s =
      (record s { running_effects = s.running_effects ++ (effect, id) ∷ [] }, e)

  unfoldable pub run_one :
      Sequence rig → CueEffect rig → Option ℕ → S × EffectEngine rig → S × EffectEngine rig
  unfolding started run_effect set_instance_rate set_instance_offset
  run_one sequence effect (some id) (s, e) =
      (s, set_instance_offset rig (set_instance_rate rig e id s.rate) id effect.effect_offset)
  run_one sequence effect none (s, e) =
      started effect
        (run_effect rig e effect.effect effect.fixtures s.rate effect.effect_offset
          sequence.priority)
        s

  unfoldable pub run_effects :
      Sequence rig → List (CueEffect rig) → S × EffectEngine rig → S × EffectEngine rig
  unfolding run_one running_id
  run_effects sequence [] r = r
  run_effects sequence (effect ∷ rest) r =
      run_effects sequence rest (run_one sequence effect (running_id effect r.0.running_effects) r)

  -- The first test: the next cue may want to go by itself.
  unfoldable pub go_if_due :
      Option (Cue rig)
      → Sequence rig
      → ℕ
      → ClockFrame rig
      → S × EffectEngine rig
      → Option (S × EffectEngine rig)
  unfolding should_go go
  go_if_due none sequence now frame r = some r
  go_if_due (some next) sequence now frame (s, e) =
      should_go rig next s >>= λ due. if due then go rig s sequence e now frame else some (s, e)

  unfoldable pub is_last : Option (Cue rig) → Bool
  is_last none = true
  is_last (some _) = false

  unfoldable pub go_if_over :
      Sequence rig → ℕ → ClockFrame rig → S × EffectEngine rig → Option (S × EffectEngine rig)
  unfolding get_next_cue is_cue_finished go is_last
  go_if_over sequence now frame (s, e) = get_next_cue rig s sequence >>= λ next.
      if is_last next && is_cue_finished rig s && sequence.stop_on_last_cue
      then go rig s sequence e now frame
      else some (s, e)

  unfoldable pub go_if_out :
      Sequence rig → ℕ → ClockFrame rig → S × EffectEngine rig → Option (S × EffectEngine rig)
  unfolding go
  go_if_out sequence now frame (s, e) =
      if leb (length sequence.cues) s.active_cue_index
      then go rig s sequence e now frame
      else some (s, e)

  unfoldable pub run_cue :
      Presets rig
      → Sequence rig
      → ℕ
      → ClockFrame rig
      → Option (Cue rig)
      → S × EffectEngine rig
      → Option (S × EffectEngine rig × List (Write rig))
  unfolding update_state run_controls run_presets run_effects
  run_cue presets sequence now frame none (s, e) = some (s, e, [])
  run_cue presets sequence now frame (some cue) (s, e) = do
    s₁ ← update_state rig cue sequence s now frame
    r ← run_controls sequence cue cue.controls (s₁, [])
    (s₂, ws) ← run_presets presets sequence cue cue.presets r
    let (s₃, e') = run_effects sequence cue.effects (s₂, e)
    some (s₃, e', ws)

  unfoldable pub run_active :
      Presets rig
      → Sequence rig
      → S
      → EffectEngine rig
      → ℕ
      → ClockFrame rig
      → Option (S × EffectEngine rig × List (Write rig))
  unfolding update_timestamps_based_on_rate get_next_cue go_if_due go_if_over go_if_out run_cue
  run_active presets sequence s e now frame = do
    s₁ ← update_timestamps_based_on_rate rig s now frame
    next ← get_next_cue rig s₁ sequence
    r₁ ← go_if_due next sequence now frame (s₁, e)
    r₂ ← go_if_over sequence now frame r₁
    (s₂, e₂) ← go_if_out sequence now frame r₂
    run_cue presets sequence now frame (get_elem? sequence.cues s₂.active_cue_index) (s₂, e₂)

  unfoldable pub run :
      Presets rig
      → Sequence rig
      → S
      → EffectEngine rig
      → ℕ
      → ClockFrame rig
      → Option (S × EffectEngine rig × List (Write rig))
  unfolding run_active
  run presets sequence s e now frame =
      if s.active then run_active presets sequence s e now frame else some (s, e, [])

  run_found :
      Presets rig
      → ℕ
      → ℕ
      → ClockFrame rig
      → Option (Sequence rig)
      → Sequencer rig
      → Option (Sequencer rig × List (Write rig))
  unfolding run state_of insert
  run_found presets id now frame none q =
      some (record q { sequence_states = insert id (state_of rig id q) q.sequence_states }, [])
  run_found presets id now frame (some sequence) q = do
    (s, e, ws) ← run presets sequence (state_of rig id q) q.engine now frame
    some (record q { sequence_states = insert id s q.sequence_states; engine = e }, ws)

  run_order :
      Presets rig
      → ℕ
      → ClockFrame rig
      → List ℕ
      → Sequencer rig
      → Option (Sequencer rig × List (Write rig))
  unfolding run_found lookup
  run_order presets now frame [] q = some (q, [])
  run_order presets now frame (id ∷ ids) q = do
    (q₁, ws) ← run_found presets id now frame (lookup id q.sequences) q
    (q₂, ws') ← run_order presets now frame ids q₁
    some (q₂, ws ++ ws')

  unfoldable pub handle_sequences :
      Presets rig → Sequencer rig → ℕ → ClockFrame rig → Option (Sequencer rig × List (Write rig))
  unfolding run_order
  handle_sequences presets q now frame = run_order presets now frame q.sequence_order q
