-- ===== src/Sequencer/Cue.antt =====
-- `Cue`, `CueControl`, `CueEffect` and `CuePreset` of crates/components/sequencer/src/cue.rs and
-- cue_preset.rs, and `Sequence` of sequence.rs. Their names, which are only shown, are left out.
use mizer.Prelude.{ℕ, ◌+◌, ◌%◌, ◌^◌, Bool, false, Option, none, List, [], ◌∷◌, ◌++◌, length}
use mizer.Fixtures.Id.{FixtureId}
use mizer.Fixtures.Priority.{FixturePriority, default}
use mizer.Fixtures.Selection.{FixtureSelection}
use mizer.Sequencer.Value.{SequencerValue}
use mizer.Sequencer.Time.{Rig, SequencerTime}

pub data CueTrigger : Type 0 where
  go follow time beats timecode : CueTrigger

pub record CueControl (rig : Rig) : Type 0 where
  pub control : rig.Control
  pub value : SequencerValue rig.F64
  pub fixtures : FixtureSelection

pub record CueEffect (rig : Rig) : Type 0 where
  pub fixtures : FixtureSelection
  pub effect : ℕ
  pub effect_offset : Option (SequencerTime rig)

-- The kind of a preset is the number of its `PresetType`.
pub record CuePreset : Type 0 where
  pub preset_type : ℕ
  pub preset_id : ℕ
  pub fixtures : FixtureSelection

pub record Cue (rig : Rig) : Type 0 where
  pub id : ℕ
  pub trigger : CueTrigger
  pub trigger_time : Option (SequencerTime rig)
  pub controls : List (CueControl rig)
  pub effects : List (CueEffect rig)
  pub presets : List CuePreset
  pub cue_fade : Option (SequencerValue (SequencerTime rig))
  pub cue_delay : Option (SequencerValue (SequencerTime rig))

pub record Sequence (rig : Rig) : Type 0 where
  pub id : ℕ
  pub fixtures : List FixtureId
  pub cues : List (Cue rig)
  pub wrap_around : Bool
  pub stop_on_last_cue : Bool
  pub priority : FixturePriority

module _ (rig : Rig) where
  -- `Sequence::new`
  unfoldable pub new_sequence : ℕ → Sequence rig
  new_sequence id = record {
    id = id;
    fixtures = [];
    cues = [];
    wrap_around = false;
    stop_on_last_cue = false;
    priority = default;
  }

  -- `Sequence::add_cue`
  unfoldable pub add_cue : Sequence rig → Sequence rig × ℕ
  add_cue s =
      let id = (length s.cues % 2 ^ 32 + 1) % 2 ^ 32 in
      let cue : Cue rig = record {
        id = id;
        trigger = go;
        trigger_time = none;
        controls = [];
        effects = [];
        presets = [];
        cue_fade = none;
        cue_delay = none;
      } in
      (record s { cues = s.cues ++ cue ∷ [] }, id)
