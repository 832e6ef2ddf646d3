-- ===== src/Sequencer/Edits.antt =====
-- The commands of crates/components/sequencer/commands/src that set one field of a sequence, of a cue,
-- or of a control or an effect of a cue, with the helpers of lib.rs there and `update_sequence` of
-- crates/components/sequencer/src/sequencer.rs. The texts that describe a command are left out, and
-- so are the commands that rename.
pub mod Inside
pub mod Lawful
use mizer.Prelude.{ℕ, Bool, Option, none, some, List, [], ◌∷◌, ◌==◌, zero, suc}
use mizer.Prelude.Maps.{lookup, insert, nat_eq}
use mizer.Commander.Executor.{Error, Result, ok, err, failed}
use mizer.Commander.Find.{at_first, at_index}
use mizer.Commander.Impl.{Impl, either}
use mizer.Fixtures.Priority.{FixturePriority}
use mizer.Layouts.Edits.{as_done}
use mizer.Sequencer.Value.{SequencerValue}
use mizer.Sequencer.Time.{Rig, SequencerTime}
use mizer.Sequencer.Cue.{Cue, CueControl, CueEffect, CueTrigger, Sequence}
use mizer.Sequencer.Commands.{
  Sequencer, SequencerCommands, go_forward_command, go_backward_command, stop_command, send,
}

abbrev pub unknown_sequence : Error
unknown_sequence = failed 1

abbrev pub unknown_cue : Error
unknown_cue = failed 2

abbrev pub out_of_bounds : Error
out_of_bounds = failed 3

abbrev pub unknown_effect : Error
unknown_effect = failed 4

-- Sets a field through a reference, and gives what it was.
abbrev pub replace : {X A : Type 0} → (X → A) → (A → X → X) → A → X → Result (X × A)
replace previous put a x = ok (put a x, previous x)

abbrev pub restore : {X A : Type 0} → (A → X → X) → A → X → Result (X × Unit {0})
restore put a x = ok (put a x, tt)

module _ (rig : Rig) where
  abbrev has_id : ℕ → Cue rig → Bool
  has_id id cue = cue.id == id

  abbrev has_effect : ℕ → CueEffect rig → Bool
  has_effect id effect = effect.effect == id

  module _ {B : Type 0} where
    unfoldable pub with_cues :
        Sequence rig → Result (List (Cue rig) × B) → Result (Sequence rig × B)
    with_cues s (ok (cues, b)) = ok (record s { cues = cues }, b)
    with_cues s (err e) = err e

    unfoldable pub with_controls :
        Cue rig → Result (List (CueControl rig) × B) → Result (Cue rig × B)
    with_controls cue (ok (controls, b)) = ok (record cue { controls = controls }, b)
    with_controls cue (err e) = err e

    unfoldable pub with_effects : Cue rig → Result (List (CueEffect rig) × B) → Result (Cue rig × B)
    with_effects cue (ok (effects, b)) = ok (record cue { effects = effects }, b)
    with_effects cue (err e) = err e

    unfoldable pub get_cue :
        ℕ → (Cue rig → Result (Cue rig × B)) → Sequence rig → Result (Sequence rig × B)
    unfolding with_cues at_first
    get_cue cue_id update s = with_cues s (at_first (has_id cue_id) unknown_cue update s.cues)

    unfoldable pub get_control :
        ℕ
        → ℕ
        → (CueControl rig → Result (CueControl rig × B))
        → Sequence rig
        → Result (Sequence rig × B)
    unfolding get_cue with_controls at_index
    get_control cue_id control_index update =
        get_cue cue_id
          (λ cue. with_controls cue (at_index control_index out_of_bounds update cue.controls))

    unfoldable pub get_effect :
        ℕ → (CueEffect rig → Result (CueEffect rig × B)) → Cue rig → Result (Cue rig × B)
    unfolding with_effects at_first
    get_effect effect_id update cue =
        with_effects cue (at_first (has_effect effect_id) unknown_effect update cue.effects)

    stored : Sequencer rig → ℕ → Result (Sequence rig × B) → Result (Unit {0} × B) × Sequencer rig
    unfolding insert
    stored q id (ok (s, b)) = (ok (tt, b), record q { sequences = insert id s q.sequences })
    stored q id (err e) = (err e, q)

    updated :
        Sequencer rig
        → ℕ
        → (Sequence rig → Result (Sequence rig × B))
        → Option (Sequence rig)
        → Result (Unit {0} × B) × Sequencer rig
    unfolding stored
    updated q id update none = (err unknown_sequence, q)
    updated q id update (some s) = stored q id (update s)

    -- The updates that are given to it fail only before they change anything.
    unfoldable pub update_sequence :
        ℕ
        → (Sequence rig → Result (Sequence rig × B))
        → Sequencer rig
        → Result (Unit {0} × B) × Sequencer rig
    unfolding updated lookup
    update_sequence id update q = updated q id update (lookup id q.sequences)

  -- A command that makes one update of a sequence, and another one when it is undone
  abbrev pub edit :
      {C A : Type 0}
      → (C → ℕ)
      → (C → Sequence rig → Result (Sequence rig × A))
      → (C → A → Sequence rig → Result (Sequence rig × Unit {0}))
      → Impl (Sequencer rig)
  edit {C} {A} sequence_id update undo = record {
    Command = C;
    State = A;
    type_id = λ c. 0;
    apply = λ c. update_sequence (sequence_id c) (update c);
    revert = λ c a q. as_done (update_sequence (sequence_id c) (undo c a) q);
  }

  -- The fields that the commands on a sequence, a cue, a control or an effect share
  pub record SequenceTarget (A : Type 0) : Type 0 where
    pub sequence_id : ℕ
    pub value : A

  pub record CueTarget (A : Type 0) : Type 0 where
    pub sequence_id : ℕ
    pub cue_id : ℕ
    pub value : A

  -- `apply` sets a field of the sequence and keeps `previous` of it; `revert` sets it to that.
  abbrev pub sequence_edit :
      {A : Type 0} → (Sequence rig → A) → (A → Sequence rig → Sequence rig) → Impl (Sequencer rig)
  sequence_edit {A} previous put =
      edit (λ (c : SequenceTarget A). c.sequence_id) (λ c. replace previous put c.value)
        (λ c a. restore put a)

  abbrev pub cue_edit :
      {A : Type 0} → (Cue rig → A) → (A → Cue rig → Cue rig) → Impl (Sequencer rig)
  cue_edit {A} previous put =
      edit (λ (c : CueTarget A). c.sequence_id)
        (λ c. get_cue c.cue_id (replace previous put c.value))
        (λ c a. get_cue c.cue_id (restore put a))

  abbrev pub update_wrap_around : Impl (Sequencer rig)
  update_wrap_around =
      sequence_edit (λ s. s.wrap_around) (λ wrap_around s. record s { wrap_around = wrap_around })

  abbrev pub update_priority : Impl (Sequencer rig)
  update_priority = sequence_edit (λ s. s.priority) (λ priority s. record s { priority = priority })

  -- What is kept is `wrap_around`.
  abbrev pub update_stop_on_last_cue : Impl (Sequencer rig)
  update_stop_on_last_cue =
      sequence_edit (λ s. s.wrap_around)
        (λ stop_on_last_cue s. record s { stop_on_last_cue = stop_on_last_cue })

  abbrev pub update_cue_trigger : Impl (Sequencer rig)
  update_cue_trigger =
      cue_edit (λ cue. cue.trigger) (λ trigger cue. record cue { trigger = trigger })

  abbrev pub update_cue_trigger_time : Impl (Sequencer rig)
  update_cue_trigger_time =
      cue_edit (λ cue. cue.trigger_time)
        (λ trigger_time cue. record cue { trigger_time = trigger_time })

  abbrev pub update_control_delay_time : Impl (Sequencer rig)
  update_control_delay_time =
      cue_edit (λ cue. cue.cue_delay) (λ delay_time cue. record cue { cue_delay = delay_time })

  abbrev pub update_control_fade_time : Impl (Sequencer rig)
  update_control_fade_time =
      cue_edit (λ cue. cue.cue_fade) (λ fade_time cue. record cue { cue_fade = fade_time })

  pub record UpdateCueValue : Type 0 where
    pub sequence_id : ℕ
    pub cue_id : ℕ
    pub control_index : ℕ
    pub value : SequencerValue rig.F64

  abbrev put_value : SequencerValue rig.F64 → CueControl rig → CueControl rig
  put_value value control = record control { value = value }

  abbrev pub update_cue_value : Impl (Sequencer rig)
  update_cue_value =
      edit (λ (c : UpdateCueValue). c.sequence_id)
        (λ c.
          get_control c.cue_id c.control_index
            (replace (λ control. control.value) put_value c.value))
        (λ c a. get_control c.cue_id c.control_index (restore put_value a))

  pub record UpdateCueEffectOffset : Type 0 where
    pub sequence_id : ℕ
    pub cue_id : ℕ
    pub effect_id : ℕ
    pub time : Option (SequencerTime rig)

  abbrev put_offset : Option (SequencerTime rig) → CueEffect rig → CueEffect rig
  put_offset time effect = record effect { effect_offset = time }

  abbrev pub update_cue_effect_offset : Impl (Sequencer rig)
  update_cue_effect_offset =
      edit (λ (c : UpdateCueEffectOffset). c.sequence_id)
        (λ c.
          get_cue c.cue_id
            (get_effect c.effect_id (replace (λ effect. effect.effect_offset) put_offset c.time)))
        (λ c a. get_cue c.cue_id (get_effect c.effect_id (restore put_offset a)))

  -- The commands that only send a command to the sequencer, and that undo passes by
  abbrev pub sending : (ℕ → SequencerCommands rig) → Impl (Sequencer rig)
  sending command = record {
    Command = ℕ;
    State = Unit {0};
    type_id = λ sequence_id. 0;
    apply = λ sequence_id q. (ok (tt, tt), send rig q (command sequence_id));
    revert = λ sequence_id state q. (ok tt, q);
  }

  abbrev pub sequence_go_forward : Impl (Sequencer rig)
  sequence_go_forward = sending go_forward_command

  abbrev pub sequence_go_backward : Impl (Sequencer rig)
  sequence_go_backward = sending go_backward_command

  abbrev pub stop_sequence : Impl (Sequencer rig)
  stop_sequence = sending stop_command

  -- Eight commands that set a field, without that on the last cue
  abbrev pub sequence_edits : Impl (Sequencer rig)
  sequence_edits = either update_wrap_around (
      either update_priority (
        either update_cue_trigger (
          either update_cue_trigger_time (
            either update_control_delay_time (
              either update_control_fade_time
                (either update_cue_value update_cue_effect_offset))))))
