-- ===== src/Sequencer/Edits/Lawful.antt =====
-- The commands that set one field, against what undo needs of commands.
use mizer.Prelude.{◌≡◌, refl, arith, ℕ, Bool, Option, some, Option-cases, inl, inr}
use mizer.Prelude.Maps.{lookup, insert, nat_eq, lookup-insert_self, insert-insert}
use mizer.Commander.Executor.{Error, Result, ok, err, IsLawful}
use mizer.Commander.Find.Laws.{Undoes, Result-cases}
use mizer.Commander.Impl.{trait_of}
use mizer.Commander.Impl.Lawful.{either-IsLawful}
use mizer.Layouts.Edits.{as_done}
use mizer.Sequencer.Time.{Rig, SequencerTime}
use mizer.Sequencer.Cue.{Cue, CueEffect, Sequence}
use mizer.Sequencer.Commands.{Sequencer}
use mizer.Sequencer.Edits.Inside.{
  get_cue-Undoes, get_control-Undoes, get_effect-Undoes, get_effect-Keeps,
}
use mizer.Sequencer.Edits.{
  update_stop_on_last_cue, update_cue_value, update_cue_effect_offset, put_value, put_offset,
  SequenceTarget, get_effect, update_sequence, stored, updated, edit, sequence_edit, cue_edit,
  replace, restore, sequence_edits,
}

module _ (rig : Rig) where
  pub update_sequence-found :
      {B : Type 0} (id : ℕ) (f : Sequence rig → Result (Sequence rig × B)) (q : Sequencer rig)
      (s s' : Sequence rig) (b : B)
      → lookup id q.sequences ≡ some s
      → f s ≡ ok (s', b)
      → update_sequence rig id f q ≡ (ok (tt, b), record q { sequences = insert id s' q.sequences })
  unfolding update_sequence updated stored
  update_sequence-found id f q s s' b found done = rw (found, done) refl

  module _ {B : Type 0} (id : ℕ) (f : Sequence rig → Result (Sequence rig × B))
      (g : B → Sequence rig → Result (Sequence rig × Unit {0})) (back : Undoes f g) where
    update_sequence-ok :
        (q q' : Sequencer rig) (o : Unit {0}) (b : B)
        → update_sequence rig id f q ≡ (ok (o, b), q')
        → (s : Sequence rig) × (s' : Sequence rig) × (lookup id q.sequences ≡ some s)
          × (f s ≡ ok (s', b))
          × (q' ≡ record q { sequences = insert id s' q.sequences })
    unfolding update_sequence updated stored
    update_sequence-ok q q' o b h = elim (Option-cases (lookup id q.sequences)) [
      | inl missing ↦ absurd (ground (arith, missing))
      | inr (s, found) ↦ elim (Result-cases (f s)) [
        | inl ((s', b'), done) ↦
            (s, s', found, ground (arith, found, done), ground (arith, found, done))
        | inr (e, failed) ↦ absurd (ground (arith, found, failed))
      ]
    ]

    update_sequence-err :
        (q q' : Sequencer rig) (e : Error) → update_sequence rig id f q ≡ (err e, q') → q' ≡ q
    unfolding update_sequence updated stored
    update_sequence-err q q' e h = elim (Option-cases (lookup id q.sequences)) [
      | inl missing ↦ ground (arith, missing)
      | inr (s, found) ↦ elim (Result-cases (f s)) [
        | inl ((s', b'), done) ↦ absurd (ground (arith, found, done))
        | inr (e', failed) ↦ ground (arith, found, failed)
      ]
    ]

    update_sequence-Undoes :
        (q q' : Sequencer rig) (o : Unit {0}) (b : B)
        → update_sequence rig id f q ≡ (ok (o, b), q')
        → as_done (update_sequence rig id (g b) q') ≡ (ok tt, q)
    unfolding update_sequence updated stored
    update_sequence-Undoes q q' o b h =
        let (s, s', found, done, shape) = update_sequence-ok q q' o b h in
        rw
          (
            shape,
            lookup-insert_self id s' q.sequences,
            back s s' b done,
            insert-insert id s s' q.sequences found,
          )
          refl

  edit-IsLawful :
      {C A : Type 0} (id_of : C → ℕ) (f : C → Sequence rig → Result (Sequence rig × A))
      (g : C → A → Sequence rig → Result (Sequence rig × Unit {0}))
      → ((c : C) → Undoes (f c) (g c))
      → IsLawful (trait_of (edit rig id_of f g))
  edit-IsLawful id_of f g back = record {
    revert-apply = λ c. update_sequence-Undoes (id_of c) (f c) (g c) (back c);
    apply_atomic = λ c. update_sequence-err (id_of c) (f c) (g c) (back c);
  }

  sequence_edit-IsLawful :
      {A : Type 0} (previous : Sequence rig → A) (put : A → Sequence rig → Sequence rig)
      → ((a : A) (s : Sequence rig) → put (previous s) (put a s) ≡ s)
      → IsLawful (trait_of (sequence_edit rig previous put))
  sequence_edit-IsLawful previous put back =
      edit-IsLawful _ _ _ (λ c s s' a e. ground (arith, back c.value s))

  cue_edit-IsLawful :
      {A : Type 0} (previous : Cue rig → A) (put : A → Cue rig → Cue rig)
      → ((a : A) (cue : Cue rig) → put (previous cue) (put a cue) ≡ cue)
      → ((a : A) (cue : Cue rig) → (put a cue).id ≡ cue.id)
      → IsLawful (trait_of (cue_edit rig previous put))
  cue_edit-IsLawful previous put back keeps = edit-IsLawful _ _ _ (λ c.
      get_cue-Undoes rig c.cue_id (replace previous put c.value) (λ a. restore put a)
        (λ cue cue' a e. ground (arith, back c.value cue))
        (λ cue cue' a e found. ground (arith, keeps c.value cue)))

  update_cue_value-IsLawful : IsLawful (trait_of (update_cue_value rig))
  update_cue_value-IsLawful = edit-IsLawful _ _ _ (λ c.
      get_control-Undoes rig c.control_index
        (replace (λ control. control.value) (put_value rig) c.value)
        (λ a. restore (put_value rig) a) (λ control control' a e. ground arith) c.cue_id)

  update_cue_effect_offset-IsLawful : IsLawful (trait_of (update_cue_effect_offset rig))
  update_cue_effect_offset-IsLawful = edit-IsLawful _ _ _ (λ c.
      let set : CueEffect rig → Result (CueEffect rig × Option (SequencerTime rig)) =
        replace (λ effect. effect.effect_offset) (put_offset rig) c.time in
      let set_back : Option (SequencerTime rig)
          → CueEffect rig
          → Result (CueEffect rig × Unit {0}) =
        λ a. restore (put_offset rig) a in
      get_cue-Undoes rig c.cue_id (get_effect rig c.effect_id set)
        (λ a. get_effect rig c.effect_id (set_back a))
        (get_effect-Undoes rig c.effect_id set set_back (λ effect effect' a e. ground arith)
          (λ effect effect' a e found. ground arith))
        (get_effect-Keeps rig c.effect_id set set_back (λ effect effect' a e. ground arith)
          (λ effect effect' a e found. ground arith) c.cue_id))

  -- Undo takes back each of these eight commands: those that set whether a sequence wraps around, its
  -- priority, a cue's trigger, trigger time, delay or fade, the value of one of its controls, or the
  -- offset of one of its effects. Reverting one after it succeeded gives back the sequencer from before
  -- it, and one that fails has changed nothing. The command on the last cue and those that rename
  -- sequences and cues are not among them.
  pub sequence_edits-IsLawful : IsLawful (trait_of (sequence_edits rig))
  sequence_edits-IsLawful =
      either-IsLawful _ _ (sequence_edit-IsLawful (λ s. s.wrap_around) _ (λ a s. refl)) (
        either-IsLawful _ _ (sequence_edit-IsLawful (λ s. s.priority) _ (λ a s. refl)) (
          either-IsLawful _ _ (cue_edit-IsLawful (λ c. c.trigger) _ (λ a c. refl) (λ a c. refl)) (
            either-IsLawful _ _
              (cue_edit-IsLawful (λ c. c.trigger_time) _ (λ a c. refl) (λ a c. refl))
              (either-IsLawful _ _
                (cue_edit-IsLawful (λ c. c.cue_delay) _ (λ a c. refl) (λ a c. refl))
                (either-IsLawful _ _
                  (cue_edit-IsLawful (λ c. c.cue_fade) _ (λ a c. refl) (λ a c. refl))
                  (either-IsLawful _ _ update_cue_value-IsLawful
                    update_cue_effect_offset-IsLawful))))))

  -- The command that sets whether a sequence stops on its last cue keeps `wrap_around` instead of
  -- what it sets. So undoing it leaves a sequence that stops on its last cue exactly if it wraps
  -- around, whatever it did before, and as it was else.
  pub revert-update_stop_on_last_cue :
      (c : SequenceTarget rig Bool) (q : Sequencer rig) (s : Sequence rig)
      → lookup c.sequence_id q.sequences ≡ some s
      → (a : Bool) × (q' : Sequencer rig) × (q'' : Sequencer rig) × ((update_stop_on_last_cue
              rig).apply
            c q
          ≡ (ok (tt, a), q'))
        × ((update_stop_on_last_cue rig).revert c a q' ≡ (ok tt, q''))
        × (lookup c.sequence_id q''.sequences
            ≡ some (record s { stop_on_last_cue = s.wrap_around }))
  unfolding update_sequence updated stored
  revert-update_stop_on_last_cue c q s found =
      let s' = record s { stop_on_last_cue = c.value } in
      let s'' = record s { stop_on_last_cue = s.wrap_around } in
      let once = insert c.sequence_id s' q.sequences in
      (
        s.wrap_around,
        record q { sequences = once },
        record q { sequences = insert c.sequence_id s'' once },
        rw found refl,
        rw (lookup-insert_self c.sequence_id s' q.sequences) refl,
        lookup-insert_self c.sequence_id s'' once,
      )
