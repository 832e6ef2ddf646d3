-- ===== src/Sequencer/Commands/Deleted.antt =====
-- What becomes of the effects of a sequence that `delete_sequence` of sequencer.rs removes while it runs.
use mizer.Prelude.{ℕ, ◌≡◌, refl, ap, ◌∙◌, none, some, [], ◌∷◌, ◌++◌, ◌>>=◌}
use mizer.Prelude.Maps.{lookup, erase, lookup-erase_self, nat_eq}
use mizer.Sequencer.Time.{Rig, ClockFrame}
use mizer.Sequencer.Commands.{
  Sequencer, drop_state_command, delete_sequence, handle_command, handle_commands, handle_all,
  shift_remove, stopped, touched,
}

module _ (rig : Rig) where
  -- A sequence is deleted, and no command waits: then the handler forgets its state, and with it which
  -- of its effects run, but stops none of them: the engine stays as it was.
  pub handle_commands-delete_sequence :
      (q : Sequencer rig) (id now : ℕ) (frame : ClockFrame rig)
      → q.commands ≡ []
      → (q' : Sequencer rig) × (handle_commands rig (delete_sequence rig q id).0 now frame
          ≡ some q')
        × (lookup id q'.sequences ≡ none)
        × (lookup id q'.sequence_states ≡ none)
        × (q'.engine ≡ q.engine)
  unfolding delete_sequence handle_commands handle_all handle_command stopped touched
  handle_commands-delete_sequence q id now frame h =
      let q₁ : Sequencer rig = record q { sequences = erase id q.sequences; commands = [] } in
      let q₂ : Sequencer rig = touched rig id q₁ in
      (
        record q₂ {
          sequence_states = erase id q₂.sequence_states;
          sequence_order = shift_remove id q₂.sequence_order;
        },
        ap (λ cs. handle_all rig (cs ++ drop_state_command id ∷ []) q₁ now frame) h
            ∙ ap
                (λ o.
                  stopped rig q₁ id now frame o
                  >>= (λ q'. some (record q' {
                    sequence_states = erase id q'.sequence_states;
                    sequence_order = shift_remove id q'.sequence_order;
                  }))
                  >>= (λ q'. some q'))
                (lookup-erase_self id q.sequences),
        lookup-erase_self id q.sequences,
        lookup-erase_self id q₂.sequence_states,
        refl,
      )
