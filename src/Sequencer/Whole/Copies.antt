-- ===== src/Sequencer/Whole/Copies.antt =====
-- Whole sequences that are added, duplicated and deleted.
use mizer.Prelude.{◌≡◌, refl, ℕ, false, none, some}
use mizer.Prelude.Maps.{lookup, insert, nat_eq, lookup-insert_self, lookup-erase_self}
use mizer.Commander.Executor.{ok, err}
use mizer.Fixtures.Priority.{default}
use mizer.Sequencer.Time.{Rig}
use mizer.Sequencer.Cue.{Sequence, new_sequence}
use mizer.Sequencer.Commands.{Sequencer, create_sequence, delete_sequence, add_sequence}
use mizer.Sequencer.Edits.{restore}
use mizer.Sequencer.Edits.Lawful.{update_sequence-found}
use mizer.Sequencer.Whole.{
  Nodes, copied, missing_node, with_node, apply_duplicate, duplicate_existing, copy_with_node,
  apply_delete, deleted, delete_with_node,
}

module _ (rig : Rig) (nodes : Nodes) where
  -- Where the node of a sequence is not found, deleting the sequence fails, but the sequence is gone:
  -- the world is changed, and there is no state to take that back.
  pub apply_delete-missing_node :
      (id : ℕ) (q : Sequencer rig) (w : nodes.World) (s : Sequence rig)
      → lookup id q.sequences ≡ some s
      → nodes.find_node_path id w ≡ none
      → (q' : Sequencer rig) × (apply_delete rig nodes id (q, w) ≡ (err missing_node, (q', w)))
        × (lookup id q'.sequences ≡ none)
  unfolding apply_delete deleted delete_with_node delete_sequence
  apply_delete-missing_node id q w s found missing =
      ((delete_sequence rig q id).0, rw (found, missing) refl, lookup-erase_self id q.sequences)

  -- Duplicating a sequence, where its node is added, stores under the next identifier a copy with the
  -- fixtures, the cues and whether it wraps around, but with the priority of a new sequence, and not
  -- stopping on the last cue; and what is returned is the sequence from before the copy.
  pub apply_duplicate-copied :
      (id : ℕ) (q : Sequencer rig) (w w' : nodes.World) (s : Sequence rig) (a : nodes.AddState)
      → lookup id q.sequences ≡ some s
      → nodes.add_node q.sequence_counter w ≡ (ok (tt, a), w')
      → (q' : Sequencer rig) × (apply_duplicate rig nodes id (q, w)
          ≡ (ok (new_sequence rig q.sequence_counter, (q.sequence_counter, a)), (q', w')))
        × (lookup q.sequence_counter q'.sequences
            ≡ some (record s {
              id = q.sequence_counter;
              stop_on_last_cue = false;
              priority = default;
            }))
  unfolding apply_duplicate duplicate_existing copy_with_node with_node create_sequence add_sequence
      new_sequence
  apply_duplicate-copied id q w w' s a found added =
      let n = q.sequence_counter in
      let q1 = (create_sequence rig q).0 in
      let empty = new_sequence rig n in
      let copy = copied rig nodes s empty in
      let stored =
        update_sequence-found rig n (restore (copied rig nodes) s) q1 empty copy tt
          (lookup-insert_self n empty q.sequences) refl in
      (
        record q1 { sequences = insert n copy q1.sequences },
        rw (found, stored, added) refl,
        lookup-insert_self n copy q1.sequences,
      )
