-- ===== src/Sequencer/Whole.antt =====
-- The commands of crates/components/sequencer/commands/src that add a sequence, duplicate one and
-- delete one, each with the node of the sequence: add_sequence.rs, duplicate_sequence.rs and
-- delete_sequence.rs. The commands on nodes that they run are those of a record, `Nodes`.
pub mod Copies
use mizer.Prelude.{ℕ, Bool, Option, none, some, List}
use mizer.Prelude.Maps.{lookup, nat_eq}
use mizer.Commander.Executor.{Error, Result, ok, err, failed, CommandTrait}
use mizer.Sequencer.Time.{Rig}
use mizer.Sequencer.Cue.{Sequence}
use mizer.Sequencer.Commands.{Sequencer, create_sequence, delete_sequence, add_sequence}
use mizer.Sequencer.Edits.{unknown_sequence, update_sequence, restore}

abbrev pub missing_node : Error
missing_node = failed 5

-- The pipeline, `find_node_path` for the node of a sequence, `AddNodeCommand` with such a node, and
-- `DeleteNodesCommand` with one path
pub record Nodes : Type 1 where
  pub World : Type 0
  pub NodePath : Type 0
  pub AddState : Type 0
  pub DeleteState : Type 0
  pub find_node_path : ℕ → World → Option NodePath
  pub add_node : ℕ → World → Result (Unit {0} × AddState) × World
  pub revert_add : AddState → World → Result (Unit {0}) × World
  pub delete_node : NodePath → World → Result (Unit {0} × DeleteState) × World
  pub revert_delete : DeleteState → World → Result (Unit {0}) × World

module _ (rig : Rig) (nodes : Nodes) where
  abbrev World : Type 0
  World = Sequencer rig × nodes.World

  with_node :
      {O K S : Type 0}
      → Sequencer rig
      → O
      → K
      → Result (Unit {0} × S) × nodes.World
      → Result (O × (K × S)) × World
  with_node q o k (ok (done, s), w) = (ok (o, (k, s)), (q, w))
  with_node q o k (err e, w) = (err e, (q, w))

  unfoldable pub apply_add : World → Result (Sequence rig × (ℕ × nodes.AddState)) × World
  unfolding with_node create_sequence
  apply_add (q, w) =
      let (q', sequence) = create_sequence rig q in
      with_node q' sequence sequence.id (nodes.add_node sequence.id w)

  then_delete : Sequencer rig → ℕ → Result (Unit {0}) × nodes.World → Result (Unit {0}) × World
  unfolding delete_sequence
  then_delete q id (ok done, w) = (ok tt, ((delete_sequence rig q id).0, w))
  then_delete q id (err e, w) = (err e, (q, w))

  unfoldable pub revert_add : ℕ × nodes.AddState → World → Result (Unit {0}) × World
  unfolding then_delete
  revert_add (id, s) (q, w) = then_delete q id (nodes.revert_add s w)

  -- What the closure sets in the new sequence
  abbrev pub copied : Sequence rig → Sequence rig → Sequence rig
  copied existing s = record s {
    cues = existing.cues;
    fixtures = existing.fixtures;
    wrap_around = existing.wrap_around;
  }

  copy_with_node :
      Sequence rig
      → ℕ
      → nodes.World
      → Result (Unit {0} × Unit {0}) × Sequencer rig
      → Result (Sequence rig × (ℕ × nodes.AddState)) × World
  unfolding with_node
  copy_with_node sequence id w (ok done, q) = with_node q sequence id (nodes.add_node id w)
  copy_with_node sequence id w (err e, q) = (err e, (q, w))

  duplicate_existing :
      Option (Sequence rig) → World → Result (Sequence rig × (ℕ × nodes.AddState)) × World
  unfolding copy_with_node create_sequence update_sequence
  duplicate_existing none world = (err unknown_sequence, world)
  duplicate_existing (some existing) (q, w) =
      let (q', sequence) = create_sequence rig q in
      copy_with_node sequence sequence.id w
        (update_sequence rig sequence.id (restore copied existing) q')

  unfoldable pub apply_duplicate : ℕ → World → Result (Sequence rig × (ℕ × nodes.AddState)) × World
  unfolding duplicate_existing lookup
  apply_duplicate id (q, w) = duplicate_existing (lookup id q.sequences) (q, w)

  delete_with_node :
      Sequence rig
      → Sequencer rig
      → nodes.World
      → Option nodes.NodePath
      → Result (Unit {0} × (Sequence rig × nodes.DeleteState)) × World
  unfolding with_node
  delete_with_node sequence q w none = (err missing_node, (q, w))
  delete_with_node sequence q w (some path) = with_node q tt sequence (nodes.delete_node path w)

  deleted :
      ℕ
      → nodes.World
      → Sequencer rig × Option (Sequence rig)
      → Result (Unit {0} × (Sequence rig × nodes.DeleteState)) × World
  unfolding delete_with_node
  deleted id w (q, none) = (err unknown_sequence, (q, w))
  deleted id w (q, some sequence) = delete_with_node sequence q w (nodes.find_node_path id w)

  unfoldable pub apply_delete :
      ℕ → World → Result (Unit {0} × (Sequence rig × nodes.DeleteState)) × World
  unfolding deleted delete_sequence
  apply_delete id (q, w) = deleted id w (delete_sequence rig q id)

  beside : Sequencer rig → Result (Unit {0}) × nodes.World → Result (Unit {0}) × World
  beside q (r, w) = (r, (q, w))

  unfoldable pub revert_delete :
      Sequence rig × nodes.DeleteState → World → Result (Unit {0}) × World
  unfolding beside add_sequence
  revert_delete (sequence, s) (q, w) =
      beside (add_sequence rig q sequence) (nodes.revert_delete s w)

  -- The commands: nothing is given to the first one, an identifier to the others.
  abbrev pub add_sequence_command : CommandTrait
  add_sequence_command = record {
    World = World;
    Command = Unit {0};
    Output = Sequence rig;
    State = ℕ × nodes.AddState;
    type_id = λ c. 0;
    apply = λ c. apply_add;
    revert = λ c. revert_add;
  }

  abbrev pub duplicate_sequence_command : CommandTrait
  duplicate_sequence_command = record {
    World = World;
    Command = ℕ;
    Output = Sequence rig;
    State = ℕ × nodes.AddState;
    type_id = λ id. 0;
    apply = apply_duplicate;
    revert = λ id. revert_add;
  }

  abbrev pub delete_sequence_command : CommandTrait
  delete_sequence_command = record {
    World = World;
    Command = ℕ;
    Output = Unit {0};
    State = Sequence rig × nodes.DeleteState;
    type_id = λ id. 0;
    apply = apply_delete;
    revert = λ id. revert_delete;
  }
