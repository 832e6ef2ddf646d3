-- ===== src/Tests/EditsTests.antt =====
-- The commands on sequences at concrete inputs.
use mizer.Prelude.{ℕ, ◌+◌, ◌≡◌, refl, Bool, true, false, none, some, []}
use mizer.Prelude.Maps.{lookup, nat_eq}
use mizer.Commander.Executor.{ok, err, IsLawful}
use mizer.Commander.Impl.{trait_of}
use mizer.Fixtures.Priority.{default}
use mizer.Sequencer.Cue.{new_sequence}
use mizer.Sequencer.Commands.{Sequencer}
use mizer.Sequencer.Edits.{SequenceTarget, sequence_edits, update_stop_on_last_cue}
use mizer.Sequencer.Edits.Lawful.{sequence_edits-IsLawful, revert-update_stop_on_last_cue}
use mizer.Sequencer.Whole.{Nodes, missing_node, apply_duplicate, apply_delete}
use mizer.Sequencer.Whole.Copies.{apply_delete-missing_node, apply_duplicate-copied}
use mizer.Tests.SequencerTests.{rig, three_cues, sequencer}

abbrev to_stop : SequenceTarget rig Bool
to_stop = record { sequence_id = 4; value = true }

-- A pipeline that is the number of its nodes, in which no sequence has a node
abbrev numbered : Nodes
numbered = record {
  World = ℕ;
  NodePath = ℕ;
  AddState = ℕ;
  DeleteState = ℕ;
  find_node_path = λ id w. none;
  add_node = λ id w. (ok (tt, w), w + 1);
  revert_add = λ s w. (ok tt, s);
  delete_node = λ path w. (ok (tt, w), w);
  revert_delete = λ s w. (ok tt, s);
}

sequence_edits-IsLawful_example : IsLawful (trait_of (sequence_edits rig))
sequence_edits-IsLawful_example = sequence_edits-IsLawful rig

revert-update_stop_on_last_cue_example :
    (a : Bool) × (q' : Sequencer rig) × (q'' : Sequencer rig) × ((update_stop_on_last_cue rig).apply
        to_stop
        (sequencer [])
      ≡ (ok (tt, a), q'))
    × ((update_stop_on_last_cue rig).revert to_stop a q' ≡ (ok tt, q''))
    × (lookup 4 q''.sequences ≡ some (record three_cues { stop_on_last_cue = true }))
unfolding lookup
revert-update_stop_on_last_cue_example =
    revert-update_stop_on_last_cue rig to_stop (sequencer []) three_cues refl

apply_delete-missing_node_example :
    (q' : Sequencer rig) × (apply_delete rig numbered 4 (sequencer [], 7)
      ≡ (err missing_node, (q', 7)))
    × (lookup 4 q'.sequences ≡ none)
unfolding lookup
apply_delete-missing_node_example =
    apply_delete-missing_node rig numbered 4 (sequencer []) 7 three_cues refl refl

apply_duplicate-copied_example :
    (q' : Sequencer rig) × (apply_duplicate rig numbered 4 (sequencer [], 7)
      ≡ (ok (new_sequence rig 5, (5, 7)), (q', 8)))
    × (lookup 5 q'.sequences
        ≡ some (record three_cues { id = 5; stop_on_last_cue = false; priority = default }))
unfolding lookup
apply_duplicate-copied_example =
    apply_duplicate-copied rig numbered 4 (sequencer []) 7 8 three_cues 7 refl refl
