-- ===== src/Tests/RunTests.antt =====
-- A frame of a sequence, and storing in a cue, at concrete inputs.
use mizer.Prelude.{ℕ, ◌≤◌, ◌<◌, ◌≡◌, ◌↔◌, refl, arith, true, some, [], ◌∷◌, ◌++◌, ◌&&◌, not}
use mizer.Prelude.Maps.{lookup}
use mizer.Fixtures.Id.{fixture}
use mizer.Fixtures.Selection.{new, contains, contains_in, overlaps}
use mathlib.Core.List.{flatten}
use mizer.Sequencer.Value.{direct}
use mizer.Sequencer.Time.{timestamp}
use mizer.Sequencer.Cue.{Cue, CueControl}
use mizer.Sequencer.State.{SequenceState, CueChannel, fading, active, key_eq}
use mizer.Sequencer.Progress.{update_state}
use mizer.Sequencer.Progress.Monotone.{stage_of, update_state-GoesOn}
use mizer.Sequencer.Run.{Write, run}
use mizer.Sequencer.Run.Own.{AreOwn}
use mizer.Sequencer.Run.Frame.{run-AreOwn}
use mizer.Sequencer.Merge.{any, filter, is_same, is_used, merge_controls, is_overlapped, value_beq}
use mizer.Sequencer.Merge.Assigned.{assigned, merge_controls-assigned}
use mizer.Sequencer.Merge.Second.{merge_controls-second}
use mizer.Tests.Chunking.{chunking}
use mizer.Tests.SequencerTests.{rig, cue, three_cues, frame, no_effects, second}

abbrev now : ℕ
now = 5000000000

abbrev fading_channel : CueChannel rig
fading_channel = record {
  start_time = timestamp rig 50 frame;
  duration = record { start = timestamp rig 50 frame; last_tick = 50; time = 0; beat = 0 };
  state = fading;
}

abbrev done_channel : CueChannel rig
done_channel = record {
  start_time = timestamp rig now frame;
  duration = record { start = timestamp rig now frame; last_tick = now; time = 0; beat = 0 };
  state = active;
}

abbrev before : SequenceState rig
before = record second {
  channel_state = ((fixture 1, 9), fading_channel) ∷ ((fixture 2, 9), fading_channel) ∷ [];
  running_effects = [];
}

abbrev after : SequenceState rig
after = record before {
  channel_state = ((fixture 1, 9), done_channel) ∷ ((fixture 2, 9), done_channel) ∷ [];
}

update_state-GoesOn_example :
    (stage_of (lookup ⦃e = key_eq rig⦄ (fixture 1, 9) before.channel_state)
      ≤ stage_of (lookup ⦃e = key_eq rig⦄ (fixture 1, 9) after.channel_state))
    × ((stage_of (lookup ⦃e = key_eq rig⦄ (fixture 1, 9) before.channel_state) ≡ 0)
        ↔ (stage_of (lookup ⦃e = key_eq rig⦄ (fixture 1, 9) after.channel_state) ≡ 0))
unfolding update_state
update_state-GoesOn_example =
    update_state-GoesOn rig (cue 2) three_cues before after now frame refl (fixture 1, 9)

abbrev written : Write rig
written = record {
  fixture_id = fixture 1;
  control = 9;
  value = 1;
  priority = three_cues.priority;
  fade_out = some 2000000000;
  source = 4;
}

run-AreOwn_example : (1 < 3) × AreOwn chunking rig three_cues now frame (written ∷ [])
unfolding run new flatten
run-AreOwn_example =
    run-AreOwn chunking rig three_cues now frame (λ kind id ids. []) before
      (record after { fixture_values = ((fixture 1, 9), 1) ∷ [] }) no_effects no_effects
      (written ∷ []) (omega arith) refl

abbrev dimmed : ℕ → ℕ → CueControl rig
dimmed id value = record { control = 3; value = direct value; fixtures = new (fixture id ∷ []) }

abbrev both : CueControl rig
both = record { control = 3; value = direct 7; fixtures = new (fixture 1 ∷ fixture 2 ∷ []) }

abbrev stored : Cue rig
stored = record (cue 1) { controls = dimmed 1 5 ∷ dimmed 2 6 ∷ [] }

merge_controls-assigned_example :
    (cue' : Cue rig) × (merge_controls chunking rig stored (dimmed 1 6 ∷ []) ≡ some cue')
    × (assigned chunking rig (λ v. true) 3 (fixture 2) cue'.controls
        ≡ assigned chunking rig (λ v. true) 3 (fixture 2) stored.controls)
unfolding new contains contains_in
merge_controls-assigned_example =
    merge_controls-assigned chunking rig stored (dimmed 1 6) (λ v. true) 3 (fixture 2) tt tt tt refl

merge_controls-second_example :
    (cue' : Cue rig) × (c₁' : CueControl rig) × (merge_controls chunking rig stored (both ∷ [])
      ≡ some cue')
    × (cue'.controls
        ≡ filter (is_used chunking rig) (([] ++ c₁' ∷ ([] ++ dimmed 2 6 ∷ [])) ++ both ∷ []))
    × (c₁'.control ≡ 3)
    × (c₁'.value ≡ direct 5)
    × (contains c₁'.fixtures (fixture 1)
        ≡ (contains (dimmed 1 5).fixtures (fixture 1) && not (contains both.fixtures (fixture 1))))
    × (assigned chunking rig (λ v. value_beq chunking rig v (direct 6)) 3 (fixture 2) cue'.controls
        ≡ true)
    × (assigned chunking rig (λ v. value_beq chunking rig v (direct 7)) 3 (fixture 2) cue'.controls
        ≡ true)
unfolding new contains contains_in is_overlapped overlaps value_beq is_same any
merge_controls-second_example =
    merge_controls-second chunking rig stored [] (dimmed 1 5) [] (dimmed 2 6) [] both (fixture 2)
      (fixture 1) refl refl refl refl refl refl refl refl refl
