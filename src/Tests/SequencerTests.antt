-- ===== src/Tests/SequencerTests.antt =====
-- The sequencer at concrete inputs: whole numbers in the place of floating-point ones.
use mizer.Prelude.{
  ℕ, ◌+◌, ◌-◌, ◌*◌, ◌/◌, ◌%◌, ◌<◌, ◌≡◌, refl, arith, Bool, true, false, ◌&&◌, none, some, List, [],
  ◌∷◌, ltb, leb, ◌==◌, if◌then◌else◌,
}
use mizer.Prelude.Maps.{lookup, insert, erase, nat_eq}
use mizer.Prelude.Int.{ℤ, pos, negsuc, ◌+ℤ◌, ◌-ℤ◌}
use mizer.Fixtures.Id.{fixture}
use mizer.Fixtures.Priority.{default}
use mizer.Fixtures.Selection.{new, contains_in}
use mizer.Sequencer.Value.{direct, Arith}
use mizer.Sequencer.Time.{Rig, ClockFrame, seconds, timestamp, rate_matched}
use mizer.Sequencer.Effects.{EffectEngine}
use mizer.Sequencer.Cue.{Cue, Sequence, CueTrigger}
use mizer.Sequencer.State.{
  SequenceState, key_eq, update_channel_states, stop_effects, initial_channel_state, go, begin,
  finish, next_cue, stop_all, channels_of,
}
use mizer.Sequencer.State.Channels.{has_control, lookup-update_channel_states}
use mizer.Sequencer.State.Places.{forward, backward, place}
use mizer.Sequencer.State.Places.Rounds.{run, moves, run-moves}
use mizer.Sequencer.Commands.{
  Sequencer, SequencerCommands, go_forward_command, create_sequence, delete_sequence,
  handle_command, handle_commands, handle_all, with_sequence, moved, state_of, reorder, has,
}
use mizer.Sequencer.Commands.Served.{IsServed, handle_commands-IsServed}
use mizer.Sequencer.Commands.Counter.{IsCounted, create_sequence-IsCounted}
use mizer.Sequencer.Commands.Deleted.{handle_commands-delete_sequence}

abbrev whole : Arith ℕ
whole = record {
  add = λ a b. a + b;
  sub = λ a b. a - b;
  mul = λ a b. a * b;
  div = λ a b. a / b;
  rem = λ a b. a % b;
  neg = λ a. 0;
  gt = λ a b. ltb b a;
}

abbrev pub rig : Rig
rig = record {
  F64 = ℕ;
  zero = 0;
  one = 1;
  add = λ a b. a + b;
  sub = λ a b. a - b;
  mul = λ a b. a * b;
  div = λ a b. a / b;
  le = leb;
  lt = ltb;
  eq = λ a b. a == b;
  from_nat = λ n. n;
  from_secs = λ n. some (n * 1000000000);
  as_secs = λ n. n / 1000000000;
  mul_duration = λ n f. some (n * f);
  Control = ℕ;
  control_eq = nat_eq;
  Channels = ℕ;
  uuid = λ n. n;
}

abbrev pub cue : ℕ → Cue rig
cue id = record {
  id = id;
  trigger = CueTrigger.go;
  trigger_time = none;
  controls = record { control = 9; value = direct 1; fixtures = new (fixture 1 ∷ []) } ∷ [];
  effects = [];
  presets = [];
  cue_fade = some (direct (seconds 2));
  cue_delay = none;
}

abbrev pub with_cues : Bool → List (Cue rig) → Sequence rig
with_cues wrap cues = record {
  id = 4;
  fixtures = fixture 1 ∷ fixture 2 ∷ [];
  cues = cues;
  wrap_around = wrap;
  stop_on_last_cue = false;
  priority = default;
}

abbrev pub three_cues : Sequence rig
three_cues = with_cues true (cue 1 ∷ cue 2 ∷ cue 7 ∷ [])

abbrev pub frame : ClockFrame rig
frame = record { speed = 120; frame = 16; beat = 0; delta = 1; downbeat = true; frames = 60 }

abbrev pub no_effects : EffectEngine rig
no_effects = record { effects = []; instances = []; drawn = 0 }

abbrev pub second : SequenceState rig
second = record {
  active_cue_index = 1;
  active = true;
  rate = 1;
  last_go = none;
  cue_finished_at = none;
  fixture_values = [];
  channel_state = [];
  running_effects = (record { fixtures = new []; effect = 3; effect_offset = none }, 5) ∷ [];
  duration_since_last_go = none;
  duration_since_finished_at = none;
}

run-moves_example :
    (s' : SequenceState rig) × (e' : EffectEngine rig) × (run rig three_cues
        ((forward, 50, frame) ∷ (backward, 60, frame) ∷ [])
        (second, no_effects)
      ≡ some (s', e'))
    × (place s'
        ≡ moves rig three_cues ((forward, 50, frame) ∷ (backward, 60, frame) ∷ []) (place second))
    × (s'.active_cue_index < 3)
run-moves_example =
    run-moves rig three_cues ((forward, 50, frame) ∷ (backward, 60, frame) ∷ []) second no_effects
      (omega arith)

lookup-update_channel_states_example :
    (s' : SequenceState rig) × (update_channel_states rig second three_cues 50 frame ≡ some s')
    × (lookup ⦃e = key_eq rig⦄ (fixture 2, 9) s'.channel_state ≡ (
        if contains_in three_cues.fixtures (fixture 2) && has_control rig 9 (cue 2).controls
        then some (record {
          start_time = timestamp rig 50 frame;
          duration = rate_matched rig (timestamp rig 50 frame);
          state = initial_channel_state rig (cue 2);
        })
        else none))
lookup-update_channel_states_example =
    lookup-update_channel_states rig second three_cues 50 frame (cue 2) (fixture 2) 9 refl

abbrev pub sequencer : List (SequencerCommands rig) → Sequencer rig
sequencer commands = record {
  sequence_counter = 5;
  sequences = (4, three_cues) ∷ [];
  sequence_states = (4, second) ∷ [];
  sequence_order = 4 ∷ [];
  sequence_view = [];
  commands = commands;
  engine = no_effects;
}

abbrev third : SequenceState rig
third = record second {
  active_cue_index = 2;
  last_go = some (timestamp rig 50 frame);
  channel_state = channels_of rig (cue 7) three_cues 50 frame;
  running_effects = [];
}

abbrev gone : Sequencer rig
gone = record (sequencer []) { sequence_states = (4, third) ∷ [] }

sequencer-IsServed : (commands : List (SequencerCommands rig)) → IsServed rig (sequencer commands)
unfolding IsServed lookup has
sequencer-IsServed commands j x a = ground (arith, a)

handle_commands-IsServed_example : IsServed rig gone
unfolding handle_commands handle_all handle_command with_sequence moved state_of lookup insert
    reorder go begin finish next_cue stop_effects stop_all update_channel_states erase
handle_commands-IsServed_example =
    handle_commands-IsServed rig (sequencer (go_forward_command 4 ∷ [])) gone 50 frame
      (sequencer-IsServed (go_forward_command 4 ∷ [])) refl

sequencer-IsCounted : IsCounted rig (sequencer [])
unfolding IsCounted lookup
sequencer-IsCounted j x = ground (arith, x)

create_sequence-IsCounted_example :
    (lookup (create_sequence rig (sequencer [])).1.id (sequencer []).sequences ≡ none)
    × (lookup
          (create_sequence rig (sequencer [])).1.id
          (create_sequence rig (sequencer [])).0.sequences
        ≡ some (create_sequence rig (sequencer [])).1)
    × IsCounted rig (create_sequence rig (sequencer [])).0
create_sequence-IsCounted_example =
    create_sequence-IsCounted rig (sequencer []) sequencer-IsCounted (omega arith)

handle_commands-delete_sequence_example :
    (q' : Sequencer rig) × (handle_commands rig (delete_sequence rig (sequencer []) 4).0 50 frame
      ≡ some q')
    × (lookup 4 q'.sequences ≡ none)
    × (lookup 4 q'.sequence_states ≡ none)
    × (q'.engine ≡ no_effects)
handle_commands-delete_sequence_example =
    handle_commands-delete_sequence rig (sequencer []) 4 50 frame refl

abbrev negate : ℤ → ℤ
negate z = pos 0 -ℤ z

abbrev integers : Arith ℤ
integers = record {
  add = λ a b. a +ℤ b;
  sub = λ a b. a -ℤ b;
  mul = λ a b. a;
  div = λ a b. a;
  rem = λ a b. a;
  neg = negate;
  gt = λ a b. false;
}

negate-sub : (a b : ℤ) → negate (a -ℤ b) ≡ b -ℤ a
negate-sub (pos a) (pos b) = ground arith
negate-sub (pos a) (negsuc b) = ground arith
negate-sub (negsuc a) (pos b) = ground arith
negate-sub (negsuc a) (negsuc b) = ground arith
