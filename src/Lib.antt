-- ===== src/Lib.antt =====
-- Mizer, a lighting console: its core logic, modelled and verified.
--
-- Mizer controls lights. Commands from the user interface run one after the other in the main loop,
-- which keeps them in a history, so that they can be undone, and in a log on disk, from which a session
-- is recovered after a crash (crates/runtime/commander). What the lights do comes from sequences of
-- cues, which the sequencer runs in each frame (crates/components/sequencer): it starts and stops
-- effects in the effect engine, and writes the values of its fixtures, each with a priority, to the
-- fixture manager (crates/components/fixtures), in which every channel of a fixture finds the value
-- that wins. Which fixtures a cue or an effect means is a selection, in which fixtures are grouped. The
-- time comes from a clock that counts beats (crates/runtime/clock). The user arranges controls in
-- layouts, by commands (crates/runtime/layouts), and MIDI controllers are read and written by messages
-- (crates/components/connections/protocols/midi). Timecode tracks play and record the values of controls
-- (crates/components/timecode).
--
-- The files, by the part of the program that they model.
--
-- Commander (crates/runtime/commander/executor/src):
--   Commander/Cursor: `OptionIndex`, `CommandCursor` and its push, get, back, forward, and
--     `CommandHistory::index` (history.rs). A cursor stands in a timeline of done and undone commands.
--   Commander/Executor: `CommandExecutor::apply` and `revert`, the keys of the stored states
--     (executor.rs), the trait `Command` (../../src/command.rs) as a record that the theorems take.
--   Commander/Session: run_command, undo, redo, apply_wal (lib.rs), `CommandHistory::add_entry`, undo and
--     redo (history.rs), and the log (write_ahead_log.rs), together as one state.
--   Commander/Find: the searches of the standard library that commands make in lists.
--   Commander/Impl: the implementations of `Command` that work on one world, and several of them as the
--     commands of one executor (../../src/command.rs).
--
-- Fixtures (crates/components/fixtures/src):
--   Fixtures/Id: `FixtureId` (lib.rs).
--   Fixtures/Priority: `FixturePriority`, `LTPPriority`, their order, enumeration and numbers (priority.rs).
--   Fixtures/Selection: `FixtureSelection` and all its operations except shuffle (selection.rs). The
--     function `chunks` of the crate itertools is a parameter, `Itertools`, with what it documents.
--   Fixtures/ChannelValues: `ChannelValues`, `FadeState` (channel_values.rs), `FadeTimings` (manager.rs).
--   Fixtures/Channels: `ChannelsWithValues` (channel_values.rs).
--
-- Sequencer (crates/components/sequencer/src):
--   Sequencer/Value: `SequencerValue` and its operators (value.rs).
--   Sequencer/Time: timestamps and durations (state.rs), `ClockFrame` (crates/runtime/clock/src/lib.rs),
--     linear_extrapolate (crates/util/src/lerp_extension.rs), and the parameter `Rig`: floating-point
--     numbers, the controls of fixtures, which are only compared, the crate uuid.
--   Sequencer/Effects: `EffectEngine`, `EffectInstance` (effects/engine.rs, effects/instance.rs).
--   Sequencer/Cue: the data of cues and sequences (cue.rs, cue_preset.rs, sequence.rs).
--   Sequencer/State: `SequenceState` and go, go_backward, go_to, stop, get_next_cue (state.rs).
--   Sequencer/Commands: `Sequencer`: its commands, order, views, identifiers (sequencer.rs).
--   Sequencer/Progress: the measured times (state.rs), should_go, update_state (cue.rs).
--   Sequencer/Values: `CueControl::values` (cue.rs).
--   Sequencer/Run: `Sequence::run` (sequence.rs) and handle_sequences (sequencer.rs).
--   Sequencer/Merge: merge_controls and merge_presets (cue.rs).
--   Sequencer/Edits: `Sequencer::update_sequence` (sequencer.rs), get_cue, get_control, get_effect and the
--     commands that set one field or move a sequence (../commands/src).
--   Sequencer/Whole: the commands that add, duplicate and delete a sequence (../commands/src). The
--     commands on nodes are a parameter, `Nodes`.
--
-- Command line (crates/components/command-line/src):
--   CommandLine/Ranges: `Id`, here EntityId, its order (lib.rs), and `Range::evaluate_range` (ast/mod.rs).
--
-- Layouts (crates/runtime/layouts):
--   Layouts: the data (src/lib.rs), with `PresetId` (crates/components/fixtures/src/programmer/presets.rs).
--   Layouts/Store: update_layout, get_layout, get_control (commands/src/lib.rs).
--   Layouts/Commands: add_layout, remove_layout, rename_layout, duplicate_layout (commands/src).
--   Layouts/Controls: add_layout_control and delete_layout_control (commands/src).
--   Layouts/Edits: the commands that set one field of a control (commands/src).
--
-- Console: `sequence_edits` and `control_edits`, the commands of Sequencer/Edits and Layouts/Edits that
--   they list, in one executor.
--
-- Clock (crates/runtime/clock/src/lib.rs):
--   Clock: `SystemClock`, `Tapper`, tick, set_state, tap, resync.
--   Clock/Timecode: `Timecode`, build, new, from_i128, from_duration.
--
-- Timecode (crates/components/timecode/src):
--   Timecode: `TimecodeManager`, its tracks and its data (manager.rs, model.rs). The splines are a
--     parameter, `Splines`.
--   Timecode/Playback: starting, stopping, writing a timestamp, advancing, recording (manager.rs).
--   Timecode/Calls: the calls in any order.
--   Timecode/Commands: the commands (commands).
--   Timecode/Controls: the controls and their values (manager.rs).
--
-- MIDI (crates/components/connections/protocols/midi/messages/src):
--   Midi: `Channel`, `MidiMessage`, decoding and encoding (message.rs, consts.rs).
--
-- Prelude has lists measured by native numbers, signed and 32-bit numbers, Boolean tests, and hash maps
-- as association lists. Tests holds the theorems at concrete inputs.
--
-- Conventions. A panic is `none`; errors are values. A number of 32 bits wraps around where the source
-- computes with it. An instant and a duration are a number of nanoseconds. A hash map is a list with
-- one entry for each key; nothing depends on the order of the entries. A call reads the clock once.
-- Numbers with a floating point are a parameter, `Rig`; where an order or the size of a number matters,
-- its laws are hypotheses (IsRange, IsOrdered, CountsBars), for numbers that are exact enough only: not
-- for the one that does not equal itself, nor for a beat from which taking a bar off takes nothing. One
-- loop has fuel, `wrap_beat`, which takes bars off the beat: where the bars can be counted it needs more
-- fuel than there are bars, and on a beat that is too large no fuel is enough. All others are structural. The
-- abstract view of a history is a list of done and a list of undone commands; the abstract view of a
-- sequence is its place, idle or at a cue, with the function `move`.
--
-- Not modelled: threads and channels (the handlers run in the main loop, one at a time), names and
-- labels that are only shown, hashing and printing, the splines of effects, the storage of presets
-- (an argument of `run`), random shuffling, the views of layouts, the mixing of colours, the fixture
-- manager and the programmer, and the other crates: projects, the drivers of connections and the device
-- profiles, nodes and pipeline, the rest of the command line, media, plan, surfaces, the user
-- interface.
pub mod Clock
pub mod CommandLine
pub mod Commander
pub mod Console
pub mod Fixtures
pub mod Layouts
pub mod Midi
pub mod Prelude
pub mod Sequencer
pub mod Tests
pub mod Timecode
