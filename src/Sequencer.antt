-- ===== src/Sequencer.antt =====
-- The sequencer, crates/components/sequencer: values and times, cues, the state of a running sequence,
-- effects, and the commands that the main loop handles.
pub mod Value
pub mod Time
pub mod Effects
pub mod Cue
pub mod State
pub mod Commands
pub mod Progress
pub mod Merge
pub mod Values
pub mod Run
pub mod Edits
pub mod Whole
