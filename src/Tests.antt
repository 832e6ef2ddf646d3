-- ===== src/Tests.antt =====
-- The theorems at concrete inputs, and runs of the model.
mod CommanderTests
mod Chunking
mod FixturesTests
mod LayoutsTests
mod MidiTests
mod SequencerTests
mod ChannelTests
mod ClockTests
mod ConsoleTests
mod TimecodeTests
mod RunTests
mod CommandLineTests
mod EditsTests
