-- ===== src/Fixtures.antt =====
-- Fixtures, crates/components/fixtures: priorities, selections, channel values.
pub mod Id
pub mod Priority
pub mod Selection
pub mod ChannelValues
pub mod Channels
