-- ===== src/Commander.antt =====
-- The command executor, crates/runtime/commander/executor: history, executor, write-ahead log.
pub mod Cursor
pub mod Executor
pub mod Impl
pub mod Find
pub mod Session
