-- ===== src/CommandLine.antt =====
-- The command line, crates/components/command-line: the ranges of identifiers.
pub mod Ranges
