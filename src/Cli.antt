-- ===== src/Cli.antt =====
-- src/bin/zsync.rs: the command line program that fetches a target. Text is a list of characters.
mod Tests
pub mod Main
pub mod Run
pub mod Retry
pub mod Json
pub mod Output
pub mod Bar
pub mod Reporter
