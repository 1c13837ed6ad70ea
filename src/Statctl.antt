-- ===== src/Statctl.antt =====
-- cmd/statctl: the command line of the rollouts.
pub mod Args
pub mod Bar
pub mod Steps
pub mod Texts
pub mod Durations
pub mod SprtPanel
pub mod Dashboard
pub mod Client
pub mod Commands
pub mod Reads
pub mod Watch
pub mod Main
