-- ===== src/Tests.antt =====
-- Runs of the definitions on concrete inputs, and the theorems at concrete inputs.
pub mod Library
pub mod Runs
pub mod Posts
pub mod Polls
pub mod Released
pub mod Peers
pub mod Reads
pub mod Barriers
pub mod Hooks
pub mod Rounds
pub mod Caps
pub mod Directory
pub mod Tools
pub mod Passes
pub mod Sweeps
