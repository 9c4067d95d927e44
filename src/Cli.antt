-- ===== src/Cli.antt =====
-- examples/urma_cli.rs: the command line tool.
pub mod Preflight
pub mod Hex
pub mod Reader
pub mod Desc
pub mod Run
