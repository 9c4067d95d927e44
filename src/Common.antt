-- ===== src/Common.antt =====
-- examples/common/mod.rs: what the examples share, less its HTTP helpers.
pub mod Message
pub mod Desc
pub mod Import
pub mod Http
pub mod Support
pub mod Res
pub mod Laws
pub mod Scope
