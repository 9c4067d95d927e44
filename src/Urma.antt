-- ===== src/Urma.antt =====
-- src/urma.rs.
pub mod Values
pub mod Modes
pub mod Init
pub mod Context
pub mod Cq
pub mod Seg
pub mod Jetty
pub mod Peer
pub mod Post
pub mod Cap
pub mod Device
pub mod Release
