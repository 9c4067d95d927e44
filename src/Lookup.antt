-- ===== src/Lookup.antt =====
-- examples/urma_lookup.rs: the record directory of the master and the reads of its clients.
pub mod Master
pub mod Client
pub mod System
pub mod Records
pub mod Flow
pub mod Hook
