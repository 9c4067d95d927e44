-- ===== src/Bench.antt =====
-- examples/urma_bench.rs: the bandwidth and latency benchmark.
pub mod Ops
pub mod Pass
pub mod Pattern
pub mod Desc
pub mod Sizes
pub mod Limits
pub mod Run
pub mod Tcp
