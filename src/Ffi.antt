-- ===== src/Ffi.antt =====
-- src/ffi.rs: the constants, flag words and structs of the C interface, the calls into
-- liburma.so, and the monad of a computation that makes them.
pub mod Consts
pub mod Flags
pub mod DeviceCap
pub mod Structs
pub mod Requests
pub mod Liburma
pub mod World
pub mod Io
