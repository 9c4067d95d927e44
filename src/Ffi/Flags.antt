-- ===== src/Ffi/Flags.antt =====
-- The word operations on which the flag types of src/ffi.rs stand: C bitfield unions are held as
-- one u32, with helpers that shift and mask. Each child is one union and its helpers.
pub mod Bits
pub mod DeviceFeature
pub mod TpTypeCap
pub mod OrderTypeCap
pub mod TpFeature
pub mod JfsFlag
pub mod RegSegFlag
pub mod ImportSegFlag
pub mod Fields
pub mod Laws
use urma_rs.Base.{ℕ, ◌-◌, ◌*◌, ◌/◌, ◌%◌, ◌^◌, bit_and, bit_or, Bool, not, ◌==◌, if◌then◌else◌}

-- `x << k` on u32: bits pushed past the word are lost.
abbrev pub shl32 : ℕ → ℕ → ℕ
shl32 x k = x * 2 ^ k % 2 ^ 32

-- `x >> k`.
abbrev pub shr : ℕ → ℕ → ℕ
shr x k = x / 2 ^ k

-- `!x` on u32.
abbrev pub not32 : ℕ → ℕ
not32 x = 2 ^ 32 - 1 - x

-- `value & mask != 0`.
abbrev pub has_bits : ℕ → ℕ → Bool
has_bits value mask = not (bit_and value mask == 0)

-- `if on { value |= mask } else { value &= !mask }`.
abbrev pub with_bits : ℕ → ℕ → Bool → ℕ
with_bits value mask on = if on then bit_or value mask else bit_and value (not32 mask)
