-- ===== src/Ffi/Flags/Laws.antt =====
-- What the helpers of the flag words promise each other.
use urma_rs.Base.{ℕ, ◌+◌, ◌*◌, ◌/◌, ◌%◌, ◌^◌, ◌<◌, bit_and, ◌≡◌, ap, arith, ltb}
use urma_rs.Ffi.Flags.Fields.{bit_and_field, bit_and_clear, bit_or_field}
use urma_rs.Ffi.Flags.RegSegFlag.{UrmaRegSegFlag}
use urma_rs.Ffi.Flags.RegSegFlag
use urma_rs.Ffi.Flags.ImportSegFlag.{UrmaImportSegFlag}
use urma_rs.Ffi.Flags.ImportSegFlag
use urma_rs.Ffi.Flags.JfsFlag.{UrmaJfsFlag}
use urma_rs.Ffi.Flags.JfsFlag

-- A word seen as a field of it, what stands above that and what stands below.
reg_cut : (v : ℕ) → v ≡ (v / 2 ^ 11 * 2 ^ 6 + v / 2 ^ 5 % 2 ^ 6) * 2 ^ 5 + v % 2 ^ 5
reg_cut v = omega arith

import_cut : (v : ℕ) → v ≡ (v / 2 ^ 7 * 2 ^ 6 + v / 2 ^ 1 % 2 ^ 6) * 2 ^ 1 + v % 2 ^ 1
import_cut v = omega arith

order_cut : (v : ℕ) → v ≡ (v / 2 ^ 11 * 2 ^ 8 + v / 2 ^ 3 % 2 ^ 8) * 2 ^ 3 + v % 2 ^ 3
order_cut v = omega arith

path_cut : (v : ℕ) → v ≡ (v / 2 ^ 12 * 2 ^ 1 + v / 2 ^ 11 % 2 ^ 1) * 2 ^ 11 + v % 2 ^ 11
path_cut v = omega arith

reg-with_access :
    (v a : ℕ)
    → v < 2 ^ 32
    → a < 2 ^ 6
    → (RegSegFlag.with_access (record { value = v }) a).value
      ≡ (v / 2 ^ 11 * 2 ^ 6 + a) * 2 ^ 5 + v % 2 ^ 5
unfolding RegSegFlag.with_access
reg-with_access v a hv ha =
    let hi : v / 2 ^ 11 < 2 ^ 21 = omega arith in
    let mid : v / 2 ^ 5 % 2 ^ 6 < 2 ^ 6 = omega arith in
    let lo : v % 2 ^ 5 < 2 ^ 5 = omega arith in
    ground (
      arith,
      ap (λ (t : ℕ). bit_and t 4294965279) (reg_cut v),
      bit_and_clear 5 6 21 (v / 2 ^ 11) (v / 2 ^ 5 % 2 ^ 6) (v % 2 ^ 5) hi mid lo 2097151 31,
      bit_or_field 5 6 21 (v / 2 ^ 11) a (v % 2 ^ 5) hi ha lo,
    )

reg-access : (v : ℕ) → v < 2 ^ 32 → RegSegFlag.access (record { value = v }) ≡ v / 2 ^ 5 % 2 ^ 6
unfolding RegSegFlag.access
reg-access v hv =
    let hi : v / 2 ^ 11 < 2 ^ 21 = omega arith in
    let mid : v / 2 ^ 5 % 2 ^ 6 < 2 ^ 6 = omega arith in
    let lo : v % 2 ^ 5 < 2 ^ 5 = omega arith in
    ground (
      arith,
      ap (λ (t : ℕ). bit_and t 2016) (reg_cut v),
      bit_and_field 5 6 21 (v / 2 ^ 11) (v / 2 ^ 5 % 2 ^ 6) (v % 2 ^ 5) hi mid lo 63,
    )

-- For a word of 32 bits and access rights of six bits, with_access of a registration flag is read
-- back by access and leaves every other bit.
pub reg-access-with_access :
    (v a : ℕ)
    → v < 2 ^ 32
    → a < 2 ^ 6
    → let g = RegSegFlag.with_access (record { value = v }) a in
      (RegSegFlag.access g ≡ a) × (g.value % 2 ^ 5 ≡ v % 2 ^ 5) × (g.value / 2 ^ 11 ≡ v / 2 ^ 11)
reg-access-with_access v a hv ha =
    let e = reg-with_access v a hv ha in
    let g = RegSegFlag.with_access (record { value = v }) a in
    (ground (arith, e, reg-access g.value (omega (arith, e))), omega (arith, e), omega (arith, e))

import-with_access :
    (v a : ℕ)
    → v < 2 ^ 32
    → a < 2 ^ 6
    → (ImportSegFlag.with_access (record { value = v }) a).value
      ≡ (v / 2 ^ 7 * 2 ^ 6 + a) * 2 ^ 1 + v % 2 ^ 1
unfolding ImportSegFlag.with_access
import-with_access v a hv ha =
    let hi : v / 2 ^ 7 < 2 ^ 25 = omega arith in
    let mid : v / 2 ^ 1 % 2 ^ 6 < 2 ^ 6 = omega arith in
    let lo : v % 2 ^ 1 < 2 ^ 1 = omega arith in
    ground (
      arith,
      ap (λ (t : ℕ). bit_and t 4294967169) (import_cut v),
      bit_and_clear 1 6 25 (v / 2 ^ 7) (v / 2 ^ 1 % 2 ^ 6) (v % 2 ^ 1) hi mid lo 33554431 1,
      bit_or_field 1 6 25 (v / 2 ^ 7) a (v % 2 ^ 1) hi ha lo,
    )

import-access :
    (v : ℕ) → v < 2 ^ 32 → ImportSegFlag.access (record { value = v }) ≡ v / 2 ^ 1 % 2 ^ 6
unfolding ImportSegFlag.access
import-access v hv =
    let hi : v / 2 ^ 7 < 2 ^ 25 = omega arith in
    let mid : v / 2 ^ 1 % 2 ^ 6 < 2 ^ 6 = omega arith in
    let lo : v % 2 ^ 1 < 2 ^ 1 = omega arith in
    ground (
      arith,
      ap (λ (t : ℕ). bit_and t 126) (import_cut v),
      bit_and_field 1 6 25 (v / 2 ^ 7) (v / 2 ^ 1 % 2 ^ 6) (v % 2 ^ 1) hi mid lo 63,
    )

-- For a word of 32 bits and access rights of six bits, with_access of an import flag is read back
-- by access and leaves every other bit.
pub import-access-with_access :
    (v a : ℕ)
    → v < 2 ^ 32
    → a < 2 ^ 6
    → let g = ImportSegFlag.with_access (record { value = v }) a in
      (ImportSegFlag.access g ≡ a) × (g.value % 2 ≡ v % 2) × (g.value / 2 ^ 7 ≡ v / 2 ^ 7)
import-access-with_access v a hv ha =
    let e = import-with_access v a hv ha in
    let g = ImportSegFlag.with_access (record { value = v }) a in
    (
      ground (arith, e, import-access g.value (omega (arith, e))),
      omega (arith, e),
      omega (arith, e),
    )

order-with_order_type :
    (v o : ℕ)
    → v < 2 ^ 32
    → o < 2 ^ 8
    → (JfsFlag.with_order_type (record { value = v }) o).value
      ≡ (v / 2 ^ 11 * 2 ^ 8 + o) * 2 ^ 3 + v % 2 ^ 3
unfolding JfsFlag.with_order_type
order-with_order_type v o hv ho =
    let hi : v / 2 ^ 11 < 2 ^ 21 = omega arith in
    let mid : v / 2 ^ 3 % 2 ^ 8 < 2 ^ 8 = omega arith in
    let lo : v % 2 ^ 3 < 2 ^ 3 = omega arith in
    ground (
      arith,
      ap (λ (t : ℕ). bit_and t 4294965255) (order_cut v),
      bit_and_clear 3 8 21 (v / 2 ^ 11) (v / 2 ^ 3 % 2 ^ 8) (v % 2 ^ 3) hi mid lo 2097151 7,
      bit_or_field 3 8 21 (v / 2 ^ 11) o (v % 2 ^ 3) hi ho lo,
    )

order_type-eq : (v : ℕ) → v < 2 ^ 32 → JfsFlag.order_type (record { value = v }) ≡ v / 2 ^ 3 % 2 ^ 8
unfolding JfsFlag.order_type
order_type-eq v hv =
    let hi : v / 2 ^ 3 / 2 ^ 8 < 2 ^ 21 = omega arith in
    let mid : v / 2 ^ 3 % 2 ^ 8 < 2 ^ 8 = omega arith in
    let e : v / 2 ^ 3 ≡ (v / 2 ^ 3 / 2 ^ 8 * 2 ^ 8 + v / 2 ^ 3 % 2 ^ 8) * 2 ^ 0 + 0 = omega arith in
    ground (
      arith,
      ap (λ (t : ℕ). bit_and t 255) e,
      bit_and_field 0 8 21 (v / 2 ^ 3 / 2 ^ 8) (v / 2 ^ 3 % 2 ^ 8) 0 hi mid (omega arith) 255,
    )

multi_path-eq :
    (v : ℕ) → v < 2 ^ 32 → JfsFlag.multi_path (record { value = v }) ≡ ltb 0 (v / 2 ^ 11 % 2)
unfolding JfsFlag.multi_path
multi_path-eq v hv =
    let hi : v / 2 ^ 12 < 2 ^ 20 = omega arith in
    let mid : v / 2 ^ 11 % 2 ^ 1 < 2 ^ 1 = omega arith in
    let lo : v % 2 ^ 11 < 2 ^ 11 = omega arith in
    ground (
      arith,
      ap (λ (t : ℕ). bit_and t 2048) (path_cut v),
      bit_and_field 11 1 20 (v / 2 ^ 12) (v / 2 ^ 11 % 2 ^ 1) (v % 2 ^ 11) hi mid lo 1,
    )

-- For a word of 32 bits and an order type of eight bits, with_order_type is read back by order_type
-- and changes neither multi_path nor the bits below bit 3.
pub order_type-with_order_type :
    (v o : ℕ)
    → v < 2 ^ 32
    → o < 2 ^ 8
    → let f : UrmaJfsFlag = record { value = v } in
      let g = JfsFlag.with_order_type f o in
      (JfsFlag.order_type g ≡ o)
      × (JfsFlag.multi_path g ≡ JfsFlag.multi_path f)
      × (g.value % 2 ^ 3 ≡ v % 2 ^ 3)
order_type-with_order_type v o hv ho =
    let e = order-with_order_type v o hv ho in
    let g = JfsFlag.with_order_type (record { value = v }) o in
    let fits : g.value < 2 ^ 32 = omega (arith, e) in
    (
      ground (arith, e, order_type-eq g.value fits),
      ground (arith, e, multi_path-eq g.value fits, multi_path-eq v hv),
      omega (arith, e),
    )
