-- ===== src/Word.antt =====
-- Fixed-width integers as native numbers: casts, big-endian byte groups, and the byte swaps of
-- include/virtio/virtqueue.h (`vr16`, `vr32`, `vr64`).
use virtual_scsidevice.Base.{
  ℕ, zero, suc, ◌+◌, ◌*◌, ◌/◌, ◌%◌, ◌<◌, ◌≡◌, refl, Bool, true, false, if◌then◌else◌, arith,
}

-- casts to uint8, uint16, uint32 and uint64
abbrev pub u8 : ℕ → ℕ
u8 n = n % 256

abbrev pub u16 : ℕ → ℕ
u16 n = n % 65536

abbrev pub u32 : ℕ → ℕ
u32 n = n % 4294967296

abbrev pub u64 : ℕ → ℕ
u64 n = n % 18446744073709551616

-- (b0 << 24) | (b1 << 16) | (b2 << 8) | b3, for bytes
abbrev pub be32 : ℕ → ℕ → ℕ → ℕ → ℕ
be32 b0 b1 b2 b3 = b0 * 16777216 + b1 * 65536 + b2 * 256 + b3

-- the 64-bit value whose high and low halves are given
abbrev pub be64 : ℕ → ℕ → ℕ
be64 hi lo = hi * 4294967296 + lo

unfoldable pub bswap16 : ℕ → ℕ
bswap16 v = v % 256 * 256 + v / 256 % 256

unfoldable pub bswap32 : ℕ → ℕ
bswap32 v = v % 256 * 16777216 + v / 256 % 256 * 65536 + v / 65536 % 256 * 256 + v / 16777216 % 256

unfoldable pub bswap64 : ℕ → ℕ
bswap64 v = bswap32 (v % 4294967296) * 4294967296 + bswap32 (v / 4294967296)

unfoldable pub vr16 : Bool → ℕ → ℕ
vr16 modern v = if modern then bswap16 v else v

unfoldable pub vr32 : Bool → ℕ → ℕ
vr32 modern v = if modern then bswap32 v else v

unfoldable pub vr64 : Bool → ℕ → ℕ
vr64 modern v = if modern then bswap64 v else v

pub bswap16-bswap16 : (v : ℕ) → v < 65536 → bswap16 (bswap16 v) ≡ v
unfolding bswap16
bswap16-bswap16 v h = omega arith

pub bswap32_bound : (v : ℕ) → bswap32 v < 4294967296
unfolding bswap32
bswap32_bound v = omega arith

pub bswap32-bswap32 : (v : ℕ) → v < 4294967296 → bswap32 (bswap32 v) ≡ v
unfolding bswap32
bswap32-bswap32 v h = omega arith

pub vr16_bound : (m : Bool) (v : ℕ) → v < 65536 → vr16 m v < 65536
unfolding vr16 bswap16
vr16_bound true v h = omega arith
vr16_bound false v h = h

-- What the driver writes through `vr16` the reader at the same mode reads back.
pub vr16-vr16 : (m : Bool) (v : ℕ) → v < 65536 → vr16 m (vr16 m v) ≡ v
unfolding vr16
vr16-vr16 true v h = bswap16-bswap16 v h
vr16-vr16 false v h = refl

pub vr32-vr32 : (m : Bool) (v : ℕ) → v < 4294967296 → vr32 m (vr32 m v) ≡ v
unfolding vr32
vr32-vr32 true v h = bswap32-bswap32 v h
vr32-vr32 false v h = refl

bswap64-bswap64 : (v : ℕ) → v < 18446744073709551616 → bswap64 (bswap64 v) ≡ v
unfolding bswap64
bswap64-bswap64 v h =
    let lo = bswap32 (v % 4294967296) in
    let hi = bswap32 (v / 4294967296) in
    let hl : hi < 4294967296 = bswap32_bound (v / 4294967296) in
    let e1 : (lo * 4294967296 + hi) % 4294967296 ≡ hi = omega arith in
    let e2 : (lo * 4294967296 + hi) / 4294967296 ≡ lo = omega arith in
    rw (e1, e2)
      (omega (
        arith,
        bswap32-bswap32 (v % 4294967296) (omega arith),
        bswap32-bswap32 (v / 4294967296) (omega arith),
      ))

pub vr64-vr64 : (m : Bool) (v : ℕ) → v < 18446744073709551616 → vr64 m (vr64 m v) ≡ v
unfolding vr64
vr64-vr64 true v h = bswap64-bswap64 v h
vr64-vr64 false v h = refl

-- The test succeeds at every number from 0 to below the bound.
unfoldable pub passes : (ℕ → Bool) → ℕ → Bool
passes test zero = true
passes test (suc bound) = if test bound then passes test bound else false

pub passes-below :
    (test : ℕ → Bool) (bound i : ℕ) → passes test bound ≡ true → i < bound → test i ≡ true
unfolding passes
passes-below test zero i all inside = absurd (omega arith)
passes-below test (suc bound) i all inside = ground (arith, passes-below test bound i, all, inside)
