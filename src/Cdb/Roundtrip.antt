-- ===== src/Cdb/Roundtrip.antt =====
-- The target reads from the request header the transfer that the driver was asked for.
use virtual_scsidevice.Base.{
  ℕ, ◌+◌, ◌/◌, ◌^◌, ◌<◌, ◌≡◌, refl, Bool, true, false, ◌||◌, some, ltb, ◌==◌, ==_iff, if◌then◌else◌,
  Bool-cases, inl, inr, bit_or, arith,
}
use virtual_scsidevice.Word.{u16, u32, passes, passes-below}
use virtual_scsidevice.Cdb.{
  make_read10_cdb, make_write10_cdb, make_read16_cdb, make_write16_cdb, fill_cdb, make_block_cdb,
  virtio_scsi_set_lun,
}
use virtual_scsidevice.Cdb.Decode.{decode, decode_lun}

decode-read10 :
    (lba blocks : ℕ)
    → lba < 2 ^ 32
    → blocks < 65536
    → decode (fill_cdb (make_read10_cdb lba blocks))
      ≡ some (record { writes = false; lba = lba; blocks = blocks })
unfolding make_read10_cdb fill_cdb decode
decode-read10 lba blocks h k = ground arith

decode-write10 :
    (lba blocks : ℕ)
    → lba < 2 ^ 32
    → blocks < 65536
    → decode (fill_cdb (make_write10_cdb lba blocks))
      ≡ some (record { writes = true; lba = lba; blocks = blocks })
unfolding make_write10_cdb fill_cdb decode
decode-write10 lba blocks h k = ground arith

decode-read16 :
    (lba blocks : ℕ)
    → lba < 2 ^ 64
    → blocks < 2 ^ 32
    → decode (fill_cdb (make_read16_cdb lba blocks))
      ≡ some (record { writes = false; lba = lba; blocks = blocks })
unfolding make_read16_cdb fill_cdb decode
decode-read16 lba blocks h k = ground arith

decode-write16 :
    (lba blocks : ℕ)
    → lba < 2 ^ 64
    → blocks < 2 ^ 32
    → decode (fill_cdb (make_write16_cdb lba blocks))
      ≡ some (record { writes = true; lba = lba; blocks = blocks })
unfolding make_write16_cdb fill_cdb decode
decode-write16 lba blocks h k = ground arith

-- A block transfer of any 64-bit block number and any 32-bit length reaches the target as it was
-- asked for, whichever CDB carries it: nothing is truncated.
pub decode-make_block_cdb :
    (is_write : Bool) (lba blocks : ℕ)
    → lba < 2 ^ 64
    → blocks < 2 ^ 32
    → decode (fill_cdb (make_block_cdb is_write lba blocks))
      ≡ some (record { writes = is_write; lba = lba; blocks = blocks })
unfolding make_block_cdb
decode-make_block_cdb is_write lba blocks h k =
    elim (Bool-cases (ltb 0xFFFFFFFF lba || ltb 0xFFFF blocks)) [
      | inl long ↦ rw long (long_cdb is_write)
      | inr short ↦ rw short (short_cdb is_write short)
    ]
  where
    long_cdb :
        (w : Bool)
        → decode (fill_cdb (if w then make_write16_cdb lba blocks else make_read16_cdb lba blocks))
          ≡ some (record { writes = w; lba = lba; blocks = blocks })
    long_cdb true = decode-write16 lba blocks h k
    long_cdb false = decode-read16 lba blocks h k

    short_cdb :
        (w : Bool)
        → (ltb 0xFFFFFFFF lba || ltb 0xFFFF blocks) ≡ false
        → decode (
            fill_cdb (
              if w
              then make_write10_cdb (u32 lba) (u16 blocks)
              else make_read10_cdb (u32 lba) (u16 blocks)))
          ≡ some (record { writes = w; lba = lba; blocks = blocks })
    short_cdb true e =
        let p : lba < 2 ^ 32 = ground arith in
        let q : blocks < 65536 = ground arith in
        let a : u32 lba ≡ lba = omega arith in
        let b : u16 blocks ≡ blocks = omega arith in rw (a, b) (decode-write10 lba blocks p q)
    short_cdb false e =
        let p : lba < 2 ^ 32 = ground arith in
        let q : blocks < 65536 = ground arith in
        let a : u32 lba ≡ lba = omega arith in
        let b : u16 blocks ≡ blocks = omega arith in rw (a, b) (decode-read10 lba blocks p q)

single_level_table : passes (λ x. bit_or x 0x40 == x + 64) 64 ≡ true
unfolding passes
single_level_table = refl

-- The device reads back the target and the LUN, for a LUN that the single-level format can hold.
pub decode_lun-set_lun :
    (target lun : ℕ)
    → target < 256
    → lun < 16384
    → decode_lun (virtio_scsi_set_lun target lun) ≡ (target, lun)
unfolding virtio_scsi_set_lun decode_lun
decode_lun-set_lun target lun h k =
    let a : u16 lun ≡ lun = omega arith in
    let e : bit_or (lun / 256) 0x40 ≡ lun / 256 + 64 = (==_iff _ _).0 (
      passes-below (λ x. bit_or x 0x40 == x + 64) 64 (lun / 256) single_level_table
        (omega arith)) in
    rw (a, e) (ground arith)
