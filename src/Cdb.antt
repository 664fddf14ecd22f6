-- ===== src/Cdb.antt =====
-- The CDB builders of src/scsi_cdb_helpers.c, the request header of
-- include/virtio/virtio_scsi_cmd.h, and the choice of CDB in `submit_block_io` of src/unit_task.c.
pub mod Decode
pub mod Roundtrip
use virtual_scsidevice.Base.{
  ℕ, ◌+◌, ◌-◌, ◌*◌, ◌/◌, ◌%◌, List, [], ◌∷◌, ◌++◌, Bool, ◌||◌, ltb, ◌==◌, if◌then◌else◌, take,
  replicate, length, bit_or,
}
use virtual_scsidevice.Word.{u8, u16, u32}

unfoldable pub make_read_capacity16_cdb : List ℕ
make_read_capacity16_cdb = 0x9E ∷ 0x10 ∷ 0 ∷ 0 ∷ 0 ∷ 0 ∷ 0 ∷ 0 ∷ 0 ∷ 0 ∷ 0 ∷ 0 ∷ 0 ∷ 32 ∷ 0 ∷ 0 ∷ []

unfoldable pub make_read10_cdb : ℕ → ℕ → List ℕ
make_read10_cdb lba blocks =
    0x28
    ∷ 0
    ∷ lba / 16777216 % 256
    ∷ lba / 65536 % 256
    ∷ lba / 256 % 256
    ∷ lba % 256
    ∷ 0
    ∷ blocks / 256 % 256
    ∷ blocks % 256
    ∷ 0
    ∷ []

unfoldable pub make_write10_cdb : ℕ → ℕ → List ℕ
make_write10_cdb lba blocks =
    0x2A
    ∷ 0
    ∷ lba / 16777216 % 256
    ∷ lba / 65536 % 256
    ∷ lba / 256 % 256
    ∷ lba % 256
    ∷ 0
    ∷ blocks / 256 % 256
    ∷ blocks % 256
    ∷ 0
    ∷ []

unfoldable pub make_read16_cdb : ℕ → ℕ → List ℕ
make_read16_cdb lba blocks =
    0x88
    ∷ 0
    ∷ lba / 72057594037927936 % 256
    ∷ lba / 281474976710656 % 256
    ∷ lba / 1099511627776 % 256
    ∷ lba / 4294967296 % 256
    ∷ lba / 16777216 % 256
    ∷ lba / 65536 % 256
    ∷ lba / 256 % 256
    ∷ lba % 256
    ∷ blocks / 16777216 % 256
    ∷ blocks / 65536 % 256
    ∷ blocks / 256 % 256
    ∷ blocks % 256
    ∷ 0
    ∷ 0
    ∷ []

unfoldable pub make_write16_cdb : ℕ → ℕ → List ℕ
make_write16_cdb lba blocks =
    0x8A
    ∷ 0
    ∷ lba / 72057594037927936 % 256
    ∷ lba / 281474976710656 % 256
    ∷ lba / 1099511627776 % 256
    ∷ lba / 4294967296 % 256
    ∷ lba / 16777216 % 256
    ∷ lba / 65536 % 256
    ∷ lba / 256 % 256
    ∷ lba % 256
    ∷ blocks / 16777216 % 256
    ∷ blocks / 65536 % 256
    ∷ blocks / 256 % 256
    ∷ blocks % 256
    ∷ 0
    ∷ 0
    ∷ []

-- VIRTIO_SCSI_CDB_SIZE
abbrev pub cdb_size : ℕ
cdb_size = 32

-- The two copy loops that fill `req_cmd->cdb`: at most 32 bytes of the CDB, then zeros.
unfoldable pub fill_cdb : List ℕ → List ℕ
fill_cdb cdb =
    let copy_len = (if ltb (length cdb) cdb_size then length cdb else cdb_size) in
    take copy_len cdb ++ replicate (cdb_size - copy_len) 0

-- `(uint8)target` and `(uint16)lun` are the casts at the calls.
unfoldable pub virtio_scsi_set_lun : ℕ → ℕ → List ℕ
virtio_scsi_set_lun target lun =
    1 ∷ u8 target ∷ u8 (bit_or (u16 lun / 256) 0x40) ∷ u16 lun % 256 ∷ 0 ∷ 0 ∷ 0 ∷ 0 ∷ []

-- the CDB that carries a block transfer
unfoldable pub make_block_cdb : Bool → ℕ → ℕ → List ℕ
unfolding make_read10_cdb make_write10_cdb make_read16_cdb make_write16_cdb
make_block_cdb is_write lba blocks =
    if ltb 0xFFFFFFFF lba || ltb 0xFFFF blocks
    then (if is_write then make_write16_cdb lba blocks else make_read16_cdb lba blocks)
    else (if is_write
        then make_write10_cdb (u32 lba) (u16 blocks)
        else make_read10_cdb (u32 lba) (u16 blocks))

-- The block size that `submit_block_io` and `Handle_NS_TD_IO64` divide by.
abbrev pub io_block_size : Bool → ℕ → ℕ
io_block_size geometry_valid block_size =
    if geometry_valid then (if block_size == 0 then 512 else block_size) else 512

-- `blocks`: the transfer length in blocks, at least 1
abbrev pub transfer_blocks : ℕ → ℕ → ℕ
transfer_blocks io_length blksz =
    let blocks = io_length / blksz in if blocks == 0 then 1 else blocks
