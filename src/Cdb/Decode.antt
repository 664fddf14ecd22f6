-- ===== src/Cdb/Decode.antt =====
-- What a SCSI target reads from the bytes that the driver sends: the READ and WRITE command layouts
-- of SBC and the single-level LUN of SAM, written from the standards and not from the driver.
use virtual_scsidevice.Base.{
  ℕ, ◌+◌, ◌*◌, ◌%◌, List, Bool, true, false, Option, some, none, ◌==◌, if◌then◌else◌, get_or,
}
use virtual_scsidevice.Word.{be32, be64}

pub record Transfer : Type 0 where
  pub writes : Bool
  pub lba : ℕ
  pub blocks : ℕ

-- the byte at an offset of a CDB
abbrev at : List ℕ → ℕ → ℕ
at cdb i = get_or cdb i 0

abbrev long_at : List ℕ → ℕ → ℕ
long_at cdb i = be32 (at cdb i) (at cdb (i + 1)) (at cdb (i + 2)) (at cdb (i + 3))

decode10 : Bool → List ℕ → Transfer
decode10 w cdb = record { writes = w; lba = long_at cdb 2; blocks = at cdb 7 * 256 + at cdb 8 }

decode16 : Bool → List ℕ → Transfer
decode16 w cdb = record {
  writes = w;
  lba = be64 (long_at cdb 2) (long_at cdb 6);
  blocks = long_at cdb 10;
}

-- The target reads the operation code first. In the ten-byte commands a length of 0 moves nothing.
unfoldable pub decode : List ℕ → Option Transfer
unfolding decode10 decode16
decode cdb =
    if at cdb 0 == 0x28
    then some (decode10 false cdb)
    else if at cdb 0 == 0x2A
    then some (decode10 true cdb)
    else if at cdb 0 == 0x88
    then some (decode16 false cdb)
    else if at cdb 0 == 0x8A
    then some (decode16 true cdb)
    else none

-- the target and the LUN that the device reads from the LUN field
unfoldable pub decode_lun : List ℕ → ℕ × ℕ
decode_lun l = (get_or l 1 0, (get_or l 2 0 * 256 + get_or l 3 0) % 16384)
