-- ===== src/Scsi/Smart.antt =====
-- The synthetic health data: Handle_SCSI_LogSense and Handle_SCSI_ATAPassthrough
-- (src/scsi_cmds/scsi_log_sense.c and scsi_ata_passthrough.c).
use virtual_scsidevice.Base.{
  ℕ, ◌+◌, ◌-◌, ◌*◌, ◌%◌, ltb, leb, ◌==◌, ◌||◌, not, if◌then◌else◌, Option, none, some, List, [],
  ◌∷◌, length, set, take, replicate,
}
use virtual_scsidevice.Errors.{hferr_bad_status}
use virtual_scsidevice.Request.{IoRequest}
use virtual_scsidevice.Transport.{byte}
use virtual_scsidevice.Scsi.Cmd.{ScsiCmd, Executed, cmd_success}

-- "VirtIO Dummy OK"
abbrev pub health_string : List ℕ
health_string =
    0x56 ∷ 0x69 ∷ 0x72 ∷ 0x74 ∷ 0x49 ∷ 0x4F ∷ 0x20 ∷ 0x44 ∷ 0x75 ∷ 0x6D ∷ 0x6D ∷ 0x79 ∷ 0x20 ∷ 0x4F
    ∷ 0x4B ∷ []

-- the pages, `none` for another page code
unfoldable pub log_page : ℕ → Option (List ℕ)
log_page page_code =
    if page_code == 0x00
    then some (0x00 ∷ 0x00 ∷ 0x00 ∷ 0x02 ∷ 0x00 ∷ 0x2F ∷ [])
    else if page_code == 0x2F
    then some (
        0x2F
        ∷ 0
        ∷ 0
        ∷ (16 + length health_string - 4)
        ∷ 0
        ∷ 0
        ∷ 0x03
        ∷ 0x04
        ∷ 0
        ∷ 0
        ∷ 0
        ∷ 0
        ∷ 0x80
        ∷ 0
        ∷ 0x03
        ∷ length health_string
        ∷ health_string)
    else none

abbrev pub left_as_is {ℓ} : {W : Type ℓ} → IoRequest → ScsiCmd → W → Executed W
left_as_is req cmd world = record {
  request = req;
  cmd = cmd;
  written = [];
  sense = [];
  world = world;
}

-- The copy of a page, which is cut to the allocation length.
unfoldable pub copy_page {ℓ} :
    {W : Type ℓ} → Option (List ℕ) → ℕ → IoRequest → ScsiCmd → W → Executed W
copy_page none allocation_length req cmd world =
    left_as_is (record req { io_error = hferr_bad_status }) (record cmd { scsi_status = 2 }) world
copy_page (some page) allocation_length req cmd world =
    let copied = take allocation_length page in
    if cmd.scsi_status == 0
    then record {
      request = cmd_success req;
      cmd = record cmd { scsi_actual = length copied };
      written = copied;
      sense = [];
      world = world;
    }
    else left_as_is req cmd world

abbrev pub allocation : (ℕ → ℕ) → ℕ
allocation cdb = byte cdb 7 * 256 + byte cdb 8

unfoldable pub log_sense {ℓ} : {W : Type ℓ} → (ℕ → ℕ) → IoRequest → ScsiCmd → W → Executed W
unfolding log_page copy_page
log_sense cdb req cmd world =
    if cmd.scsi_data == 0 || allocation cdb == 0
    then left_as_is (cmd_success req) (record cmd { scsi_actual = 0 }) world
    else copy_page (log_page (byte cdb 2 % 64)) (allocation cdb) req cmd world

-- struct SMARTAttr, in the order of its bytes
abbrev pub s_attrs : List (List ℕ)
s_attrs =
    (1 ∷ 0x0B ∷ 0x00 ∷ 100 ∷ 100 ∷ 0 ∷ 0 ∷ 0 ∷ 0 ∷ 0 ∷ 0 ∷ 0 ∷ [])
    ∷ (9 ∷ 0x03 ∷ 0x00 ∷ 100 ∷ 100 ∷ 1 ∷ 0 ∷ 0 ∷ 0 ∷ 0 ∷ 0 ∷ 0 ∷ [])
    ∷ (12 ∷ 0x03 ∷ 0x00 ∷ 100 ∷ 100 ∷ 1 ∷ 0 ∷ 0 ∷ 0 ∷ 0 ∷ 0 ∷ 0 ∷ [])
    ∷ (194 ∷ 0x02 ∷ 0x00 ∷ 120 ∷ 120 ∷ 0x1E ∷ 0 ∷ 0 ∷ 0 ∷ 0x1E ∷ 0 ∷ 0 ∷ [])
    ∷ (197 ∷ 0x00 ∷ 0x00 ∷ 100 ∷ 100 ∷ 0 ∷ 0 ∷ 0 ∷ 0 ∷ 0 ∷ 0 ∷ 0 ∷ [])
    ∷ (198 ∷ 0x00 ∷ 0x00 ∷ 100 ∷ 100 ∷ 0 ∷ 0 ∷ 0 ∷ 0 ∷ 0 ∷ 0 ∷ 0 ∷ [])
    ∷ []

-- bytes stored from an offset on
abbrev pub put_bytes : List ℕ → ℕ → List ℕ → List ℕ
put_bytes buf off [] = buf
put_bytes buf off (b ∷ bytes) = put_bytes (set buf off b) (off + 1) bytes

-- the loop over the attributes
abbrev pub put_attrs : List ℕ → ℕ → List (List ℕ) → List ℕ
put_attrs buf off [] = buf
put_attrs buf off (a ∷ attrs) =
    let rest = put_attrs (put_bytes buf off a) (off + 12) attrs in
    if leb (off + 12) 362 then rest else buf

unfoldable pub smart_block : List ℕ
smart_block = set (put_attrs (set (replicate 512 0) 0 0x06) 2 s_attrs) 510 0xC0

-- the ATA command of the 16-byte or the 12-byte form
abbrev pub ata_cmd : (ℕ → ℕ) → ℕ
ata_cmd cdb = if byte cdb 0 == 0x85 then byte cdb 14 else byte cdb 9

unfoldable pub ata_passthrough {ℓ} : {W : Type ℓ} → (ℕ → ℕ) → IoRequest → ScsiCmd → W → Executed W
unfolding smart_block
ata_passthrough cdb req cmd world =
    let refused =
      left_as_is (record req { io_error = hferr_bad_status })
        (record cmd { scsi_status = 2; scsi_actual = 0 }) world in
    if not (ata_cmd cdb == 0xB0)
    then refused
    else if cmd.scsi_data == 0 || ltb cmd.scsi_length 512
    then refused
    else record {
      request = cmd_success req;
      cmd = record cmd { scsi_actual = 512; scsi_status = 0 };
      written = smart_block;
      sense = [];
      world = world;
    }
