-- ===== src/Scsi/Inquiry.antt =====
-- Handle_SCSI_Inquiry of src/scsi_cmds/scsi_inquiry.c. What SNPrintf makes of the target number is an
-- argument.
use virtual_scsidevice.Base.{
  ℕ, ◌+◌, ltb, leb, ◌==◌, ◌&&◌, ◌||◌, Bool, false, not, if◌then◌else◌, List, [], ◌∷◌, bit_and,
}
use virtual_scsidevice.Word.{u8}
use virtual_scsidevice.Errors.{no_error, hferr_bad_status}
use virtual_scsidevice.Request.{IoRequest}
use virtual_scsidevice.Transport.{Transport, byte}
use virtual_scsidevice.Scsi.Cmd.{ScsiCmd, Executed, bytes_from, pass_through}

-- The length that SNPrintf returns, and the characters that it stores.
pub record Printed : Type 0 where
  pub len : ℕ
  pub chars : ℕ → ℕ

-- the serial number and the identification of a target
pub record Names : Type 0 where
  pub serial : Printed
  pub ident : Printed

-- an 18-byte fixed-format sense block
unfoldable pub sense_block : ℕ → ℕ → ℕ → List ℕ
sense_block sense_key asc ascq =
    0x70 ∷ 0 ∷ sense_key ∷ 0 ∷ 0 ∷ 0 ∷ 0 ∷ 10 ∷ 0 ∷ 0 ∷ 0 ∷ 0 ∷ asc ∷ ascq ∷ 0 ∷ 0 ∷ 0 ∷ 0 ∷ []

-- ILLEGAL_REQUEST
abbrev pub illegal_request : ℕ
illegal_request = 5

abbrev pub wants_sense : ScsiCmd → Bool
wants_sense cmd = cmd.autosense && (not (cmd.scsi_sense_data == 0) && leb 18 cmd.scsi_sense_length)

-- a command that fails with CHECK CONDITION and moves no data
abbrev pub bad_status {ℓ} : {W : Type ℓ} → IoRequest → ScsiCmd → W → Executed W
bad_status req cmd world = record {
  request = record req { io_actual = 0; io_error = hferr_bad_status };
  cmd = record cmd { scsi_status = 2; scsi_actual = 0 };
  written = [];
  sense = [];
  world = world;
}

unfoldable pub vpd_illegal_page {ℓ} : {W : Type ℓ} → IoRequest → ScsiCmd → W → Executed W
unfolding sense_block
vpd_illegal_page req cmd world =
    let bad = bad_status req cmd world in
    if wants_sense cmd
    then record bad {
      cmd = record bad.cmd { scsi_sense_actual = 18 };
      sense = sense_block illegal_request 0x24 0x00;
    }
    else bad

-- vpd_begin, the bytes of a page of `needed` bytes, and vpd_finish
unfoldable pub vpd_page {ℓ} : {W : Type ℓ} → ℕ → List ℕ → IoRequest → ScsiCmd → W → Executed W
vpd_page needed page req cmd world =
    if ltb cmd.scsi_length needed || cmd.scsi_data == 0 then bad_status req cmd world else record {
      request = record req { io_actual = needed; io_error = no_error };
      cmd = record cmd { scsi_status = 0; scsi_actual = needed };
      written = page;
      sense = [];
      world = world;
    }

unfoldable pub page_00 : List ℕ
page_00 = 0 ∷ 0x00 ∷ 0 ∷ 3 ∷ 0x00 ∷ 0x80 ∷ 0x83 ∷ []

unfoldable pub page_80 : Printed → List ℕ
page_80 serial = 0 ∷ 0x80 ∷ 0 ∷ u8 serial.len ∷ bytes_from serial.len 0 serial.chars

unfoldable pub page_83 : Printed → List ℕ
page_83 ident =
    0
    ∷ 0x83
    ∷ 0
    ∷ u8 (4 + ident.len)
    ∷ 0x02
    ∷ 0x01
    ∷ 0x00
    ∷ u8 ident.len
    ∷ bytes_from ident.len 0 ident.chars

-- the `switch` on the page code
unfoldable pub vpd {ℓ} : {W : Type ℓ} → Names → ℕ → IoRequest → ScsiCmd → W → Executed W
unfolding vpd_page vpd_illegal_page page_00 page_80 page_83
vpd names pgcode req cmd world =
    if pgcode == 0x00
    then vpd_page 7 page_00 req cmd world
    else if pgcode == 0x80
    then vpd_page (4 + names.serial.len) (page_80 names.serial) req cmd world
    else if pgcode == 0x83
    then vpd_page (4 + (4 + names.ident.len)) (page_83 names.ident) req cmd world
    else vpd_illegal_page req cmd world

unfoldable pub inquiry {ℓ} :
    {W : Type ℓ} → Transport W → Names → (ℕ → ℕ) → IoRequest → ScsiCmd → W → Executed W
unfolding vpd pass_through
inquiry t names cdb req cmd world =
    let evpd = leb 2 cmd.scsi_cmd_length && not (bit_and (byte cdb 1) 0x01 == 0) in
    let pgcode = if leb 3 cmd.scsi_cmd_length then byte cdb 2 else 0 in
    if ltb cmd.scsi_length 5
    then bad_status req cmd world
    else if not evpd
    then pass_through t false cdb req cmd world
    else vpd names pgcode req cmd world
