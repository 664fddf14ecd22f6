-- ===== src/Scsi/Cmd.antt =====
-- struct SCSICmd, and the handlers of src/scsi_cmds that pass a command on to the device:
-- scsi_test_unit_ready.c, scsi_read_capacity_10.c and scsi_rw_10.c.
use virtual_scsidevice.Base.{
  ℕ, zero, suc, ◌+◌, ◌-◌, ltb, Bool, false, if◌then◌else◌, Option, List, [], ◌∷◌,
}
use virtual_scsidevice.Word.{u8, u32}
use virtual_scsidevice.Errors.{no_error, hferr_bad_status, is_error}
use virtual_scsidevice.Request.{IoRequest}
use virtual_scsidevice.Transport.{Transport, Answer}

-- struct SCSICmd of the SDK, as far as the driver uses it. Pointers are addresses with 0 for NULL;
-- `scsi_command` is NULL or the memory from its address on; `autosense` is SCSIF_AUTOSENSE.
pub record ScsiCmd : Type 0 where
  pub scsi_data : ℕ
  pub scsi_length : ℕ
  pub scsi_actual : ℕ
  pub scsi_command : Option (ℕ → ℕ)
  pub scsi_cmd_length : ℕ
  pub scsi_cmd_actual : ℕ
  pub autosense : Bool
  pub scsi_status : ℕ
  pub scsi_sense_data : ℕ
  pub scsi_sense_length : ℕ
  pub scsi_sense_actual : ℕ

-- What a handler leaves: the request, the command, the bytes that the driver itself writes at
-- `scsi_data` and at `scsi_sense_data`, and the system.
pub record Executed {ℓ} (W : Type ℓ) : Type ℓ where
  pub request : IoRequest
  pub cmd : ScsiCmd
  pub written : List ℕ
  pub sense : List ℕ
  pub world : W

-- the first `n` bytes from an address on
abbrev pub bytes_from : ℕ → ℕ → (ℕ → ℕ) → List ℕ
bytes_from zero i mem = []
bytes_from (suc n) i mem = u8 (mem i) ∷ bytes_from n (i + 1) mem

-- Handle_CMD_Success of src/exec_cmds/cmd_stubs.c
abbrev pub cmd_success : IoRequest → IoRequest
cmd_success req = record req { io_error = no_error; io_actual = 0 }

-- Handle_CMD_Update of src/exec_cmds/cmd_update.c
abbrev pub cmd_update : IoRequest → IoRequest
cmd_update req = record req { io_error = no_error }

-- the end of the handlers that pass a command on
unfoldable pub passed {ℓ} : {W : Type ℓ} → Answer → ℕ → IoRequest → ScsiCmd → W → Executed W
passed a actual req cmd world = record {
  request = record req { io_actual = actual; io_error = if is_error a.rc then a.rc else no_error };
  cmd = record cmd { scsi_status = a.scsi_status; scsi_actual = actual };
  written = [];
  sense = [];
  world = world;
}

-- DoIO with the caller's CDB and buffer, and `scsi_Length - residual`
unfoldable pub pass_through {ℓ} :
    {W : Type ℓ} → Transport W → Bool → (ℕ → ℕ) → IoRequest → ScsiCmd → W → Executed W
unfolding passed
pass_through t is_write cdb req cmd world =
    let (a, next) = t.do_io world (bytes_from cmd.scsi_cmd_length 0 cdb) cmd.scsi_length is_write in
    passed a (u32 (cmd.scsi_length + 4294967296 - a.residual)) req cmd next

unfoldable pub test_unit_ready {ℓ} :
    {W : Type ℓ} → Transport W → (ℕ → ℕ) → IoRequest → ScsiCmd → W → Executed W
unfolding passed
test_unit_ready t cdb req cmd world =
    let (a, next) = t.do_io world (bytes_from cmd.scsi_cmd_length 0 cdb) 0 false in
    passed a 0 req cmd next

unfoldable pub read_capacity10 {ℓ} :
    {W : Type ℓ} → Transport W → (ℕ → ℕ) → IoRequest → ScsiCmd → W → Executed W
unfolding pass_through
read_capacity10 t cdb req cmd world =
    if ltb cmd.scsi_length 8
    then record {
      request = record req { io_error = hferr_bad_status };
      cmd = record cmd { scsi_status = 2 };
      written = [];
      sense = [];
      world = world;
    }
    else pass_through t false cdb req cmd world
