-- ===== src/Scsi/Parse.antt =====
-- Parse_SCSI_Command of src/scsi_cmds/scsi_parse.c. The size of struct SCSICmd is an argument.
use virtual_scsidevice.Base.{ℕ, ltb, ◌==◌, ◌||◌, true, false, if◌then◌else◌, Option, none, some}
use virtual_scsidevice.Errors.{ioerr_badlength, hferr_bad_status}
use virtual_scsidevice.Request.{IoRequest}
use virtual_scsidevice.Transport.{Transport, byte}
use virtual_scsidevice.Scsi.Cmd.{ScsiCmd, Executed, pass_through, test_unit_ready, read_capacity10}
use virtual_scsidevice.Scsi.Inquiry.{Names, sense_block, illegal_request, wants_sense, inquiry}
use virtual_scsidevice.Scsi.Smart.{left_as_is, log_sense, ata_passthrough}

-- FillAutoSense, for a command that is not handled
unfoldable pub unsupported {ℓ} : {W : Type ℓ} → IoRequest → ScsiCmd → W → Executed W
unfolding sense_block
unsupported req cmd world =
    let failed =
      left_as_is (record req { io_error = hferr_bad_status })
        (record cmd { scsi_status = 2; scsi_sense_actual = 0 }) world in
    if wants_sense cmd
    then record failed {
      cmd = record failed.cmd { scsi_sense_actual = 18 };
      sense = sense_block illegal_request 0x20 0x00;
    }
    else failed

-- the `switch` on the opcode
unfoldable pub by_opcode {ℓ} :
    {W : Type ℓ} → Transport W → Names → ℕ → (ℕ → ℕ) → IoRequest → ScsiCmd → W → Executed W
unfolding test_unit_ready inquiry read_capacity10 pass_through log_sense ata_passthrough unsupported
by_opcode t names opcode cdb req cmd world =
    if opcode == 0x00
    then test_unit_ready t cdb req cmd world
    else if opcode == 0x12
    then inquiry t names cdb req cmd world
    else if opcode == 0x25
    then read_capacity10 t cdb req cmd world
    else if opcode == 0x28
    then pass_through t false cdb req cmd world
    else if opcode == 0x2A
    then pass_through t true cdb req cmd world
    else if opcode == 0x4D
    then log_sense cdb req cmd world
    else if opcode == 0x85 || opcode == 0xA1
    then ata_passthrough cdb req cmd world
    else unsupported req cmd world

-- the command, once its structure is known to be there
unfoldable pub run_command {ℓ} :
    {W : Type ℓ} → Transport W → Names → Option (ℕ → ℕ) → IoRequest → ScsiCmd → W → Executed W
unfolding by_opcode
run_command t names none req cmd world =
    left_as_is (record req { io_error = hferr_bad_status }) cmd world
run_command t names (some cdb) req cmd world =
    let started = record cmd {
      scsi_status = 0;
      scsi_cmd_actual = cmd.scsi_cmd_length;
      scsi_sense_actual = 0;
    } in
    if cmd.scsi_cmd_length == 0
    then left_as_is (record req { io_error = hferr_bad_status }) cmd world
    else by_opcode t names (byte cdb 0) cdb req started world

unfoldable pub parse_scsi_command {ℓ} :
    {W : Type ℓ} → Transport W → Names → ℕ → IoRequest → ScsiCmd → W → Executed W
unfolding run_command
parse_scsi_command t names size req cmd world =
    if req.io_data == 0 || ltb req.io_length size
    then left_as_is (record req { io_error = ioerr_badlength }) cmd world
    else run_command t names cmd.scsi_command req cmd world
