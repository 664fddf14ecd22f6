-- ===== src/Request.antt =====
-- The I/O request of the device (`struct IOStdReq`) and the command numbers that src/BeginIO.c,
-- src/unit_task.c and src/cmd_names.c switch on. The numbers are the SDK's; what the driver uses
-- of them is that they differ, so a command is a constructor.
use virtual_scsidevice.Base.{ℕ, Bool}
use virtual_scsidevice.Errors.{IoError}

pub data Command : Type 0 where
  cmd_read cmd_write cmd_update cmd_clear cmd_flush cmd_start cmd_stop : Command
  td_motor td_seek td_format td_remove td_changenum td_changestate : Command
  td_protstatus td_getdrivetype td_getnumtracks td_addchangeint : Command
  td_remchangeint td_getgeometry td_eject : Command
  td_read64 td_write64 td_seek64 td_format64 : Command
  etd_read etd_write etd_motor etd_seek etd_format etd_update etd_clear : Command
  hd_scsicmd : Command
  nscmd_devicequery nscmd_td_read64 nscmd_td_write64 nscmd_td_seek64 : Command
  nscmd_td_format64 nscmd_td_getgeometry64 nscmd_td_changeunit : Command
  nscmd_td_addstatcallback nscmd_td_remstatcallback : Command
  nscmd_etd_read64 nscmd_etd_write64 nscmd_etd_seek64 nscmd_etd_format64 : Command
  -- a number that no `case` names
  other : ℕ → Command

-- The fields of `struct IOStdReq` that the driver reads or writes. `id` is the request's address;
-- `io_data` is NULL or the address of the caller's buffer; `quick` is IOF_QUICK of io_Flags.
pub record IoRequest : Type 0 where
  pub id : ℕ
  pub io_command : Command
  pub io_error : IoError
  pub quick : Bool
  pub io_actual : ℕ
  pub io_length : ℕ
  pub io_offset : ℕ
  pub io_data : ℕ
