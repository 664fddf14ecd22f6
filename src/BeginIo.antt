-- ===== src/BeginIo.antt =====
-- BeginIO, AbortIO and the held requests of src/BeginIO.c, the command list of src/cmd_names.c and
-- the device query of src/ns_cmds/ns_devicequery.c. Handing a message to ReplyMsg, to PutMsg or
-- back to the caller is an output; the debug dump of written data has no effect and is left out.
pub mod Commands
pub mod Conserve
pub mod Abort
use virtual_scsidevice.Base.{
  ℕ, ◌==◌, Bool, true, false, ◌&&◌, Option, none, some, List, [], ◌∷◌, ◌++◌, if◌then◌else◌, ltb,
}
use virtual_scsidevice.Errors.{
  IoError, no_error, ioerr_openfail, ioerr_aborted, ioerr_nocmd, ioerr_badlength,
}
use virtual_scsidevice.Request.{
  IoRequest, Command, cmd_read, cmd_write, cmd_update, cmd_clear, cmd_flush, cmd_start, cmd_stop,
  td_motor, td_seek, td_format, td_remove, td_changenum, td_changestate, td_protstatus,
  td_getdrivetype, td_getnumtracks, td_addchangeint, td_remchangeint, td_getgeometry, td_eject,
  td_read64, td_write64, td_seek64, td_format64, etd_read, etd_write, etd_motor, etd_seek,
  etd_format, etd_update, etd_clear, hd_scsicmd, nscmd_devicequery, nscmd_td_read64,
  nscmd_td_write64, nscmd_td_seek64, nscmd_td_format64, nscmd_td_getgeometry64, nscmd_td_changeunit,
  nscmd_td_addstatcallback, nscmd_td_remstatcallback, nscmd_etd_read64, nscmd_etd_write64,
  nscmd_etd_seek64, nscmd_etd_format64, other,
}

-- The fields of `struct VirtIOUSCSIDevUnit` that BeginIO and AbortIO use. `io_port` is the queue of
-- the unit's message port; `none` says that the unit task is not running.
pub record RequestUnit : Type 0 where
  pub changeint_req : Option IoRequest
  pub remove_req : Option IoRequest
  pub change_count : ℕ
  pub media_present : Bool
  pub io_port : Option (List IoRequest)
  pub port_mutex : Bool

-- struct NSDeviceQueryResult
pub record DeviceQuery : Type 0 where
  pub dev_query_format : ℕ
  pub size_available : ℕ
  pub device_type : ℕ
  pub device_sub_type : ℕ
  pub supported : List Command

-- What a call does: the unit after it, the requests replied by ReplyMsg in order, the request that
-- a quick call leaves with its caller, and what is written to the caller's buffer.
pub record Outcome : Type 0 where
  pub unit : Option RequestUnit
  pub replied : List IoRequest
  pub returned : Option IoRequest
  pub query : Option DeviceQuery

-- sizeof(struct NSDeviceQueryResult): two ULONG, two UWORD and a pointer
abbrev pub device_query_size : ℕ
device_query_size = 16

-- NSDEVTYPE_TRACKDISK
abbrev pub nsdevtype_trackdisk : ℕ
nsdevtype_trackdisk = 5

-- DRIVE3_5
abbrev pub drive3_5 : ℕ
drive3_5 = 1

-- supported_commands
abbrev pub supported_commands : List Command
supported_commands =
    cmd_read ∷ cmd_write ∷ cmd_update ∷ cmd_clear ∷ cmd_flush ∷ cmd_start ∷ cmd_stop ∷ td_motor
    ∷ td_seek ∷ td_format ∷ td_remove ∷ td_changenum ∷ td_changestate ∷ td_protstatus
    ∷ td_getdrivetype ∷ td_getnumtracks ∷ td_addchangeint ∷ td_remchangeint ∷ td_getgeometry
    ∷ td_eject ∷ td_read64 ∷ td_write64 ∷ td_seek64 ∷ td_format64 ∷ etd_read ∷ etd_write ∷ etd_motor
    ∷ etd_seek ∷ etd_format ∷ etd_update ∷ etd_clear ∷ hd_scsicmd ∷ nscmd_devicequery
    ∷ nscmd_td_read64 ∷ nscmd_td_write64 ∷ nscmd_td_seek64 ∷ nscmd_td_format64
    ∷ nscmd_td_getgeometry64 ∷ nscmd_td_changeunit ∷ nscmd_td_addstatcallback
    ∷ nscmd_td_remstatcallback ∷ nscmd_etd_read64 ∷ nscmd_etd_write64 ∷ nscmd_etd_seek64
    ∷ nscmd_etd_format64 ∷ []

-- Handle_NS_DeviceQuery: the request and what is written at io_Data
unfoldable pub device_query : IoRequest → IoRequest × Option DeviceQuery
device_query req =
    if ltb req.io_length device_query_size
    then (record req { io_actual = 0; io_error = ioerr_badlength }, none)
    else (
      record req { io_actual = device_query_size; io_error = no_error },
      some record {
        dev_query_format = 0;
        size_available = device_query_size;
        device_type = nsdevtype_trackdisk;
        device_sub_type = 0;
        supported = supported_commands;
      },
    )

-- The groups of `case` labels of the switch in BeginIO.
pub data Group : Type 0 where
  hold_changeint hold_remove reply_changeint : Group
  motor position : Group
  change_number change_state prot_status drive_type : Group
  query_device queue unknown : Group

-- which group a command stands in
unfoldable pub group : Command → Group
group td_addchangeint = hold_changeint
group td_remove = hold_remove
group td_remchangeint = reply_changeint
group cmd_stop = motor
group cmd_start = motor
group td_motor = motor
group td_seek = position
group td_eject = position
group td_seek64 = position
group etd_motor = position
group etd_seek = position
group cmd_clear = position
group etd_clear = position
group td_changenum = change_number
group td_changestate = change_state
group td_protstatus = prot_status
group td_getdrivetype = drive_type
group nscmd_devicequery = query_device
group cmd_read = queue
group etd_read = queue
group cmd_write = queue
group td_format = queue
group etd_format = queue
group etd_write = queue
group cmd_update = queue
group cmd_flush = queue
group etd_update = queue
group hd_scsicmd = queue
group td_getgeometry = queue
group td_getnumtracks = queue
group td_read64 = queue
group td_write64 = queue
group td_format64 = queue
group nscmd_td_read64 = queue
group nscmd_td_write64 = queue
group nscmd_td_seek64 = queue
group nscmd_td_format64 = queue
group nscmd_td_getgeometry64 = queue
group nscmd_td_changeunit = queue
group nscmd_td_addstatcallback = queue
group nscmd_td_remstatcallback = queue
group nscmd_etd_read64 = queue
group nscmd_etd_write64 = queue
group nscmd_etd_seek64 = queue
group nscmd_etd_format64 = queue
group (other n) = unknown

-- `if (io_Flags & IOF_QUICK) return; ReplyMsg(ioreq); return;`
abbrev pub finish : Option RequestUnit → IoRequest → Option DeviceQuery → Outcome
finish unit req query =
    if req.quick
    then record { unit = unit; replied = []; returned = some req; query = query }
    else record { unit = unit; replied = req ∷ []; returned = none; query = query }

-- a held request, replied with an error code
abbrev pub reply_with : IoError → Option IoRequest → List IoRequest
reply_with err none = []
reply_with err (some held) = record held { io_error = err } ∷ []

-- nothing for the caller: the request is held or queued
abbrev pub keep : RequestUnit → List IoRequest → Outcome
keep unit replied = record { unit = some unit; replied = replied; returned = none; query = none }

abbrev pub td_changenum_actual : Option RequestUnit → ℕ
td_changenum_actual none = 0
td_changenum_actual (some unit) = unit.change_count

abbrev pub td_changestate_actual : Option RequestUnit → ℕ
td_changestate_actual none = 1
td_changestate_actual (some unit) = if unit.media_present then 0 else 1

-- TD_REMCHANGEINT: the held request is replied first
abbrev pub remchangeint : Option RequestUnit → IoRequest → Outcome
remchangeint none req = finish none req none
remchangeint (some unit) req =
    let done = finish (some (record unit { changeint_req = none })) req none in
    record done { replied = reply_with no_error unit.changeint_req ++ done.replied }

-- the queue of the unit's port, when there is one
abbrev pub port_of : Option RequestUnit → Option (List IoRequest)
port_of none = none
port_of (some unit) = unit.io_port

abbrev pub with_port : Option RequestUnit → List IoRequest → Option RequestUnit
with_port none port = none
with_port (some unit) port = some (record unit { io_port = some port })

-- PutMsg to the unit task's port
abbrev pub put_msg : Option RequestUnit → Option (List IoRequest) → IoRequest → Outcome
put_msg unit none req = finish unit (record req { io_error = ioerr_openfail }) none
put_msg unit (some port) req = record {
  unit = with_port unit (port ++ (record req { quick = false } ∷ []));
  replied = [];
  returned = none;
  query = none;
}

-- TD_ADDCHANGEINT and TD_REMOVE
abbrev pub hold_changeint_req : Option RequestUnit → IoRequest → Outcome
hold_changeint_req none req = finish none (record req { io_error = ioerr_openfail }) none
hold_changeint_req (some unit) req =
    keep (record unit { changeint_req = some (record req { quick = false }) })
      (reply_with ioerr_aborted unit.changeint_req)

abbrev pub hold_remove_req : Option RequestUnit → IoRequest → Outcome
hold_remove_req none req = finish none (record req { io_error = ioerr_openfail }) none
hold_remove_req (some unit) req =
    keep (record unit { remove_req = some (record req { quick = false }) })
      (reply_with ioerr_aborted unit.remove_req)

-- the body of each group, on the request with io_Error cleared
unfoldable pub run_group : Group → Option RequestUnit → IoRequest → Outcome
unfolding device_query
run_group hold_changeint unit req = hold_changeint_req unit req
run_group hold_remove unit req = hold_remove_req unit req
run_group reply_changeint unit req = remchangeint unit req
run_group motor unit req = finish unit (record req { io_actual = 1 }) none
run_group position unit req = finish unit req none
run_group change_number unit req =
    finish unit (record req { io_actual = td_changenum_actual unit }) none
run_group change_state unit req =
    finish unit (record req { io_actual = td_changestate_actual unit }) none
run_group prot_status unit req = finish unit (record req { io_actual = 0 }) none
run_group drive_type unit req = finish unit (record req { io_actual = drive3_5 }) none
run_group query_device unit req = finish unit (device_query req).0 (device_query req).1
run_group queue unit req = put_msg unit (port_of unit) req
run_group unknown unit req = finish unit (record req { io_error = ioerr_nocmd }) none

-- _manager_BeginIO
unfoldable pub begin_io : Option RequestUnit → IoRequest → Outcome
unfolding run_group group
begin_io unit req = run_group (group req.io_command) unit (record req { io_error = no_error })

abbrev pub with_msg : IoRequest → Option (List IoRequest) → Option (List IoRequest)
with_msg msg none = none
with_msg msg (some port) = some (msg ∷ port)

-- the loop of AbortIO over the port: the queue without the request, when it stands there
unfoldable pub remove_msg : ℕ → List IoRequest → Option (List IoRequest)
remove_msg id [] = none
remove_msg id (msg ∷ port) =
    let rest = remove_msg id port in if msg.id == id then some port else with_msg msg rest

-- AbortIO, once the walk over the port is done
abbrev pub abort_found : RequestUnit → IoRequest → Option (List IoRequest) → IoError × Outcome
abort_found unit req none = (ioerr_nocmd, keep unit [])
abort_found unit req (some port) = (
  no_error,
  keep (record unit { io_port = some port }) (record req { io_error = ioerr_aborted } ∷ []),
)

abbrev pub abort_port : RequestUnit → Option (List IoRequest) → IoRequest → IoError × Outcome
abort_port unit none req = (ioerr_nocmd, keep unit [])
abort_port unit (some port) req =
    if unit.port_mutex
    then abort_found unit req (remove_msg req.id port)
    else (ioerr_nocmd, keep unit [])

-- _manager_AbortIO, with its return value: `no_error` for 0
unfoldable pub abort_io : Option RequestUnit → IoRequest → IoError × Outcome
unfolding remove_msg
abort_io none req =
    (ioerr_nocmd, record { unit = none; replied = []; returned = none; query = none })
abort_io (some unit) req = abort_port unit unit.io_port req

-- Reply_Held_Async_Reqs: the unit and the replies
unfoldable pub reply_held_async_reqs : RequestUnit → IoError → RequestUnit × List IoRequest
reply_held_async_reqs unit err = (
  record unit { changeint_req = none; remove_req = none },
  reply_with err unit.changeint_req ++ reply_with err unit.remove_req,
)
