-- ===== src/UnitTask.antt =====
-- The unit task of src/unit_task.c: what it does with a request from its port, and what it does with
-- its requests when it ends. Of the commands that it answers itself this file has the routing; their
-- handlers, and VirtIOSCSI_DoIO for the case that no slot is free, are arguments.
pub mod Dispatched
pub mod Drained
pub mod Header
use virtual_scsidevice.Base.{
  ℕ, zero, suc, ◌+◌, ◌-◌, ◌*◌, ◌/◌, ◌%◌, Bool, true, false, not, Option, none, some, List, [], ◌∷◌,
  ◌++◌, if◌then◌else◌, get_or, set, bit_or,
}
use virtual_scsidevice.Cdb.{make_block_cdb, io_block_size, transfer_blocks}
use virtual_scsidevice.Errors.{IoError, no_error, is_error, ioerr_nocmd, ioerr_aborted}
use virtual_scsidevice.Request.{
  IoRequest, Command, cmd_read, etd_read, cmd_write, td_format, etd_format, etd_write, td_read64,
  td_write64, td_format64, nscmd_td_read64, nscmd_etd_read64, nscmd_td_write64, nscmd_td_format64,
  nscmd_etd_write64, nscmd_etd_format64, cmd_update, cmd_flush, etd_update, td_getgeometry,
  td_getnumtracks, hd_scsicmd, nscmd_td_getgeometry64, nscmd_td_seek64, nscmd_td_changeunit,
  nscmd_td_addstatcallback, nscmd_td_remstatcallback, nscmd_etd_seek64,
}
use virtual_scsidevice.Pipeline.{
  PipeUnit, Shared, Effect, Slot, reply_msg, slot_at, put_slot, unmap,
}
use virtual_scsidevice.Pipeline.Submit.{
  DmaAnswer, Submitted, SubmitResult, submitted, no_slot, failed, submit, unmap_effects,
}

-- What UnitTask_Dispatch does with a command: block I/O, with the offset in 32 or 64 bits and the
-- direction; a handler; a no-op; or the `default` case.
pub data Handler : Type 0 where
  update get_geometry get_num_tracks parse_scsi get_geometry64 : Handler

pub data Task : Type 0 where
  block_io32 block_io64 : (is_write : Bool) → Task
  handle : Handler → Task
  no_op unknown_cmd : Task

-- the `case` labels of UnitTask_Dispatch
unfoldable pub task_of : Command → Task
task_of cmd_read = block_io32 false
task_of etd_read = block_io32 false
task_of cmd_write = block_io32 true
task_of td_format = block_io32 true
task_of etd_format = block_io32 true
task_of etd_write = block_io32 true
task_of td_read64 = block_io64 false
task_of td_write64 = block_io64 true
task_of td_format64 = block_io64 true
task_of nscmd_td_read64 = block_io64 false
task_of nscmd_etd_read64 = block_io64 false
task_of nscmd_td_write64 = block_io64 true
task_of nscmd_td_format64 = block_io64 true
task_of nscmd_etd_write64 = block_io64 true
task_of nscmd_etd_format64 = block_io64 true
task_of cmd_update = handle update
task_of cmd_flush = handle update
task_of etd_update = handle update
task_of td_getgeometry = handle get_geometry
task_of td_getnumtracks = handle get_num_tracks
task_of hd_scsicmd = handle parse_scsi
task_of nscmd_td_getgeometry64 = handle get_geometry64
task_of nscmd_td_seek64 = no_op
task_of nscmd_td_changeunit = no_op
task_of nscmd_td_addstatcallback = no_op
task_of nscmd_td_remstatcallback = no_op
task_of nscmd_etd_seek64 = no_op
task_of _ = unknown_cmd

-- `((uint64)io_Actual << 32) | io_Offset`
abbrev pub offset64 : IoRequest → ℕ
offset64 ioreq = bit_or (ioreq.io_actual * 4294967296) ioreq.io_offset

-- The geometry of the unit that the block size comes from.
pub record BlockSize : Type 0 where
  pub geometry_valid : Bool
  pub block_size : ℕ

-- The state of the task's unit and of the driver, and the calls made so far.
pub record TaskState : Type 0 where
  pub shared : Shared
  pub unit : PipeUnit
  pub effects : List Effect

-- The results of VirtIOSCSI_DoIO and the handlers: the error and residual of the one, the request after
-- the others. What DoIO does besides, to the ring and to the requests of others, is Meanwhile of Flow.antt.
pub record Services : Type 0 where
  pub do_io : PipeUnit → IoRequest → List ℕ → Bool → IoError × ℕ
  pub handler : Handler → IoRequest → IoRequest

-- what submit_block_io writes into a request that was not submitted
abbrev pub failed_request : IoError → IoRequest → IoRequest
failed_request err ioreq = record ioreq { io_error = err; io_actual = 0 }

abbrev pub finished_request : IoError → ℕ → IoRequest → IoRequest
finished_request err residual ioreq =
    if is_error err then failed_request err ioreq else record ioreq {
      io_error = no_error;
      io_actual = (ioreq.io_length + 4294967296 - residual) % 4294967296;
    }

-- The end of submit_block_io, by the result of Submit: TRUE and the request left to the pipeline, or
-- FALSE and the request to reply.
unfoldable pub after_result :
    Services → PipeUnit → SubmitResult → List ℕ → IoRequest → Bool → Bool × IoRequest
after_result services unit submitted cdb ioreq is_write = (true, ioreq)
after_result services unit no_slot cdb ioreq is_write =
    let (err, residual) = services.do_io unit ioreq cdb is_write in
    (false, finished_request err residual ioreq)
after_result services unit (failed err) cdb ioreq is_write = (false, failed_request err ioreq)

-- submit_block_io
unfoldable pub submit_block_io :
    Services
    → DmaAnswer
    → BlockSize
    → Shared
    → PipeUnit
    → IoRequest
    → ℕ
    → Bool
    → (Bool × IoRequest) × Submitted
unfolding submit make_block_cdb after_result
submit_block_io services dma size shared unit ioreq offset is_write =
    let blksz = io_block_size size.geometry_valid size.block_size in
    let cdb = make_block_cdb is_write (offset / blksz) (transfer_blocks ioreq.io_length blksz) in
    let out = submit dma shared unit ioreq cdb is_write in
    (after_result services unit out.result cdb ioreq is_write, out)

-- The reply of a request that was not submitted, and whether a kick is needed.
abbrev pub reply_unless : (Bool × IoRequest) × Submitted → Bool × TaskState
reply_unless ((true, ioreq), out) =
    (true, record { shared = out.shared; unit = out.unit; effects = out.effects })
reply_unless ((false, ioreq), out) = (
  false,
  record { shared = out.shared; unit = out.unit; effects = out.effects ++ (reply_msg ioreq ∷ []) },
)

abbrev pub reply_now : Shared → PipeUnit → IoRequest → Bool × TaskState
reply_now shared unit ioreq =
    (false, record { shared = shared; unit = unit; effects = reply_msg ioreq ∷ [] })

unfoldable pub run_task :
    Services → DmaAnswer → BlockSize → Shared → PipeUnit → IoRequest → Task → Bool × TaskState
unfolding submit_block_io
run_task services dma size shared unit ioreq (block_io32 is_write) =
    reply_unless (submit_block_io services dma size shared unit ioreq ioreq.io_offset is_write)
run_task services dma size shared unit ioreq (block_io64 is_write) =
    reply_unless (submit_block_io services dma size shared unit ioreq (offset64 ioreq) is_write)
run_task services dma size shared unit ioreq (handle h) =
    reply_now shared unit (services.handler h ioreq)
run_task services dma size shared unit ioreq no_op =
    reply_now shared unit (record ioreq { io_error = no_error })
run_task services dma size shared unit ioreq unknown_cmd =
    reply_now shared unit (record ioreq { io_error = ioerr_nocmd })

-- UnitTask_Dispatch
unfoldable pub dispatch :
    Services → DmaAnswer → BlockSize → Shared → PipeUnit → IoRequest → Bool × TaskState
unfolding run_task task_of
dispatch services dma size shared unit ioreq =
    run_task services dma size shared unit ioreq (task_of ioreq.io_command)

-- The shutdown drain of one slot: the request is replied as aborted and the slot is emptied. The
-- free list and the counters are not touched.
abbrev pub drain_slot : Option IoRequest → Slot → Slot × List Effect
drain_slot none s = (s, [])
drain_slot (some ioreq) s = (
  record (unmap s.dma_list s) { ioreq = none; cookie = 0 },
  reply_msg (record ioreq { io_error = ioerr_aborted }) ∷ unmap_effects s,
)

-- the loop over the slots
unfoldable pub drain_slots : List Slot → List Slot × List Effect
drain_slots [] = ([], [])
drain_slots (s ∷ slots) =
    let (s', effects) = drain_slot s.ioreq s in
    let (slots', more) = drain_slots slots in (s' ∷ slots', effects ++ more)

-- the loop over the port
unfoldable pub drain_port : List IoRequest → List Effect
drain_port [] = []
drain_port (ioreq ∷ port) = reply_msg (record ioreq { io_error = ioerr_aborted }) ∷ drain_port port
