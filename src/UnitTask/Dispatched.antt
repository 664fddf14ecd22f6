-- ===== src/UnitTask/Dispatched.antt =====
-- What UnitTask_Dispatch of src/unit_task.c makes of a request that BeginIO queued.
use virtual_scsidevice.Base.{
  ℕ, ◌+◌, ◌-◌, ◌%◌, ◌/◌, ◌≡◌, refl, sym, ap, subst, ◌∙◌, Bool, true, false, if_ind, some, List, [],
  ◌∷◌, ◌++◌,
}
use virtual_scsidevice.Errors.{IoError, is_error, no_error, ioerr_nocmd}
use virtual_scsidevice.Request.{
  IoRequest, Command, cmd_read, cmd_write, cmd_update, cmd_clear, cmd_flush, cmd_start, cmd_stop,
  td_motor, td_seek, td_format, td_remove, td_changenum, td_changestate, td_protstatus,
  td_getdrivetype, td_getnumtracks, td_addchangeint, td_remchangeint, td_getgeometry, td_eject,
  td_read64, td_write64, td_seek64, td_format64, etd_read, etd_write, etd_motor, etd_seek,
  etd_format, etd_update, etd_clear, hd_scsicmd, nscmd_devicequery, nscmd_td_read64,
  nscmd_td_write64, nscmd_td_seek64, nscmd_td_format64, nscmd_td_getgeometry64, nscmd_td_changeunit,
  nscmd_td_addstatcallback, nscmd_td_remstatcallback, nscmd_etd_read64, nscmd_etd_write64,
  nscmd_etd_seek64, nscmd_etd_format64, other,
}
use virtual_scsidevice.Cdb.{make_block_cdb, io_block_size, transfer_blocks}
use virtual_scsidevice.BeginIo.{Group, queue, group}
use virtual_scsidevice.Pipeline.{PipeUnit, Shared, Effect, reply_msg, slot_at}
use virtual_scsidevice.Pipeline.Submit.{
  DmaAnswer, Submitted, SubmitResult, submitted, no_slot, failed, submit,
}
use virtual_scsidevice.Pipeline.Slots.{table, SlotsOk}
use virtual_scsidevice.Pipeline.Keep.{SubmitPost, submit-SlotsOk}
use virtual_scsidevice.Pipeline.Finish.{replies, replies-append}
use virtual_scsidevice.Pipeline.Quiet.{Quiet, submit-Quiet}
use virtual_scsidevice.UnitTask.{
  Task, Handler, block_io32, block_io64, handle, no_op, unknown_cmd, task_of, Services, BlockSize,
  TaskState, submit_block_io, after_result, finished_request, failed_request, reply_unless,
  run_task, dispatch, offset64,
}

-- UnitTask_Dispatch does not answer IOERR_NOCMD
unfoldable pub known : Task → Bool
known unknown_cmd = false
known _ = true

-- BeginIO queues the commands of this group
unfoldable pub queued : Group → Bool
queued queue = true
queued _ = false

-- The unit task knows exactly the commands that BeginIO queues for it.
task_of-group : (c : Command) → known (task_of c) ≡ queued (group c)
unfolding known task_of queued group
task_of-group cmd_read = refl
task_of-group cmd_write = refl
task_of-group cmd_update = refl
task_of-group cmd_clear = refl
task_of-group cmd_flush = refl
task_of-group cmd_start = refl
task_of-group cmd_stop = refl
task_of-group td_motor = refl
task_of-group td_seek = refl
task_of-group td_format = refl
task_of-group td_remove = refl
task_of-group td_changenum = refl
task_of-group td_changestate = refl
task_of-group td_protstatus = refl
task_of-group td_getdrivetype = refl
task_of-group td_getnumtracks = refl
task_of-group td_addchangeint = refl
task_of-group td_remchangeint = refl
task_of-group td_getgeometry = refl
task_of-group td_eject = refl
task_of-group td_read64 = refl
task_of-group td_write64 = refl
task_of-group td_seek64 = refl
task_of-group td_format64 = refl
task_of-group etd_read = refl
task_of-group etd_write = refl
task_of-group etd_motor = refl
task_of-group etd_seek = refl
task_of-group etd_format = refl
task_of-group etd_update = refl
task_of-group etd_clear = refl
task_of-group hd_scsicmd = refl
task_of-group nscmd_devicequery = refl
task_of-group nscmd_td_read64 = refl
task_of-group nscmd_td_write64 = refl
task_of-group nscmd_td_seek64 = refl
task_of-group nscmd_td_format64 = refl
task_of-group nscmd_td_getgeometry64 = refl
task_of-group nscmd_td_changeunit = refl
task_of-group nscmd_td_addstatcallback = refl
task_of-group nscmd_td_remstatcallback = refl
task_of-group nscmd_etd_read64 = refl
task_of-group nscmd_etd_write64 = refl
task_of-group nscmd_etd_seek64 = refl
task_of-group nscmd_etd_format64 = refl
task_of-group (other n) = refl

-- The request is in the pipeline, in the slot that was the first free one, and is not replied; or it
-- is replied, once, and the slots are as before.
abbrev pub Handed : List ℕ → IoRequest → Bool × TaskState → Type 0
Handed free ioreq (true, state) =
    (slot : ℕ) × (rest : List ℕ) × (free ≡ slot ∷ rest)
    × SlotsOk (table state.unit) rest
    × ((slot_at state.unit slot).ioreq ≡ some ioreq)
    × (replies state.effects ≡ [])
Handed free ioreq (false, state) =
    SlotsOk (table state.unit) free
    × (done : IoRequest) × (replies state.effects ≡ done ∷ [])
    × (done.id ≡ ioreq.id)

pub one_reply :
    (es : List Effect) (r : IoRequest) → Quiet es → replies (es ++ (reply_msg r ∷ [])) ≡ r ∷ []
unfolding replies
one_reply es r q = replies-append es (reply_msg r ∷ []) ∙ ap (λ l. l ++ (r ∷ [])) q

pub finished_request_id :
    (err : IoError) (residual : ℕ) (ioreq : IoRequest)
    → (finished_request err residual ioreq).id ≡ ioreq.id
finished_request_id err residual ioreq =
    if_ind (λ (r : IoRequest). r.id ≡ ioreq.id) (is_error err) (failed_request err ioreq)
      (record ioreq {
        io_error = no_error;
        io_actual = (ioreq.io_length + 4294967296 - residual) % 4294967296;
      })
      (λ _. refl) (λ _. refl)

after_result-Handed :
    (services : Services) (shared : Shared) (unit : PipeUnit) (free : List ℕ) (cdb : List ℕ)
    (ioreq : IoRequest) (is_write : Bool) (result : SubmitResult) (out : Submitted)
    → SlotsOk (table unit) free
    → SubmitPost unit free shared ioreq result out
    → Quiet out.effects
    → Handed free ioreq (reply_unless (after_result services unit result cdb ioreq is_write, out))
unfolding after_result
after_result-Handed services shared unit free cdb ioreq is_write submitted out ok post q =
    let (slot, rest, cut, ok', holds, counted, same_id, bufs) = post in
    (slot, rest, cut, ok', holds, q)
after_result-Handed services shared unit free cdb ioreq is_write no_slot out ok post q =
    let (err, residual) = services.do_io unit ioreq cdb is_write in
    let done = finished_request err residual ioreq in
    (
      subst (λ u. SlotsOk (table u) free) (sym post.1) ok,
      done,
      one_reply out.effects done q,
      finished_request_id err residual ioreq,
    )
after_result-Handed services shared unit free cdb ioreq is_write (failed err) out ok post q =
    (post.0, failed_request err ioreq, one_reply out.effects (failed_request err ioreq) q, refl)

submit_block_io-Handed :
    (services : Services) (dma : DmaAnswer) (size : BlockSize) (shared : Shared) (unit : PipeUnit)
    (free : List ℕ) (ioreq : IoRequest) (offset : ℕ) (is_write : Bool)
    → SlotsOk (table unit) free
    → Handed free ioreq
        (reply_unless (submit_block_io services dma size shared unit ioreq offset is_write))
unfolding submit_block_io
submit_block_io-Handed services dma size shared unit free ioreq offset is_write ok =
    let blksz = io_block_size size.geometry_valid size.block_size in
    let cdb = make_block_cdb is_write (offset / blksz) (transfer_blocks ioreq.io_length blksz) in
    let out = submit dma shared unit ioreq cdb is_write in
    after_result-Handed services shared unit free cdb ioreq is_write out.result out ok
      (submit-SlotsOk dma shared unit free ioreq cdb is_write ok)
      (submit-Quiet dma shared unit ioreq cdb is_write)

run_task-Handed :
    (services : Services) (dma : DmaAnswer) (size : BlockSize) (shared : Shared) (unit : PipeUnit)
    (free : List ℕ) (ioreq : IoRequest) (task : Task)
    → ((h : Handler) (r : IoRequest) → (services.handler h r).id ≡ r.id)
    → SlotsOk (table unit) free
    → Handed free ioreq (run_task services dma size shared unit ioreq task)
unfolding run_task replies
run_task-Handed services dma size shared unit free ioreq (block_io32 is_write) same ok =
    submit_block_io-Handed services dma size shared unit free ioreq ioreq.io_offset is_write ok
run_task-Handed services dma size shared unit free ioreq (block_io64 is_write) same ok =
    submit_block_io-Handed services dma size shared unit free ioreq (offset64 ioreq) is_write ok
run_task-Handed services dma size shared unit free ioreq (handle h) same ok =
    (ok, services.handler h ioreq, refl, same h ioreq)
run_task-Handed services dma size shared unit free ioreq no_op same ok =
    (ok, record ioreq { io_error = no_error }, refl, refl)
run_task-Handed services dma size shared unit free ioreq unknown_cmd same ok =
    (ok, record ioreq { io_error = ioerr_nocmd }, refl, refl)

-- For a unit whose slots are in order, UnitTask_Dispatch either puts the request into the
-- pipeline, returning TRUE, or replies to it, once, returning FALSE, and the slots stay in
-- order; the handlers are taken to keep the request's address.
pub dispatch-Handed :
    (services : Services) (dma : DmaAnswer) (size : BlockSize) (shared : Shared) (unit : PipeUnit)
    (free : List ℕ) (ioreq : IoRequest)
    → ((h : Handler) (r : IoRequest) → (services.handler h r).id ≡ r.id)
    → SlotsOk (table unit) free
    → Handed free ioreq (dispatch services dma size shared unit ioreq)
unfolding dispatch
dispatch-Handed services dma size shared unit free ioreq same ok =
    run_task-Handed services dma size shared unit free ioreq (task_of ioreq.io_command) same ok
