-- ===== src/Flow/Held.antt =====
-- The requests in the slots of the units, counted by address, before and after VirtIOSCSI_Submit, a
-- completion and UnitTask_Dispatch (src/virtio/virtio_scsi_io.c, src/unit_task.c).
use virtual_scsidevice.Base.{
  ℕ, zero, suc, ◌+◌, ◌/◌, ◌≡◌, ◌≢◌, ◌<◌, refl, sym, ap, subst, ◌==◌, Bool, if◌then◌else◌, Option,
  none, some, List, [], ◌∷◌, ◌++◌, length, get_or, set, arith,
}
use virtual_scsidevice.Chain.{count, count_head}
use virtual_scsidevice.Cdb.{make_block_cdb, io_block_size, transfer_blocks}
use virtual_scsidevice.Request.{IoRequest}
use virtual_scsidevice.Pipeline.{Slot, PipeUnit, Shared, Effect, reply_msg, idle_slot, slot_at}
use virtual_scsidevice.Pipeline.Submit.{
  DmaAnswer, SubmitResult, submitted, no_slot, failed, Submitted, submit, submit_from,
}
use virtual_scsidevice.Pipeline.Complete.{emptied, complete_request}
use virtual_scsidevice.Pipeline.Slots.{table, SlotsOk}
use virtual_scsidevice.Pipeline.Finish.{replies}
use virtual_scsidevice.Pipeline.Quiet.{Quiet, submit-Quiet}
use virtual_scsidevice.UnitTask.{
  Task, Handler, block_io32, block_io64, handle, no_op, unknown_cmd, task_of, Services, BlockSize,
  submit_block_io, after_result, reply_unless, run_task, dispatch, offset64, finished_request,
  failed_request,
}
use virtual_scsidevice.UnitTask.Dispatched.{finished_request_id, one_reply}
use virtual_scsidevice.Flow.Placed.{kept_request, submit-Placed, complete_request-Placed}

-- whether a request has the address, how often one of a list has, and how many slots hold it
abbrev pub named : ℕ → IoRequest → ℕ
named id r = if r.id == id then 1 else 0

abbrev pub occurs : ℕ → List IoRequest → ℕ
occurs id [] = 0
occurs id (r ∷ rs) = named id r + occurs id rs

abbrev pub held_request : ℕ → Option IoRequest → ℕ
held_request id none = 0
held_request id (some r) = named id r

abbrev pub slots_held : ℕ → List Slot → ℕ
slots_held id [] = 0
slots_held id (s ∷ slots) = held_request id s.ioreq + slots_held id slots

pub occurs-append :
    (id : ℕ) (rs ss : List IoRequest) → occurs id (rs ++ ss) ≡ occurs id rs + occurs id ss
occurs-append id [] ss = omega arith
occurs-append id (r ∷ rs) ss = omega (arith, occurs-append id rs ss)

slots_held-set :
    (id : ℕ) (slots : List Slot) (i : ℕ) (s : Slot)
    → i < length slots
    → slots_held id (set slots i s) + held_request id (get_or slots i idle_slot).ioreq
      ≡ slots_held id slots + held_request id s.ioreq
slots_held-set id [] i s h = absurd (omega arith)
slots_held-set id (x ∷ slots) zero s h = omega arith
slots_held-set id (x ∷ slots) (suc i) s h =
    omega (arith, slots_held-set id slots i s (omega (arith, h)))

-- Submit adds its request to the slots exactly when it succeeds.
submit-held :
    (id : ℕ) (dma : DmaAnswer) (shared : Shared) (unit : PipeUnit) (free : List ℕ)
    (ioreq : IoRequest) (cdb : List ℕ) (is_write : Bool)
    → SlotsOk (table unit) free
    → let out = submit dma shared unit ioreq cdb is_write in
      slots_held id out.unit.inflight
      ≡ slots_held id unit.inflight + held_request id (kept_request out.result ioreq)
unfolding submit submit_from
submit-held id dma shared unit [] ioreq cdb is_write ok =
    subst
      (λ h.
        let out = submit_from h dma shared unit ioreq cdb is_write in
        slots_held id out.unit.inflight
        ≡ slots_held id unit.inflight + held_request id (kept_request out.result ioreq))
      (sym ok.linked) (omega arith)
submit-held id dma shared unit (slot ∷ rest) ioreq cdb is_write ok =
    let taken : count slot (slot ∷ rest) ≢ 0 = λ e. omega (arith, e, count_head slot rest) in
    let empty = (ok.idle slot taken).no_request in
    let (s, wrote, holds) =
      submit-Placed dma shared unit slot ioreq cdb is_write ok.linked.0 empty in
    let inside : slot < length unit.inflight = omega (arith, ok.below slot taken, ok.slot_size) in
    omega (
      arith,
      ap (slots_held id) wrote,
      ap (held_request id) holds,
      ap (held_request id) empty,
      slots_held-set id unit.inflight slot s inside,
    )

-- A completion takes its request from the slots.
pub complete_request-held :
    (id : ℕ) (shared : Shared) (unit : PipeUnit) (slot : ℕ) (held : IoRequest)
    → slot < length unit.inflight
    → (slot_at unit slot).ioreq ≡ some held
    → slots_held id (complete_request shared unit slot held).1.inflight + named id held
      ≡ slots_held id unit.inflight
complete_request-held id shared unit slot held inside e = omega (
  arith,
  ap (slots_held id) (complete_request-Placed shared unit slot held),
  ap (held_request id) e,
  slots_held-set id unit.inflight slot (emptied (slot_at unit slot)) inside,
)

-- A request handed to the unit is in a slot or is replied, once, and no other request moves.
abbrev Accounted : ℕ → PipeUnit → IoRequest → PipeUnit → List Effect → Type 0
Accounted id unit ioreq after effects =
    slots_held id after.inflight + occurs id (replies effects)
    ≡ slots_held id unit.inflight + named id ioreq

reply-Accounted :
    (id : ℕ) (unit : PipeUnit) (ioreq : IoRequest) (after : PipeUnit) (done : IoRequest)
    (effects : List Effect)
    → slots_held id after.inflight ≡ slots_held id unit.inflight
    → done.id ≡ ioreq.id
    → Quiet effects
    → Accounted id unit ioreq after (effects ++ (reply_msg done ∷ []))
reply-Accounted id unit ioreq after done effects same own quiet = omega (
  arith,
  same,
  ap {B = ℕ} (λ i. if i == id then 1 else 0) own,
  ap (occurs id) (one_reply effects done quiet),
)

after_result-held :
    (id : ℕ) (services : Services) (unit : PipeUnit) (cdb : List ℕ) (ioreq : IoRequest)
    (is_write : Bool) (result : SubmitResult) (out : Submitted)
    → slots_held id out.unit.inflight
      ≡ slots_held id unit.inflight + held_request id (kept_request result ioreq)
    → Quiet out.effects
    → let st = (reply_unless (after_result services unit result cdb ioreq is_write, out)).1 in
      Accounted id unit ioreq st.unit st.effects
unfolding after_result
after_result-held id services unit cdb ioreq is_write submitted out h q =
    omega (arith, h, ap (occurs id) q)
after_result-held id services unit cdb ioreq is_write no_slot out h q =
    let (err, residual) = services.do_io unit ioreq cdb is_write in
    reply-Accounted id unit ioreq out.unit (finished_request err residual ioreq) out.effects
      (omega (arith, h)) (finished_request_id err residual ioreq) q
after_result-held id services unit cdb ioreq is_write (failed err) out h q =
    reply-Accounted id unit ioreq out.unit (failed_request err ioreq) out.effects (omega (arith, h))
      refl q

submit_block_io-held :
    (id : ℕ) (services : Services) (dma : DmaAnswer) (size : BlockSize) (shared : Shared)
    (unit : PipeUnit) (free : List ℕ) (ioreq : IoRequest) (offset : ℕ) (is_write : Bool)
    → SlotsOk (table unit) free
    → let st =
        (reply_unless (submit_block_io services dma size shared unit ioreq offset is_write)).1 in
      Accounted id unit ioreq st.unit st.effects
unfolding submit_block_io
submit_block_io-held id services dma size shared unit free ioreq offset is_write ok =
    let blksz = io_block_size size.geometry_valid size.block_size in
    let cdb = make_block_cdb is_write (offset / blksz) (transfer_blocks ioreq.io_length blksz) in
    let out = submit dma shared unit ioreq cdb is_write in
    after_result-held id services unit cdb ioreq is_write out.result out
      (submit-held id dma shared unit free ioreq cdb is_write ok)
      (submit-Quiet dma shared unit ioreq cdb is_write)

run_task-held :
    (id : ℕ) (services : Services) (dma : DmaAnswer) (size : BlockSize) (shared : Shared)
    (unit : PipeUnit) (free : List ℕ) (ioreq : IoRequest) (task : Task)
    → ((h : Handler) (r : IoRequest) → (services.handler h r).id ≡ r.id)
    → SlotsOk (table unit) free
    → let st = (run_task services dma size shared unit ioreq task).1 in
      Accounted id unit ioreq st.unit st.effects
unfolding run_task replies
run_task-held id services dma size shared unit free ioreq (block_io32 is_write) same ok =
    submit_block_io-held id services dma size shared unit free ioreq ioreq.io_offset is_write ok
run_task-held id services dma size shared unit free ioreq (block_io64 is_write) same ok =
    submit_block_io-held id services dma size shared unit free ioreq (offset64 ioreq) is_write ok
run_task-held id services dma size shared unit free ioreq (handle h) same ok =
    omega (arith, ap {B = ℕ} (λ i. if i == id then 1 else 0) (same h ioreq))
run_task-held id services dma size shared unit free ioreq no_op same ok = omega arith
run_task-held id services dma size shared unit free ioreq unknown_cmd same ok = omega arith

-- UnitTask_Dispatch leaves every request but its own where it is.
pub dispatch-held :
    (id : ℕ) (services : Services) (dma : DmaAnswer) (size : BlockSize) (shared : Shared)
    (unit : PipeUnit) (free : List ℕ) (ioreq : IoRequest)
    → ((h : Handler) (r : IoRequest) → (services.handler h r).id ≡ r.id)
    → SlotsOk (table unit) free
    → let st = (dispatch services dma size shared unit ioreq).1 in
      slots_held id st.unit.inflight + occurs id (replies st.effects)
      ≡ slots_held id unit.inflight + named id ioreq
unfolding dispatch
dispatch-held id services dma size shared unit free ioreq same ok =
    run_task-held id services dma size shared unit free ioreq (task_of ioreq.io_command) same ok
