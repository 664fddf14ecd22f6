-- ===== src/Pipeline/Complete.antt =====
-- complete_inflight_slot of src/virtio/virtio_scsi_io.c.
use virtual_scsidevice.Base.{
  ℕ, ◌-◌, ◌^◌, ◌==◌, ltb, Bool, ◌&&◌, not, if◌then◌else◌, Option, none, some, List, [], ◌∷◌, ◌++◌,
  get_or, bit_and,
}
use virtual_scsidevice.Word.{vr32}
use virtual_scsidevice.Errors.{is_error, map_scsi_error}
use virtual_scsidevice.Request.{IoRequest}
use virtual_scsidevice.Pipeline.{
  RespCmd, no_resp, Slot, PipeUnit, Shared, Effect, end_dma, copy_from_bounce, reply_msg, slot_at,
  submit_release_slot, put_slot, unmap,
}

-- io_Error and io_Actual from the response. `virtio_scsi_resp_residual` is `vr32`.
unfoldable pub finish_request : Bool → RespCmd → IoRequest → IoRequest
unfolding map_scsi_error
finish_request modern resp ioreq =
    let err = map_scsi_error resp.response resp.status (bit_and (get_or resp.sense 2 0) 0x0F) in
    let residual = vr32 modern resp.residual in
    record ioreq {
      io_error = err;
      io_actual =
          if is_error err
          then 0
          else if ltb ioreq.io_length residual
          then 0
          else ioreq.io_length - residual;
    }

-- the read-back from the bounce buffer
unfoldable pub read_back : ℕ → Slot → IoRequest → List Effect
read_back slot s ioreq =
    if s.using_bounce
      && (not s.is_write && (not (is_error ioreq.io_error) && ltb 0 ioreq.io_actual))
    then copy_from_bounce slot s.dma_addr ioreq.io_actual ∷ []
    else []

abbrev pub end_mapping : Slot → List Effect
end_mapping s = elim s.dma_list [
  | none ↦ []
  | some list ↦ end_dma s.dma_addr s.dma_size s.dma_flags ∷ []
]

-- the slot after the completion
abbrev pub emptied : Slot → Slot
emptied s = record (unmap s.dma_list s) { ioreq = none; cookie = 0 }

-- `if (x > 0) x--`
abbrev pub decrement : ℕ → ℕ
decrement n = if ltb 0 n then n - 1 else n

-- The mask after a unit's count went from a positive number to `count`.
abbrev pub drained_mask : ℕ → ℕ → ℕ → ℕ
drained_mask unit_num count mask =
    if ltb 0 count && (count - 1 == 0) then bit_and mask (255 - 2 ^ unit_num) else mask

-- complete_inflight_slot, for the request that the slot holds
unfoldable pub complete_request :
    Shared → PipeUnit → ℕ → IoRequest → Shared × PipeUnit × List Effect
unfolding finish_request read_back submit_release_slot
complete_request shared target slot held =
    let s = slot_at target slot in
    let ioreq = finish_request shared.vq.modern (get_or target.resp_bufs slot no_resp) held in
    (
      record shared {
        occupied_count = decrement shared.occupied_count;
        active_units_mask =
            drained_mask target.unit_num target.inflight_count shared.active_units_mask;
      },
      record (submit_release_slot (put_slot target slot (emptied s)) slot) {
        inflight_count = decrement target.inflight_count;
      },
      read_back slot s ioreq ++ (end_mapping s ++ (reply_msg ioreq ∷ [])),
    )

-- A slot without a request is not completed: the callers have checked that it holds one.
unfoldable pub complete_held :
    Option IoRequest → Shared → PipeUnit → ℕ → Shared × PipeUnit × List Effect
unfolding complete_request
complete_held none shared target slot = (shared, target, [])
complete_held (some held) shared target slot = complete_request shared target slot held

unfoldable pub complete_inflight_slot : Shared → PipeUnit → ℕ → Shared × PipeUnit × List Effect
unfolding complete_held
complete_inflight_slot shared target slot =
    complete_held (slot_at target slot).ioreq shared target slot
