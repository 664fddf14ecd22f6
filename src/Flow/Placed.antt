-- ===== src/Flow/Placed.antt =====
-- What VirtIOSCSI_Submit and complete_inflight_slot of src/virtio/virtio_scsi_io.c write to `inflight`:
-- one slot, whose request they set or clear.
use virtual_scsidevice.Base.{
  ℕ, ◌+◌, ◌≡◌, refl, sym, ◌∙◌, subst, Bool, false, not, ltb, if◌then◌else◌, Option, none, some,
  List, ◌++◌, length, get_or, set, if_ind,
}
use virtual_scsidevice.Errors.{hferr_dma, tderr_not_specified}
use virtual_scsidevice.Request.{IoRequest}
use virtual_scsidevice.Virtqueue.{Sg, add_buf}
use virtual_scsidevice.Pipeline.{
  Slot, PipeUnit, Shared, Effect, slot_at, next_slot, submit_release_slot, unmap, max_sg_entries,
}
use virtual_scsidevice.Pipeline.Submit.{
  DmaAnswer, SubmitResult, submitted, no_slot, failed, Submitted, map_data, give_up, unmapped,
  unmap_effects, rolled_back, accept, send, submit_slot, submit_from, submit, sg_chain, fill_req,
  store, reset_resp,
}
use virtual_scsidevice.Pipeline.Keep.{map_data-Maps}
use virtual_scsidevice.Pipeline.Complete.{emptied, complete_request}

-- the request that Submit leaves in the slot
abbrev pub kept_request : SubmitResult → IoRequest → Option IoRequest
kept_request submitted ioreq = some ioreq
kept_request no_slot ioreq = none
kept_request (failed err) ioreq = none

-- Submit writes the slot, and no other.
abbrev pub Placed : List Slot → ℕ → IoRequest → Submitted → Type 0
Placed before slot ioreq out =
    (s : Slot) × (out.unit.inflight ≡ set before slot s) × (s.ioreq ≡ kept_request out.result ioreq)

unmap_request : (l : Option (List Sg)) (s : Slot) → (unmap l s).ioreq ≡ s.ioreq
unmap_request none s = refl
unmap_request (some l) s = refl

send-Placed :
    (dma : DmaAnswer) (shared : Shared) (unit : PipeUnit) (slot : ℕ) (s : Slot) (es : List Effect)
    (ioreq : IoRequest)
    → Placed unit.inflight slot ioreq (send dma shared unit slot s es ioreq)
unfolding send submit_release_slot
send-Placed dma shared unit slot s es ioreq =
    let (out, in_) = sg_chain unit slot s in
    let cookie = get_or unit.req_bufs slot 0 in
    let (sent, vq) = add_buf dma.table shared.vq (out ++ in_) (length out) (length in_) cookie in
    if_ind (Placed unit.inflight slot ioreq) (not sent)
      (give_up tderr_not_specified shared unit slot (rolled_back s slot) (es ++ unmap_effects s))
      (accept vq shared unit slot s es ioreq) (λ _. (rolled_back s slot, refl, refl))
      (λ _. (record s { ioreq = some ioreq; cookie = cookie; buf_slot = slot }, refl, refl))

submit_slot-Placed :
    (dma : DmaAnswer) (shared0 : Shared) (unit : PipeUnit) (slot : ℕ) (ioreq : IoRequest)
    (cdb : List ℕ) (is_write : Bool)
    → (slot_at unit slot).ioreq ≡ none
    → Placed unit.inflight slot ioreq (submit_slot dma shared0 unit slot ioreq cdb is_write)
unfolding submit_slot submit_release_slot
submit_slot-Placed dma shared0 unit slot ioreq cdb is_write free =
    let taken = record unit { free_head = next_slot unit slot; resp_bufs = reset_resp unit slot } in
    let shared = record shared0 {
      req_mem = store shared0.req_mem (get_or unit.req_bufs slot 0) (fill_req unit slot cdb);
    } in
    let pool = get_or unit.data_dma_pool slot false in
    let m = map_data dma pool slot (slot_at unit slot) ioreq is_write in
    let maps = map_data-Maps dma pool slot (slot_at unit slot) ioreq is_write in
    let (out, in_) = sg_chain taken slot m.slot in
    let undone = m.effects ++ unmap_effects m.slot in
    let P = Placed unit.inflight slot ioreq in
    if_ind P (not m.ok) (give_up hferr_dma shared taken slot m.slot m.effects)
      (if ltb max_sg_entries (length out + length in_)
        then give_up hferr_dma shared taken slot (unmapped m.slot) undone
        else send dma shared taken slot m.slot m.effects ioreq)
      (λ _. (m.slot, refl, maps.0 ∙ free))
      (λ _.
        if_ind P (ltb max_sg_entries (length out + length in_))
          (give_up hferr_dma shared taken slot (unmapped m.slot) undone)
          (send dma shared taken slot m.slot m.effects ioreq)
          (λ _. (unmapped m.slot, refl, unmap_request m.slot.dma_list m.slot ∙ (maps.0 ∙ free)))
          (λ _. send-Placed dma shared taken slot m.slot m.effects ioreq))

-- Submit writes the first free slot, which holds no request, and no other slot.
pub submit-Placed :
    (dma : DmaAnswer) (shared : Shared) (unit : PipeUnit) (slot : ℕ) (ioreq : IoRequest)
    (cdb : List ℕ) (is_write : Bool)
    → unit.free_head ≡ some slot
    → (slot_at unit slot).ioreq ≡ none
    → Placed unit.inflight slot ioreq (submit dma shared unit ioreq cdb is_write)
unfolding submit submit_from
submit-Placed dma shared unit slot ioreq cdb is_write e free =
    subst (λ h. Placed unit.inflight slot ioreq (submit_from h dma shared unit ioreq cdb is_write))
      (sym e) (submit_slot-Placed dma shared unit slot ioreq cdb is_write free)

pub complete_request-Placed :
    (shared : Shared) (unit : PipeUnit) (slot : ℕ) (held : IoRequest)
    → (complete_request shared unit slot held).1.inflight
      ≡ set unit.inflight slot (emptied (slot_at unit slot))
unfolding complete_request submit_release_slot
complete_request-Placed shared unit slot held = refl
