-- ===== src/Pipeline/Quiet.antt =====
-- VirtIOSCSI_Submit of src/virtio/virtio_scsi_io.c replies no request itself.
use virtual_scsidevice.Base.{
  ℕ, ◌+◌, ◌≡◌, refl, ap, ◌∙◌, Bool, true, false, not, ◌&&◌, ◌||◌, leb, ltb, ◌==◌, if◌then◌else◌,
  if_ind, none, some, List, [], ◌∷◌, ◌++◌, length, get_or,
}
use virtual_scsidevice.Errors.{hferr_dma, tderr_not_specified}
use virtual_scsidevice.Request.{IoRequest}
use virtual_scsidevice.Virtqueue.{add_buf}
use virtual_scsidevice.Pipeline.{
  PipeUnit, Shared, Effect, Slot, end_dma, copy_to_bounce, slot_at, max_sg_entries, bounce_buf_size,
  next_slot,
}
use virtual_scsidevice.Pipeline.Submit.{
  DmaAnswer, Submitted, Mapped, map_bounce, map_direct, map_direct_failed, map_direct_started,
  map_direct_refused, map_direct_done, map_nothing, map_data, unmap_effects, give_up, accept,
  unmapped, rolled_back, send, sg_chain, submit_slot, submit_from, submit, reset_resp, store,
  fill_req,
}
use virtual_scsidevice.Pipeline.Finish.{replies, replies-append}

-- Submit replies nothing.
abbrev pub Quiet : List Effect → Type 0
Quiet es = replies es ≡ []

pub Quiet-append : (es fs : List Effect) → Quiet es → Quiet fs → Quiet (es ++ fs)
Quiet-append es fs a b = replies-append es fs ∙ (ap (λ l. l ++ replies fs) a ∙ b)

pub unmap_effects-Quiet : (s : Slot) → Quiet (unmap_effects s)
unfolding replies
unmap_effects-Quiet s =
    elim s.dma_list
      as (λ l.
        replies (elim l [
          | none ↦ []
          | some list ↦ end_dma s.dma_addr s.dma_size (record s.dma_flags { no_modify = true }) ∷ []
        ])
        ≡ []) [ none ↦ refl | some l ↦ refl ]

map_data-Quiet :
    (dma : DmaAnswer) (pool : Bool) (slot : ℕ) (s : Slot) (ioreq : IoRequest) (is_write : Bool)
    → Quiet (map_data dma pool slot s ioreq is_write).effects
unfolding map_data replies
map_data-Quiet dma pool slot s ioreq is_write =
    let s0 = record s { is_write = is_write; using_bounce = false } in
    let some_data = (not (ioreq.io_data == 0) && ltb 0 ioreq.io_length) in
    let P = λ (m : Mapped). Quiet m.effects in
    if_ind P (some_data && leb ioreq.io_length bounce_buf_size) (map_bounce slot s0 ioreq is_write)
      (if some_data then map_direct dma pool s0 ioreq is_write else map_nothing s0)
      (λ _.
        if_ind Quiet is_write (copy_to_bounce slot ioreq.io_data ioreq.io_length ∷ []) []
          (λ _. refl) (λ _. refl))
      (λ _.
        if_ind P some_data (map_direct dma pool s0 ioreq is_write) (map_nothing s0)
          (λ _.
            if_ind P (dma.entries == 0) (map_direct_failed s0 ioreq is_write)
              (map_direct_started dma pool s0 ioreq is_write) (λ _. refl)
              (λ _.
                if_ind P (not pool || ltb max_sg_entries dma.entries)
                  (map_direct_refused s0 ioreq is_write) (map_direct_done dma s0 ioreq is_write)
                  (λ _. refl) (λ _. refl)))
          (λ _. refl))

send-Quiet :
    (dma : DmaAnswer) (shared : Shared) (unit : PipeUnit) (slot : ℕ) (s : Slot) (es : List Effect)
    (ioreq : IoRequest)
    → Quiet es
    → Quiet (send dma shared unit slot s es ioreq).effects
unfolding send
send-Quiet dma shared unit slot s es ioreq q =
    let (out, in_) = sg_chain unit slot s in
    let cookie = get_or unit.req_bufs slot 0 in
    let (sent, vq) = add_buf dma.table shared.vq (out ++ in_) (length out) (length in_) cookie in
    if_ind (λ (o : Submitted). Quiet o.effects) (not sent)
      (give_up tderr_not_specified shared unit slot (rolled_back s slot) (es ++ unmap_effects s))
      (accept vq shared unit slot s es ioreq)
      (λ _. Quiet-append es (unmap_effects s) q (unmap_effects-Quiet s)) (λ _. q)

submit_slot-Quiet :
    (dma : DmaAnswer) (shared0 : Shared) (unit : PipeUnit) (slot : ℕ) (ioreq : IoRequest)
    (cdb : List ℕ) (is_write : Bool)
    → Quiet (submit_slot dma shared0 unit slot ioreq cdb is_write).effects
unfolding submit_slot
submit_slot-Quiet dma shared0 unit slot ioreq cdb is_write =
    let taken = record unit { free_head = next_slot unit slot; resp_bufs = reset_resp unit slot } in
    let shared = record shared0 {
      req_mem = store shared0.req_mem (get_or unit.req_bufs slot 0) (fill_req unit slot cdb);
    } in
    let pool = get_or unit.data_dma_pool slot false in
    let m = map_data dma pool slot (slot_at unit slot) ioreq is_write in
    let q = map_data-Quiet dma pool slot (slot_at unit slot) ioreq is_write in
    let (out, in_) = sg_chain taken slot m.slot in
    let undone = m.effects ++ unmap_effects m.slot in
    let P = λ (o : Submitted). Quiet o.effects in
    if_ind P (not m.ok) (give_up hferr_dma shared taken slot m.slot m.effects)
      (if ltb max_sg_entries (length out + length in_)
        then give_up hferr_dma shared taken slot (unmapped m.slot) undone
        else send dma shared taken slot m.slot m.effects ioreq)
      (λ _. q)
      (λ _.
        if_ind P (ltb max_sg_entries (length out + length in_))
          (give_up hferr_dma shared taken slot (unmapped m.slot) undone)
          (send dma shared taken slot m.slot m.effects ioreq)
          (λ _. Quiet-append m.effects (unmap_effects m.slot) q (unmap_effects-Quiet m.slot))
          (λ _. send-Quiet dma shared taken slot m.slot m.effects ioreq q))

pub submit-Quiet :
    (dma : DmaAnswer) (shared : Shared) (unit : PipeUnit) (ioreq : IoRequest) (cdb : List ℕ)
    (is_write : Bool)
    → Quiet (submit dma shared unit ioreq cdb is_write).effects
unfolding submit submit_from replies
submit-Quiet dma shared unit ioreq cdb is_write =
    elim unit.free_head as (λ h. Quiet (submit_from h dma shared unit ioreq cdb is_write).effects) [
      | none ↦ refl
      | some slot ↦ submit_slot-Quiet dma shared unit slot ioreq cdb is_write
    ]
