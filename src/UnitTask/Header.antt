-- ===== src/UnitTask/Header.antt =====
-- The request header that submit_block_io of src/unit_task.c leaves for the device, as the disk reads
-- it.
use native.Mathlib.Nat.{div-le_self}
use virtual_scsidevice.Base.{
  ℕ, ◌+◌, ◌/◌, ◌^◌, ◌≤◌, ◌<◌, ◌≡◌, refl, sym, ap, subst, ◌∙◌, Bool, false, not, ltb, if◌then◌else◌,
  if_ind, some, List, ◌++◌, length, get_or, arith,
}
use virtual_scsidevice.Cdb.{make_block_cdb, io_block_size, transfer_blocks}
use virtual_scsidevice.Cdb.Decode.{decode, decode_lun}
use virtual_scsidevice.Cdb.Roundtrip.{decode-make_block_cdb, decode_lun-set_lun}
use virtual_scsidevice.Errors.{hferr_dma, tderr_not_specified}
use virtual_scsidevice.Request.{IoRequest}
use virtual_scsidevice.Virtqueue.{add_buf}
use virtual_scsidevice.Pipeline.{
  PipeUnit, Shared, Effect, Slot, ReqCmd, next_slot, slot_at, max_sg_entries,
}
use virtual_scsidevice.Pipeline.Submit.{
  DmaAnswer, Submitted, submit, submit_from, submit_slot, send, give_up, accept, unmapped,
  rolled_back, unmap_effects, map_data, sg_chain, store, fill_req, reset_resp,
}
use virtual_scsidevice.UnitTask.{Services, BlockSize, submit_block_io}

send_mem :
    (dma : DmaAnswer) (shared : Shared) (unit : PipeUnit) (slot : ℕ) (s : Slot) (es : List Effect)
    (ioreq : IoRequest)
    → (send dma shared unit slot s es ioreq).shared.req_mem ≡ shared.req_mem
unfolding send
send_mem dma shared unit slot s es ioreq =
    let (out, in_) = sg_chain unit slot s in
    let cookie = get_or unit.req_bufs slot 0 in
    let (sent, vq) = add_buf dma.table shared.vq (out ++ in_) (length out) (length in_) cookie in
    if_ind (λ (o : Submitted). o.shared.req_mem ≡ shared.req_mem) (not sent)
      (give_up tderr_not_specified shared unit slot (rolled_back s slot) (es ++ unmap_effects s))
      (accept vq shared unit slot s es ioreq) (λ _. refl) (λ _. refl)

submit_slot_mem :
    (dma : DmaAnswer) (shared0 : Shared) (unit : PipeUnit) (slot : ℕ) (ioreq : IoRequest)
    (cdb : List ℕ) (is_write : Bool)
    → (submit_slot dma shared0 unit slot ioreq cdb is_write).shared.req_mem
      ≡ store shared0.req_mem (get_or unit.req_bufs slot 0) (fill_req unit slot cdb)
unfolding submit_slot
submit_slot_mem dma shared0 unit slot ioreq cdb is_write =
    let taken = record unit { free_head = next_slot unit slot; resp_bufs = reset_resp unit slot } in
    let mem = store shared0.req_mem (get_or unit.req_bufs slot 0) (fill_req unit slot cdb) in
    let shared = record shared0 { req_mem = mem } in
    let pool = get_or unit.data_dma_pool slot false in
    let m = map_data dma pool slot (slot_at unit slot) ioreq is_write in
    let (out, in_) = sg_chain taken slot m.slot in
    let undone = m.effects ++ unmap_effects m.slot in
    let P = λ (o : Submitted). o.shared.req_mem ≡ mem in
    if_ind P (not m.ok) (give_up hferr_dma shared taken slot m.slot m.effects)
      (if ltb max_sg_entries (length out + length in_)
        then give_up hferr_dma shared taken slot (unmapped m.slot) undone
        else send dma shared taken slot m.slot m.effects ioreq)
      (λ _. refl)
      (λ _.
        if_ind P (ltb max_sg_entries (length out + length in_))
          (give_up hferr_dma shared taken slot (unmapped m.slot) undone)
          (send dma shared taken slot m.slot m.effects ioreq) (λ _. refl)
          (λ _. send_mem dma shared taken slot m.slot m.effects ioreq))

store_self : (mem : ℕ → ReqCmd) (addr : ℕ) (req : ReqCmd) → store mem addr req addr ≡ req
store_self mem addr req = ground arith

-- Submit leaves the header of the first free slot filled for the command block that it is given.
submit_header :
    (dma : DmaAnswer) (shared : Shared) (unit : PipeUnit) (slot : ℕ) (ioreq : IoRequest)
    (cdb : List ℕ) (is_write : Bool)
    → unit.free_head ≡ some slot
    → (submit dma shared unit ioreq cdb is_write).shared.req_mem (get_or unit.req_bufs slot 0)
      ≡ fill_req unit slot cdb
unfolding submit submit_from
submit_header dma shared unit slot ioreq cdb is_write e =
    let buf = get_or unit.req_bufs slot 0 in
    subst
      (λ h.
        (submit_from h dma shared unit ioreq cdb is_write).shared.req_mem buf
        ≡ fill_req unit slot cdb)
      (sym e)
      (ap (λ (f : ℕ → ReqCmd). f buf) (submit_slot_mem dma shared unit slot ioreq cdb is_write)
        ∙ store_self shared.req_mem buf (fill_req unit slot cdb))

transfer_blocks_bound :
    (io_length blksz : ℕ) → io_length < 2 ^ 32 → transfer_blocks io_length blksz < 2 ^ 32
transfer_blocks_bound io_length blksz h =
    let le : io_length / blksz ≤ io_length = div-le_self io_length blksz in ground (arith, le, h)

-- The header that submit_block_io writes for a free slot is, as the disk decodes it, a transfer in
-- the request's direction of its blocks at its offset, both counted in the unit's block size, to the
-- unit's target and LUN, when offset and length are of 64 and 32 bits.
pub submit_block_io-header :
    (services : Services) (dma : DmaAnswer) (size : BlockSize) (shared : Shared) (unit : PipeUnit)
    (slot : ℕ) (ioreq : IoRequest) (offset : ℕ) (is_write : Bool)
    → unit.free_head ≡ some slot
    → unit.target_id < 256
    → unit.lun_id < 16384
    → offset < 2 ^ 64
    → ioreq.io_length < 2 ^ 32
    → let blksz = io_block_size size.geometry_valid size.block_size in
      let out = submit_block_io services dma size shared unit ioreq offset is_write in
      let header = out.1.shared.req_mem (get_or unit.req_bufs slot 0) in
      (decode header.cdb
        ≡ some (record {
          writes = is_write;
          lba = offset / blksz;
          blocks = transfer_blocks ioreq.io_length blksz;
        }))
      × (decode_lun header.lun ≡ (unit.target_id, unit.lun_id))
unfolding submit_block_io fill_req
submit_block_io-header services dma size shared unit slot ioreq offset is_write e t l small few =
    let blksz = io_block_size size.geometry_valid size.block_size in
    let blocks = transfer_blocks ioreq.io_length blksz in
    let cdb = make_block_cdb is_write (offset / blksz) blocks in
    let header = submit_header dma shared unit slot ioreq cdb is_write e in
    (
      ap (λ (r : ReqCmd). decode r.cdb) header
          ∙ decode-make_block_cdb is_write (offset / blksz) blocks
              (omega (arith, div-le_self offset blksz, small))
              (transfer_blocks_bound ioreq.io_length blksz few),
      ap (λ (r : ReqCmd). decode_lun r.lun) header
          ∙ decode_lun-set_lun unit.target_id unit.lun_id t l,
    )
