-- ===== src/Pipeline/Submit.antt =====
-- VirtIOSCSI_Submit of src/virtio/virtio_scsi_io.c.
use virtual_scsidevice.Base.{
  ℕ, ◌+◌, ◌*◌, ◌^◌, ◌==◌, ltb, leb, Bool, true, false, ◌&&◌, ◌||◌, not, if◌then◌else◌, Option, none,
  some, List, [], ◌∷◌, ◌++◌, length, get_or, set, take, bit_or,
}
use virtual_scsidevice.Word.{u8, u32}
use virtual_scsidevice.Cdb.{fill_cdb, virtio_scsi_set_lun}
use virtual_scsidevice.Errors.{IoError, hferr_dma, tderr_not_specified}
use virtual_scsidevice.Request.{IoRequest}
use virtual_scsidevice.Virtqueue.{Virtqueue, Sg, TableSetup, add_buf}
use virtual_scsidevice.Pipeline.{
  ReqCmd, RespCmd, no_resp, DmaFlags, no_flags, Slot, PipeUnit, Shared, Effect, start_dma, end_dma,
  copy_to_bounce, max_sg_entries, bounce_buf_size, slot_at, next_slot, submit_release_slot,
  put_slot, unmap,
}

-- What the system answers during a call: the count from StartDMA, the entries from GetDMAList, and
-- the answers for an indirect table.
pub record DmaAnswer : Type 0 where
  pub entries : ℕ
  pub list : List Sg
  pub table : TableSetup

-- 0, -1, and an error code
pub data SubmitResult : Type 0 where
  submitted no_slot : SubmitResult
  failed : IoError → SubmitResult

pub record Submitted : Type 0 where
  pub result : SubmitResult
  pub shared : Shared
  pub unit : PipeUnit
  pub effects : List Effect

-- `req_cmd->id`: the unit number above the slot
unfoldable pub request_id : ℕ → ℕ → ℕ
request_id unit_num slot = bit_or (unit_num * 65536) slot

-- the request header
unfoldable pub fill_req : PipeUnit → ℕ → List ℕ → ReqCmd
unfolding request_id fill_cdb virtio_scsi_set_lun
fill_req unit slot cdb = record {
  lun = virtio_scsi_set_lun unit.target_id unit.lun_id;
  id = request_id unit.unit_num slot;
  task_attr = 0;
  prio = 0;
  crn = 0;
  cdb = fill_cdb cdb;
}

abbrev pub store : (ℕ → ReqCmd) → ℕ → ReqCmd → ℕ → ReqCmd
store mem addr req a = if a == addr then req else mem a

-- The response fields that are reset before a request is sent.
abbrev pub reset_resp : PipeUnit → ℕ → List RespCmd
reset_resp unit slot =
    set unit.resp_bufs slot
      (record (get_or unit.resp_bufs slot no_resp) { response = 0; status = 0; residual = 0 })

-- How the user data is mapped: the slot's DMA fields, whether it worked, and the calls made.
pub record Mapped : Type 0 where
  pub ok : Bool
  pub slot : Slot
  pub effects : List Effect

abbrev pub write_flags : Bool → DmaFlags
write_flags is_write = record { read_from_ram = is_write; no_modify = false }

-- the bounce path, the direct path and the path without data
abbrev pub map_bounce : ℕ → Slot → IoRequest → Bool → Mapped
map_bounce slot s ioreq is_write = record {
  ok = true;
  slot = record s {
    using_bounce = true;
    dma_addr = ioreq.io_data;
    dma_size = ioreq.io_length;
    dma_flags = no_flags;
    dma_list = none;
    dma_num_entries = 0;
  };
  effects = if is_write then copy_to_bounce slot ioreq.io_data ioreq.io_length ∷ [] else [];
}

abbrev pub map_direct_failed : Slot → IoRequest → Bool → Mapped
map_direct_failed s ioreq is_write = record {
  ok = false;
  slot = s;
  effects = start_dma ioreq.io_data ioreq.io_length (write_flags is_write) ∷ [];
}

abbrev pub map_direct_refused : Slot → IoRequest → Bool → Mapped
map_direct_refused s ioreq is_write =
    let flags = write_flags is_write in
    record {
      ok = false;
      slot = s;
      effects =
          start_dma ioreq.io_data ioreq.io_length flags
          ∷ end_dma ioreq.io_data ioreq.io_length (record flags { no_modify = true })
          ∷ [];
    }

abbrev pub map_direct_done : DmaAnswer → Slot → IoRequest → Bool → Mapped
map_direct_done dma s ioreq is_write =
    let flags = write_flags is_write in
    record {
      ok = true;
      slot = record s {
        dma_addr = ioreq.io_data;
        dma_size = ioreq.io_length;
        dma_flags = flags;
        dma_list = some dma.list;
        dma_num_entries = dma.entries;
      };
      effects = start_dma ioreq.io_data ioreq.io_length flags ∷ [];
    }

abbrev pub map_direct_started : DmaAnswer → Bool → Slot → IoRequest → Bool → Mapped
map_direct_started dma pool s ioreq is_write =
    if not pool || ltb max_sg_entries dma.entries
    then map_direct_refused s ioreq is_write
    else map_direct_done dma s ioreq is_write

abbrev pub map_direct : DmaAnswer → Bool → Slot → IoRequest → Bool → Mapped
map_direct dma pool s ioreq is_write =
    if dma.entries == 0
    then map_direct_failed s ioreq is_write
    else map_direct_started dma pool s ioreq is_write

abbrev pub map_nothing : Slot → Mapped
map_nothing s = record {
  ok = true;
  slot = record s {
    dma_addr = 0;
    dma_size = 0;
    dma_flags = no_flags;
    dma_list = none;
    dma_num_entries = 0;
  };
  effects = [];
}

unfoldable pub map_data : DmaAnswer → Bool → ℕ → Slot → IoRequest → Bool → Mapped
map_data dma pool slot s ioreq is_write =
    let s0 = record s { is_write = is_write; using_bounce = false } in
    let some_data = (not (ioreq.io_data == 0) && ltb 0 ioreq.io_length) in
    if some_data && leb ioreq.io_length bounce_buf_size
    then map_bounce slot s0 ioreq is_write
    else if some_data
    then map_direct dma pool s0 ioreq is_write
    else map_nothing s0

abbrev pub list_entries : Slot → List Sg
list_entries s = elim s.dma_list [ none ↦ [] | some list ↦ take s.dma_num_entries list ]

-- The scatter-gather chain: the entries that the device reads, and those that it writes.
unfoldable pub sg_chain : PipeUnit → ℕ → Slot → List Sg × List Sg
sg_chain unit slot s =
    let req = get_or unit.dma_req_lists slot [] in
    let resp = get_or unit.dma_resp_lists slot [] in
    let bounce = record { addr = get_or unit.bounce_dma_phys slot 0; len = s.dma_size } ∷ [] in
    if s.using_bounce
    then (if s.is_write then (req ++ bounce, resp) else (req, resp ++ bounce))
    else (if s.is_write then (req ++ list_entries s, resp) else (req, resp ++ list_entries s))

-- The mapping of a direct transfer is undone, when there is one.
abbrev pub unmapped : Slot → Slot
unmapped s = unmap s.dma_list s

abbrev pub unmap_effects : Slot → List Effect
unmap_effects s = elim s.dma_list [
  | none ↦ []
  | some list ↦ end_dma s.dma_addr s.dma_size (record s.dma_flags { no_modify = true }) ∷ []
]

-- the slot taken by the request, and rolled back
abbrev pub occupied : Slot → ℕ → ℕ → IoRequest → Slot
occupied s slot cookie ioreq = record s { ioreq = some ioreq; cookie = cookie; buf_slot = slot }

abbrev pub rolled_back : Slot → ℕ → Slot
rolled_back s slot = record (unmapped s) { ioreq = none; cookie = 0; buf_slot = slot }

-- The request was not sent: the slot goes back.
abbrev pub give_up : IoError → Shared → PipeUnit → ℕ → Slot → List Effect → Submitted
give_up err shared unit slot s effects = record {
  result = failed err;
  shared = shared;
  unit = submit_release_slot (put_slot unit slot s) slot;
  effects = effects;
}

-- The request is in the ring: the slot and the counters follow.
abbrev pub accept : Virtqueue → Shared → PipeUnit → ℕ → Slot → List Effect → IoRequest → Submitted
accept vq shared unit slot s effects ioreq = record {
  result = submitted;
  shared = record shared {
    vq = vq;
    occupied_count = u32 (shared.occupied_count + 1);
    active_units_mask = u8 (bit_or shared.active_units_mask (2 ^ unit.unit_num));
  };
  unit = record (put_slot unit slot (occupied s slot (get_or unit.req_bufs slot 0) ioreq)) {
    inflight_count = u32 (unit.inflight_count + 1);
  };
  effects = effects;
}

-- VirtQueue_AddBuf under io_lock, and what follows
unfoldable pub send : DmaAnswer → Shared → PipeUnit → ℕ → Slot → List Effect → IoRequest → Submitted
unfolding add_buf sg_chain submit_release_slot
send dma shared unit slot s effects ioreq =
    let (out, in_) = sg_chain unit slot s in
    let cookie = get_or unit.req_bufs slot 0 in
    let (sent, vq) = add_buf dma.table shared.vq (out ++ in_) (length out) (length in_) cookie in
    if not sent
    then give_up tderr_not_specified shared unit slot (rolled_back s slot)
        (effects ++ unmap_effects s)
    else accept vq shared unit slot s effects ioreq

-- Submit once a slot is taken from the free list.
unfoldable pub submit_slot :
    DmaAnswer → Shared → PipeUnit → ℕ → IoRequest → List ℕ → Bool → Submitted
unfolding send map_data sg_chain fill_req submit_release_slot
submit_slot dma shared unit slot ioreq cdb is_write =
    let taken = record unit { free_head = next_slot unit slot; resp_bufs = reset_resp unit slot } in
    let shared' = record shared {
      req_mem = store shared.req_mem (get_or unit.req_bufs slot 0) (fill_req unit slot cdb);
    } in
    let m =
      map_data dma (get_or unit.data_dma_pool slot false) slot (slot_at unit slot) ioreq is_write in
    let (out, in_) = sg_chain taken slot m.slot in
    if not m.ok
    then give_up hferr_dma shared' taken slot m.slot m.effects
    else if ltb max_sg_entries (length out + length in_)
    then give_up hferr_dma shared' taken slot (unmapped m.slot) (m.effects ++ unmap_effects m.slot)
    else send dma shared' taken slot m.slot m.effects ioreq

unfoldable pub submit_from :
    Option ℕ → DmaAnswer → Shared → PipeUnit → IoRequest → List ℕ → Bool → Submitted
unfolding submit_slot
submit_from none dma shared unit ioreq cdb is_write = record {
  result = no_slot;
  shared = shared;
  unit = unit;
  effects = [];
}
submit_from (some slot) dma shared unit ioreq cdb is_write =
    submit_slot dma shared unit slot ioreq cdb is_write

-- VirtIOSCSI_Submit
unfoldable pub submit : DmaAnswer → Shared → PipeUnit → IoRequest → List ℕ → Bool → Submitted
unfolding submit_from
submit dma shared unit ioreq cdb is_write =
    submit_from unit.free_head dma shared unit ioreq cdb is_write
