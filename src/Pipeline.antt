-- ===== src/Pipeline.antt =====
-- The request pipeline of src/virtio/virtio_scsi_io.c: the state that a unit and the driver keep for
-- block requests in flight (include/virtioscsi.h, include/virtio/virtio_scsi_cmd.h). The contents of
-- data buffers are not modelled: copying and mapping them are effects, in the order of the calls.
pub mod Submit
pub mod Complete
pub mod Harvest
pub mod Slots
pub mod Route
pub mod Keep
pub mod Finish
pub mod Quiet
pub mod Start
pub mod Roundtrip
use virtual_scsidevice.Base.{ℕ, Bool, false, Option, none, some, List, get_or, set}
use virtual_scsidevice.Request.{IoRequest}
use virtual_scsidevice.Virtqueue.{Virtqueue, Sg}

-- struct virtio_scsi_req_cmd
pub record ReqCmd : Type 0 where
  pub lun : List ℕ
  pub id : ℕ
  pub task_attr : ℕ
  pub prio : ℕ
  pub crn : ℕ
  pub cdb : List ℕ

-- The fields of struct virtio_scsi_resp_cmd that the driver reads; `residual` as it is stored.
pub record RespCmd : Type 0 where
  pub residual : ℕ
  pub status : ℕ
  pub response : ℕ
  pub sense : List ℕ

abbrev pub no_resp : RespCmd
no_resp = record { residual = 0; status = 0; response = 0; sense = List.[] }

-- The flags DMA_ReadFromRAM and DMAF_NoModify.
pub record DmaFlags : Type 0 where
  pub read_from_ram : Bool
  pub no_modify : Bool

abbrev pub no_flags : DmaFlags
no_flags = record { read_from_ram = false; no_modify = false }

-- An element of `inflight`. `dma_list` is NULL or the entries in the unit's pool.
pub record Slot : Type 0 where
  pub ioreq : Option IoRequest
  pub cookie : ℕ
  pub dma_addr : ℕ
  pub dma_size : ℕ
  pub dma_flags : DmaFlags
  pub dma_list : Option (List Sg)
  pub dma_num_entries : ℕ
  pub buf_slot : ℕ
  pub using_bounce : Bool
  pub is_write : Bool

abbrev pub idle_slot : Slot
idle_slot = record {
  ioreq = none;
  cookie = 0;
  dma_addr = 0;
  dma_size = 0;
  dma_flags = no_flags;
  dma_list = none;
  dma_num_entries = 0;
  buf_slot = 0;
  using_bounce = false;
  is_write = false;
}

-- MAX_INFLIGHT, MAX_UNITS, MAX_SG_ENTRIES and BOUNCE_BUF_SIZE
abbrev pub max_inflight : ℕ
max_inflight = 16

abbrev pub max_units : ℕ
max_units = 8

abbrev pub max_sg_entries : ℕ
max_sg_entries = 64

abbrev pub bounce_buf_size : ℕ
bounce_buf_size = 65536

-- The fields of `struct VirtIOUSCSIDevUnit` for requests in flight. `free_head` and the entries of
-- `inflight_next` are `none` for -1; `req_bufs` holds addresses, and `req_buf` is `req_bufs[0]`;
-- `data_dma_pool` says which entry arrays exist.
pub record PipeUnit : Type 0 where
  pub unit_num : ℕ
  pub target_id : ℕ
  pub lun_id : ℕ
  pub free_head : Option ℕ
  pub inflight_next : List (Option ℕ)
  pub inflight_count : ℕ
  pub inflight : List Slot
  pub req_bufs : List ℕ
  pub resp_bufs : List RespCmd
  pub dma_req_lists : List (List Sg)
  pub dma_resp_lists : List (List Sg)
  pub bounce_dma_phys : List ℕ
  pub data_dma_pool : List Bool
  pub doio_pending_cookie : ℕ
  pub doio_pending_written : ℕ
  pub io_wait_task : Bool

-- The fields of `struct VirtIOSCSIBase` that all units share, and the request headers by address.
pub record Shared : Type 0 where
  pub vq : Virtqueue
  pub req_mem : ℕ → ReqCmd
  pub occupied_count : ℕ
  pub active_units_mask : ℕ

-- The calls into the system, in their order.
pub data Effect : Type 0 where
  start_dma : (addr len : ℕ) → DmaFlags → Effect
  end_dma : (addr len : ℕ) → DmaFlags → Effect
  copy_to_bounce : (slot addr len : ℕ) → Effect
  copy_from_bounce : (slot addr len : ℕ) → Effect
  reply_msg : IoRequest → Effect
  signal_doio : (unit_num : ℕ) → Effect

abbrev pub slot_at : PipeUnit → ℕ → Slot
slot_at unit slot = get_or unit.inflight slot idle_slot

abbrev pub next_slot : PipeUnit → ℕ → Option ℕ
next_slot unit slot = get_or unit.inflight_next slot none

-- A slot goes back to the head of the free list: `submit_release_slot`, and the same two writes in
-- complete_inflight_slot.
unfoldable pub submit_release_slot : PipeUnit → ℕ → PipeUnit
submit_release_slot unit slot = record unit {
  inflight_next = set unit.inflight_next slot unit.free_head;
  free_head = some slot;
}

-- a write to `inflight[slot]`
abbrev pub put_slot : PipeUnit → ℕ → Slot → PipeUnit
put_slot unit slot s = record unit { inflight = set unit.inflight slot s }

-- The slot without the mapping of a direct transfer, for its `dma_list`.
abbrev pub unmap : Option (List Sg) → Slot → Slot
unmap none s = s
unmap (some list) s = record s { dma_list = none; dma_num_entries = 0 }
