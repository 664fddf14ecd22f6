-- ===== src/DoIo/Dma.antt =====
-- prepare_dma and cleanup_dma of src/virtio/virtio_scsi_io.c, and the calls of VirtIOSCSI_DoIO into the
-- system.
use virtual_scsidevice.Base.{
  ℕ, ◌==◌, ltb, Bool, true, false, if◌then◌else◌, Option, none, some, List, [], ◌∷◌, ◌++◌,
}
use virtual_scsidevice.Virtqueue.{Sg}
use virtual_scsidevice.Pipeline.{DmaFlags, no_flags}

-- The calls into the system: `start_dma` with the count that it returned.
pub data Call : Type 0 where
  alloc_vec free_vec : (addr : ℕ) → Call
  start_dma : (addr len entries : ℕ) → DmaFlags → Call
  end_dma : (addr len : ℕ) → DmaFlags → Call
  alloc_list free_list : (addr : ℕ) → Call

-- What StartDMA returns, and the entries from GetDMAList if AllocSysObject gives the list.
pub record DmaReply : Type 0 where
  pub entries : ℕ
  pub list : Option (List Sg)

-- struct DMABuffer
pub record DmaBuffer : Type 0 where
  pub addr : ℕ
  pub size : ℕ
  pub flags : DmaFlags
  pub list : Option (List Sg)
  pub num_entries : ℕ

abbrev pub no_buffer : DmaBuffer
no_buffer = record { addr = 0; size = 0; flags = no_flags; list = none; num_entries = 0 }

abbrev pub freed_list : ℕ → Option (List Sg) → List Call
freed_list addr none = []
freed_list addr (some list) = free_list addr ∷ []

unfoldable pub cleanup_dma : DmaBuffer → List Call
cleanup_dma db =
    if ltb 0 db.num_entries
    then freed_list db.addr db.list ++ (end_dma db.addr db.size db.flags ∷ [])
    else []

pub record Prepared : Type 0 where
  pub ok : Bool
  pub db : DmaBuffer
  pub calls : List Call

-- the end of prepare_dma, by the list that AllocSysObject gives
abbrev pub prepare_listed : Option (List Sg) → ℕ → ℕ → ℕ → DmaFlags → Prepared
prepare_listed none entries addr size flags = record {
  ok = false;
  db = record no_buffer { addr = addr; size = size; flags = flags };
  calls =
      start_dma addr size entries flags
      ∷ end_dma addr size (record flags { no_modify = true })
      ∷ [];
}
prepare_listed (some list) entries addr size flags = record {
  ok = true;
  db = record { addr = addr; size = size; flags = flags; list = some list; num_entries = entries };
  calls = start_dma addr size entries flags ∷ alloc_list addr ∷ [];
}

unfoldable pub prepare_dma : DmaReply → ℕ → ℕ → DmaFlags → Prepared
prepare_dma reply addr size flags =
    let empty = record no_buffer { addr = addr; size = size; flags = flags } in
    if size == 0
    then record { ok = true; db = empty; calls = [] }
    else if reply.entries == 0
    then record { ok = false; db = empty; calls = start_dma addr size 0 flags ∷ [] }
    else prepare_listed reply.list reply.entries addr size flags
