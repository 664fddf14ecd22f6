-- ===== src/Virtqueue.antt =====
-- The split virtqueue of src/virtio/virtqueue.c and include/virtio/virtqueue.h. The rings hold the
-- values as they stand in memory, so the fields that the device reads go through `vr16`, `vr32` and
-- `vr64`; the links of the free list are native. Pointers are addresses with 0 for NULL. The
-- memory barriers have no counterpart: a function runs in one step.
pub mod Owned
pub mod Fill
pub mod Device
pub mod Table
pub mod Add
pub mod Complete
pub mod Ends
pub mod Allocate
use virtual_scsidevice.Base.{
  ℕ, zero, suc, ◌+◌, ◌-◌, ◌*◌, ◌/◌, ◌%◌, ◌<◌, List, [], ◌∷◌, Bool, true, false, ◌&&◌, not, Option,
  some, none, ltb, leb, ◌==◌, if◌then◌else◌, length, get_or, set, replicate, take, bit_and, bit_or,
}
use virtual_scsidevice.Word.{u16, u32, vr16, vr32, vr64}

-- struct vring_desc and struct vring_indirect_desc
pub record Desc : Type 0 where
  pub addr : ℕ
  pub len : ℕ
  pub flags : ℕ
  pub next : ℕ

abbrev pub no_desc : Desc
no_desc = record { addr = 0; len = 0; flags = 0; next = 0 }

-- struct vring_used_elem
pub record UsedElem : Type 0 where
  pub id : ℕ
  pub len : ℕ

abbrev pub no_elem : UsedElem
no_elem = record { id = 0; len = 0 }

-- struct vring_sg
pub record Sg : Type 0 where
  pub addr : ℕ
  pub len : ℕ

-- struct virtqueue, with the rings that it points to. `avail_ring` has `num + 1` entries: the last
-- one is `used_event`. `indirect_tables` holds the table itself in place of its address.
pub record Virtqueue : Type 0 where
  pub index : ℕ
  pub num : ℕ
  pub desc : List Desc
  pub avail_flags : ℕ
  pub avail_idx : ℕ
  pub avail_ring : List ℕ
  pub used_idx : ℕ
  pub used_ring : List UsedElem
  pub free_head : ℕ
  pub num_free : ℕ
  pub last_used_idx : ℕ
  pub cookies : List ℕ
  pub notify_addr : ℕ
  pub modern : Bool
  pub use_event_idx : Bool
  pub use_indirect : Bool
  pub indirect_tables : List (Option (List Desc))

-- VRING_DESC_F_NEXT, VRING_DESC_F_WRITE and VRING_DESC_F_INDIRECT
abbrev pub desc_f_next : ℕ
desc_f_next = 1

abbrev pub desc_f_write : ℕ
desc_f_write = 2

abbrev pub desc_f_indirect : ℕ
desc_f_indirect = 4

-- the descriptor at an index, and its link as a native number
abbrev pub desc_at : List Desc → ℕ → Desc
desc_at d i = get_or d i no_desc

abbrev pub link : List Desc → ℕ → ℕ
link d i = (desc_at d i).next

-- the flags of an entry: device-writable, and followed by another
abbrev pub entry_flags : Bool → Bool → ℕ
entry_flags writable more =
    bit_or (if writable then desc_f_write else 0) (if more then desc_f_next else 0)

-- The descriptor that describes entry `n` of a request: `next` is the value as it is stored.
abbrev pub entry : Bool → ℕ → ℕ → Bool → Sg → ℕ → Desc
entry m out n more s next = record {
  addr = vr64 m s.addr;
  len = vr32 m s.len;
  flags = vr16 m (entry_flags (leb out n) more);
  next = next;
}

-- The loop of the direct path, over the entries left: it returns the table and `free_head`. An
-- entry is followed by another exactly when `n < total - 1`.
unfoldable pub fill_chain : Bool → ℕ → ℕ → List Sg → ℕ → List Desc → List Desc × ℕ
fill_chain m out n [] idx d = (d, idx)
fill_chain m out n (s ∷ []) idx d =
    let next_idx = link d idx in (set d idx (entry m out n false s next_idx), next_idx)
fill_chain m out n (s ∷ t ∷ sg) idx d =
    let next_idx = link d idx in
    fill_chain m out (n + 1) (t ∷ sg) next_idx (set d idx (entry m out n true s (vr16 m next_idx)))

-- The loop that fills the indirect table.
unfoldable pub fill_table : Bool → ℕ → ℕ → List Sg → List Desc
fill_table m out n [] = []
fill_table m out n (s ∷ []) = entry m out n false s (vr16 m (u16 (n + 1))) ∷ []
fill_table m out n (s ∷ t ∷ sg) =
    entry m out n true s (vr16 m (u16 (n + 1))) ∷ fill_table m out (n + 1) (t ∷ sg)

-- What the system answers while the indirect table is set up: whether AllocVecTags gives the table,
-- how many entries StartDMA returns, whether the entry list is allocated, and the physical address
-- that GetDMAList puts first.
pub record TableSetup : Type 0 where
  pub table_ok : Bool
  pub dma_entries : ℕ
  pub list_ok : Bool
  pub itbl_phys : ℕ

-- `cookies[head]`, `indirect_tables[head]` and the available ring: the end of both paths
unfoldable pub publish : ℕ → ℕ → Option (List Desc) → Virtqueue → Virtqueue
publish head cookie table vq =
    let avail_idx = vr16 vq.modern vq.avail_idx in
    record vq {
      cookies = set vq.cookies head cookie;
      indirect_tables = set vq.indirect_tables head table;
      avail_ring = set vq.avail_ring (avail_idx % vq.num) (vr16 vq.modern head);
      avail_idx = vr16 vq.modern (u16 (avail_idx + 1));
    }

-- the direct descriptor chain path
unfoldable pub add_direct : Virtqueue → List Sg → ℕ → ℕ → ℕ → Virtqueue
unfolding fill_chain publish
add_direct vq sg out_num in_num cookie =
    let total = out_num + in_num in
    let filled = fill_chain vq.modern out_num 0 (take total sg) vq.free_head vq.desc in
    publish vq.free_head cookie none (record vq {
      desc = filled.0;
      free_head = filled.1;
      num_free = (vq.num_free + 65536 - u16 total) % 65536;
    })

-- the indirect path, once the table is mapped
unfoldable pub add_indirect : Virtqueue → List Sg → ℕ → ℕ → ℕ → ℕ → Virtqueue
unfolding fill_table publish
add_indirect vq sg out_num in_num cookie itbl_phys =
    let total = out_num + in_num in
    let head = vq.free_head in
    publish head cookie (some (fill_table vq.modern out_num 0 (take total sg))) (record vq {
      desc = set vq.desc head (record {
        addr = vr64 vq.modern itbl_phys;
        len = vr32 vq.modern (16 * total);
        flags = vr16 vq.modern desc_f_indirect;
        next = 0;
      });
      free_head = link vq.desc head;
      num_free = (vq.num_free + 65535) % 65536;
    })

-- VirtQueue_AddBuf. The first part is the return value: true for 0 and false for -1.
unfoldable pub add_buf : TableSetup → Virtqueue → List Sg → ℕ → ℕ → ℕ → Bool × Virtqueue
add_buf os vq sg out_num in_num cookie =
    let total = out_num + in_num in
    let indirect = (vq.use_indirect && ltb 1 total) in
    if (if indirect then ltb vq.num_free 1 else ltb vq.num_free total)
    then (false, vq)
    else if indirect && (os.table_ok && (ltb 0 os.dma_entries && os.list_ok))
    then (true, add_indirect vq sg out_num in_num cookie os.itbl_phys)
    else if indirect && ltb vq.num_free total
    then (false, vq)
    else (true, add_direct vq sg out_num in_num cookie)

-- `flags & VRING_DESC_F_NEXT`
abbrev pub has_next : Bool → Desc → Bool
has_next m d = not (bit_and (vr16 m d.flags) desc_f_next == 0)

-- a descriptor given back to the free list that starts at `head`
abbrev pub cleared : ℕ → Desc
cleared head = record { addr = 0; len = 0; flags = 0; next = head }

-- The walk that frees a direct chain, on fuel: the table, `free_head` and `freed`. `none` says that
-- the fuel ran out.
unfoldable pub free_chain : ℕ → Bool → ℕ → List Desc → ℕ → ℕ → Option (List Desc × ℕ × ℕ)
free_chain zero m idx d head freed = none
free_chain (suc fuel) m idx d head freed =
    let next = vr16 m (desc_at d idx).next in
    let d' = set d idx (cleared head) in
    let rest = free_chain fuel m next d' idx (freed + 1) in
    if has_next m (desc_at d idx) then rest else some (d', idx, freed + 1)

-- how the descriptors of `idx` are given back: one for an indirect table, else the chain
unfoldable pub give_back : Virtqueue → ℕ → Option (List Desc) → Option (List Desc × ℕ × ℕ)
unfolding free_chain
give_back vq idx (some table) = some (set vq.desc idx (cleared vq.free_head), idx, 1)
give_back vq idx none = free_chain (suc vq.num) vq.modern idx vq.desc vq.free_head 0

-- the used-ring entry that is read next
abbrev pub used_entry : Virtqueue → UsedElem
used_entry vq = get_or vq.used_ring (vq.last_used_idx % vq.num) no_elem

-- `used_event`, written after every completion when EVENT_IDX was negotiated
abbrev pub write_used_event : ℕ → Virtqueue → Virtqueue
write_used_event event vq = record vq {
  avail_ring = set vq.avail_ring vq.num (vr16 vq.modern event);
}

-- the end of VirtQueue_GetBuf, for a descriptor index in range
unfoldable pub take_back : Virtqueue → ℕ → ℕ → Option (ℕ × Option ℕ × Virtqueue)
take_back vq desc_id written =
    elim (give_back vq (u16 desc_id) (get_or vq.indirect_tables desc_id none)) [
      | none ↦ none
      | some (d, head, freed) ↦
          let next_used = u16 (vq.last_used_idx + 1) in
          let vq' = record vq {
            desc = d;
            free_head = head;
            num_free = u16 (vq.num_free + u16 freed);
            cookies = set vq.cookies desc_id 0;
            indirect_tables = set vq.indirect_tables desc_id none;
            last_used_idx = next_used;
          } in
          some (
            get_or vq.cookies desc_id 0,
            some written,
            if vq.use_event_idx then write_used_event next_used vq' else vq',
          )
    ]

-- VirtQueue_GetBuf: the cookie (0 for NULL), what is stored through `len_out`, and the queue. `none`
-- says that the walk along the chain did not end.
unfoldable pub get_buf : Virtqueue → Option (ℕ × Option ℕ × Virtqueue)
get_buf vq =
    if vq.last_used_idx == vr16 vq.modern vq.used_idx
    then some (0, none, vq)
    else let elem = used_entry vq in
      let desc_id = vr32 vq.modern elem.id in
      let written = vr32 vq.modern elem.len in
      if leb vq.num desc_id
      then some (0, none, record vq { last_used_idx = u16 (vq.last_used_idx + 1) })
      else take_back vq desc_id written
