-- ===== src/Virtqueue/Allocate.antt =====
-- VirtQueue_Allocate of src/virtio/virtqueue.c: the layout of the ring memory, the first state of a
-- queue, and what is freed when an allocation fails.
use virtual_scsidevice.Base.{
  ℕ, zero, suc, ◌+◌, ◌*◌, ◌/◌, ◌%◌, ◌≤◌, ◌<◌, ◌≡◌, refl, sym, subst, ◌⊎◌, Bool, true, false, ◌&&◌,
  if◌then◌else◌, Option, none, some, List, [], ◌∷◌, length, replicate, arith,
}
use virtual_scsidevice.Chain.{Linked, range, range_once, range_inside, length-range}
use virtual_scsidevice.Word.{u16, u32}
use virtual_scsidevice.Virtqueue.{Virtqueue, Desc, no_desc, no_elem, link}
use virtual_scsidevice.Virtqueue.Owned.{id_link, Owns, IsSized}

-- VIRTIO_PCI_VRING_ALIGN, and `(x + ALIGN - 1) & ~(ALIGN - 1)`
abbrev pub vring_align : ℕ
vring_align = 4096

abbrev pub align_up : ℕ → ℕ
align_up x = u32 (x + 4095) / vring_align * vring_align

-- The sizes and offsets that are computed before the allocation, and the base that is aligned after.
pub record Layout : Type 0 where
  pub desc_size : ℕ
  pub avail_end : ℕ
  pub used_offset : ℕ
  pub total_mem : ℕ
  pub alloc_size : ℕ
  pub base : ℕ

abbrev pub layout : ℕ → ℕ → Layout
layout queue_size raw =
    let desc_size = u32 (16 * queue_size) in
    let avail_end = u32 (desc_size + u32 (2 * u32 (3 + queue_size))) in
    let used_offset = align_up avail_end in
    let total_mem = u32 (used_offset + u32 (6 + 8 * queue_size)) in
    record {
      desc_size = desc_size;
      avail_end = avail_end;
      used_offset = used_offset;
      total_mem = total_mem;
      alloc_size = u32 (total_mem + vring_align);
      base = align_up raw;
    }

-- The links of the free list: descriptor `j` points to `j + 1`, the last one to 0. The table is built
-- from descriptor `j` on, for the count left.
unfoldable pub free_links : ℕ → ℕ → List Desc
free_links j zero = []
free_links j (suc zero) = record no_desc { next = 0 } ∷ []
free_links j (suc (suc k)) = record no_desc { next = u16 (j + 1) } ∷ free_links (j + 1) (suc k)

-- the queue that is returned
unfoldable pub new_queue : ℕ → ℕ → Virtqueue
unfolding free_links
new_queue queue_index queue_size = record {
  index = queue_index;
  num = queue_size;
  desc = free_links 0 queue_size;
  avail_flags = 0;
  avail_idx = 0;
  avail_ring = replicate (queue_size + 1) 0;
  used_idx = 0;
  used_ring = replicate queue_size no_elem;
  free_head = 0;
  num_free = u16 queue_size;
  last_used_idx = 0;
  cookies = replicate queue_size 0;
  notify_addr = 0;
  modern = false;
  use_event_idx = false;
  use_indirect = false;
  indirect_tables = replicate queue_size none;
}

-- Which of the four blocks are allocated, and whether AllocVecTags gives each.
pub record Blocks : Type 0 where
  pub ring : Bool
  pub queue : Bool
  pub cookies : Bool
  pub tables : Bool

abbrev pub no_blocks : Blocks
no_blocks = record { ring = false; queue = false; cookies = false; tables = false }

-- VirtQueue_Allocate: the queue, or `none` for NULL, and the blocks that stay allocated.
unfoldable pub allocate : Blocks → ℕ → ℕ → Option Virtqueue × Blocks
unfolding new_queue
allocate gives queue_index queue_size =
    let b1 = record no_blocks { ring = true } in
    let b2 = record b1 { queue = true } in
    let b3 = record b2 { cookies = true } in
    if gives.ring
    then (if gives.queue
        then (if gives.cookies
            then (if gives.tables
                then (some (new_queue queue_index queue_size), record b3 { tables = true })
                else (none, record b3 { cookies = false; ring = false; queue = false }))
            else (none, record b2 { ring = false; queue = false }))
        else (none, record b1 { ring = false }))
    else (none, no_blocks)

-- VirtQueue_Allocate returns a queue exactly when all four allocations succeed, and keeps no block
-- when it returns NULL.
pub allocate_iff :
    (gives : Blocks) (queue_index queue_size : ℕ)
    → let out = allocate gives queue_index queue_size in
      ((out.0 ≡ some (new_queue queue_index queue_size))
        × (gives.ring && gives.queue && gives.cookies && gives.tables ≡ true))
      ⊎ ((out ≡ (none, no_blocks))
          × (gives.ring && gives.queue && gives.cookies && gives.tables ≡ false))
unfolding allocate
allocate_iff gives queue_index queue_size = ground arith

-- The rings of a queue of at most 32768 entries lie one behind the other within the allocated
-- block, the descriptors and the used ring on page boundaries, when the block ends below 4 GB.
pub layout-fits :
    (queue_size raw : ℕ)
    → queue_size ≤ 32768
    → raw + (layout queue_size raw).alloc_size < 4294967296
    → let l = layout queue_size raw in
      (l.base % vring_align ≡ 0)
      × (raw ≤ l.base)
      × (l.desc_size ≡ 16 * queue_size)
      × (l.avail_end ≡ l.desc_size + 2 * (3 + queue_size))
      × (l.avail_end ≤ l.used_offset)
      × (l.used_offset % vring_align ≡ 0)
      × (l.used_offset + (6 + 8 * queue_size) ≡ l.total_mem)
      × (l.base + l.total_mem ≤ raw + l.alloc_size)
layout-fits queue_size raw small fits = omega arith

length-free_links : (j k : ℕ) → length (free_links j k) ≡ k
unfolding free_links
length-free_links j zero = refl
length-free_links j (suc zero) = omega arith
length-free_links j (suc (suc k)) = omega (arith, length-free_links (j + 1) (suc k))

length-replicate {ℓ} : {A : Type ℓ} (n : ℕ) (a : A) → length (replicate n a) ≡ n
length-replicate zero a = refl
length-replicate (suc n) a = omega (arith, length-replicate n a)

link-free_links : (j k i : ℕ) → i + 1 < k → j + k ≤ 32768 → link (free_links j k) i ≡ j + i + 1
unfolding free_links
link-free_links j zero i lt small = absurd (omega arith)
link-free_links j (suc zero) i lt small = absurd (omega arith)
link-free_links j (suc (suc k)) zero lt small = omega (arith, small)
link-free_links j (suc (suc k)) (suc i) lt small =
    omega (arith, link-free_links (j + 1) (suc k) i (omega arith) (omega arith))

link_last : (j k : ℕ) → link (free_links j (suc k)) k ≡ 0
unfolding free_links
link_last j zero = refl
link_last j (suc k) = link_last (j + 1) k

linked-range :
    (d : List Desc) (j k : ℕ)
    → ((i : ℕ) → i < j + k → link d i ≡ i + 1)
    → ((i : ℕ) → i ≡ j + k → link d i ≡ 0)
    → Linked id_link (link d) j (range j (suc k)) 0
linked-range d j zero steps last = (refl, last j (omega arith))
linked-range d j (suc k) steps last = (
  refl,
  subst (λ h. Linked id_link (link d) h (range (j + 1) (suc k)) 0) (sym (steps j (omega arith)))
      (linked-range d (j + 1) k (λ i lt. steps i (omega arith)) (λ i e. last i (omega arith))),
)

new_queue-IsSized :
    (queue_index queue_size : ℕ)
    → 0 < queue_size
    → queue_size ≤ 32768
    → IsSized (new_queue queue_index queue_size)
unfolding new_queue
new_queue-IsSized queue_index n pos small = record {
  descs = length-free_links 0 n;
  cookie_slots = length-replicate n 0;
  table_slots = length-replicate n none;
  ring_slots = length-replicate (n + 1) 0;
  used_slots = length-replicate n no_elem;
  some_entry = pos;
  small = small;
  last_used_small = omega arith;
}

-- A queue of 1 to 32768 entries starts with all its descriptors free, linked in their order, and no
-- request in flight.
pub new_queue-Owns :
    (queue_index n : ℕ)
    → suc n ≤ 32768
    → Owns (new_queue queue_index (suc n)) (range 0 (suc n)) []
      × IsSized (new_queue queue_index (suc n))
unfolding new_queue
new_queue-Owns queue_index n small =
    let size = suc n in
    (
      record {
        last = 0;
        linked =
            linked-range (free_links 0 size) 0 n
              (λ i lt. omega (arith, link-free_links 0 size i (omega arith) (omega arith)))
              (λ i e.
                subst (λ k. link (free_links 0 size) k ≡ 0) (omega (arith, e)) (link_last 0 n));
        free_count = omega (arith, length-range 0 size);
        requests = tt;
        once = λ j. omega (arith, range_once j 0 size);
        below = λ j h. omega (arith, range_inside j 0 size (λ e. h (omega (arith, e))));
        total = omega (arith, length-range 0 size);
      },
      new_queue-IsSized queue_index size (omega arith) small,
    )
