-- ===== src/Tests/Queue.antt =====
-- A queue of four descriptors of src/virtio/virtqueue.c, and the CDBs of src/scsi_cdb_helpers.c.
use virtual_scsidevice.Base.{
  ◌+◌, ◌*◌, ◌%◌, ◌≤◌, ◌≡◌, ◌⊎◌, refl, sym, true, false, none, some, List, [], ◌∷◌, arith,
}
use virtual_scsidevice.Cdb.{fill_cdb, make_block_cdb}
use virtual_scsidevice.Cdb.Decode.{decode}
use virtual_scsidevice.Cdb.Roundtrip.{decode-make_block_cdb}
use virtual_scsidevice.Chain.{range}
use virtual_scsidevice.Word.{vr16, vr32, bswap16, bswap32}
use virtual_scsidevice.Virtqueue.{
  Virtqueue, Sg, TableSetup, no_elem, add_buf, fill_chain, publish, add_direct,
}
use virtual_scsidevice.Virtqueue.Owned.{Owns, IsSized}
use virtual_scsidevice.Virtqueue.Device.{read_chain, buffers, read_chain-fill_chain}
use virtual_scsidevice.Virtqueue.Allocate.{
  Blocks, no_blocks, layout, allocate, new_queue, free_links, vring_align, new_queue-Owns,
  layout-fits, allocate_iff,
}
use virtual_scsidevice.Virtqueue.Add.{Added, add_buf-Added}
use virtual_scsidevice.Virtqueue.Complete.{GivesBack, Owns-used, get_buf-Owns}

abbrev small_queue : Virtqueue
unfolding new_queue
small_queue = new_queue 2 4

small_queue-Owns : Owns small_queue (range 0 4) []
unfolding small_queue new_queue
small_queue-Owns = (new_queue-Owns 2 3 (omega arith)).0

small_queue-IsSized : IsSized small_queue
unfolding small_queue new_queue
small_queue-IsSized = (new_queue-Owns 2 3 (omega arith)).1

abbrev no_table : TableSetup
no_table = record { table_ok = false; dma_entries = 0; list_ok = false; itbl_phys = 0 }

-- a request header and a response
abbrev pub two_entries : List Sg
two_entries = record { addr = 0x20000; len = 51 } ∷ record { addr = 0x30000; len = 108 } ∷ []

unfoldable with_request : Virtqueue
unfolding add_buf
with_request = (add_buf no_table small_queue two_entries 1 1 77).1

added : Added small_queue with_request [] 77
unfolding with_request add_buf small_queue new_queue
added =
    add_buf-Added no_table small_queue (range 0 4) [] two_entries 1 1 77 small_queue-IsSized
      small_queue-Owns (λ e. cc) refl refl

add_buf-Added_example : Added small_queue (add_buf no_table small_queue two_entries 1 1 77).1 [] 77
unfolding add_buf small_queue new_queue
add_buf-Added_example =
    add_buf-Added no_table small_queue (range 0 4) [] two_entries 1 1 77 small_queue-IsSized
      small_queue-Owns (λ e. cc) refl refl

-- the device has completed the request of head 0 with 108 bytes
unfoldable completed : Virtqueue
unfolding with_request
completed = record with_request {
  used_idx = 1;
  used_ring = record { id = 0; len = 108 } ∷ no_elem ∷ no_elem ∷ no_elem ∷ [];
}

completed-IsSized : IsSized completed
unfolding completed with_request add_buf add_direct fill_chain publish small_queue new_queue
    free_links vr16 bswap16 vr32 bswap32
completed-IsSized = record {
  descs = refl;
  cookie_slots = refl;
  table_slots = refl;
  ring_slots = refl;
  used_slots = refl;
  some_entry = omega arith;
  small = omega arith;
  last_used_small = omega arith;
}

get_buf-Owns_example : GivesBack completed added.free [] added.request []
unfolding completed with_request add_buf add_direct fill_chain publish small_queue new_queue
    free_links vr16 bswap16 vr32 bswap32
get_buf-Owns_example =
    get_buf-Owns completed added.free [] added.request [] completed-IsSized
      (Owns-used 1 (record { id = 0; len = 108 } ∷ no_elem ∷ no_elem ∷ no_elem ∷ []) with_request
        added.free (added.request ∷ []) added.owns)
      (λ e. omega (arith, e)) (sym added.at_head)

read_chain-fill_chain_example :
    read_chain 2 true (fill_chain true 1 0 two_entries 0 (free_links 0 4)).0 0
    ≡ some (buffers 1 0 two_entries)
unfolding free_links
read_chain-fill_chain_example =
    read_chain-fill_chain true 1 two_entries 0 0 (free_links 0 4) (0 ∷ 1 ∷ []) 2 (omega arith)
      (omega arith, omega arith, (omega arith, omega arith, tt)) refl
      (record {
        linked = (refl, (refl, refl));
        distinct = λ j. ground arith;
        inside = λ j h. ground (arith, h);
        short = λ j h. ground (arith, h);
      })

layout-fits_example :
    let l = layout 256 0x1000010 in
    (l.base % vring_align ≡ 0)
    × (0x1000010 ≤ l.base)
    × (l.desc_size ≡ 16 * 256)
    × (l.avail_end ≡ l.desc_size + 2 * (3 + 256))
    × (l.avail_end ≤ l.used_offset)
    × (l.used_offset % vring_align ≡ 0)
    × (l.used_offset + (6 + 8 * 256) ≡ l.total_mem)
    × (l.base + l.total_mem ≤ 0x1000010 + l.alloc_size)
layout-fits_example = layout-fits 256 0x1000010 (omega arith) (omega arith)

abbrev three_blocks : Blocks
three_blocks = record { ring = true; queue = true; cookies = true; tables = false }

allocate_iff_example :
    ((allocate three_blocks 2 4).0 ≡ some (new_queue 2 4)) × (false ≡ true)
    ⊎ ((allocate three_blocks 2 4 ≡ (none, no_blocks)) × (false ≡ false))
allocate_iff_example = allocate_iff three_blocks 2 4

-- a write of 8 blocks far beyond 32-bit addresses
decode-make_block_cdb_example :
    decode (fill_cdb (make_block_cdb true 5000000000 8))
    ≡ some (record { writes = true; lba = 5000000000; blocks = 8 })
decode-make_block_cdb_example = decode-make_block_cdb true 5000000000 8 (omega arith) (omega arith)
