-- ===== src/Startup/Rings.antt =====
-- The rings of a modern queue as InitVirtIOSCSI_Modern (src/virtio/virtio_init.c) tells the device, and as
-- VirtQueue_Allocate (src/virtio/virtqueue.c) lays them out.
use virtual_scsidevice.Base.{ℕ, ◌+◌, ◌≡◌, ◌≤◌, ◌<◌, true, arith}
use virtual_scsidevice.Virtqueue.Allocate.{layout}
use virtual_scsidevice.Startup.{Features, QueueAnswer, queue_setup}

-- For a modern queue of at most 32768 entries whose block ends below 4 GB, the addresses of the rings
-- that the device is told are those of the layout of VirtQueue_Allocate, moved to the physical address
-- of the block.
pub queue_setup-layout :
    (f : Features) (notify_cfg_base notify_off_mult q : ℕ) (a : QueueAnswer)
    → f.modern ≡ true
    → a.q_max ≤ 32768
    → a.phys + (layout a.q_max 0).total_mem < 4294967296
    → let setup = queue_setup f notify_cfg_base notify_off_mult q a in
      (setup.avail_phys ≡ a.phys + (layout a.q_max 0).desc_size)
      × (setup.used_phys ≡ a.phys + (layout a.q_max 0).used_offset)
unfolding queue_setup
queue_setup-layout f notify_cfg_base notify_off_mult q a e small fits =
    rw e (omega (arith, small, fits), omega (arith, small, fits))
