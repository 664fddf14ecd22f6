-- ===== src/Startup.antt =====
-- Loading and removing the driver: _manager_Init (src/Init.c), the queue setup of InitVirtIOSCSI and
-- CleanupVirtIOSCSI (src/virtio/virtio_init.c), VirtQueue_Free (src/virtio/virtqueue.c), the install of
-- the interrupt (src/virtio/virtio_irq.c), and what _manager_Expunge (src/Expunge.c) gives back. What
-- the system and the device answer is an argument; register writes other than the features are left
-- out.
pub mod Events
pub mod Queues
pub mod Framed
pub mod Released
pub mod Rings
use virtual_scsidevice.Base.{
  ℕ, zero, suc, ◌+◌, ◌*◌, ◌-◌, ◌/◌, ◌%◌, ◌==◌, ltb, Bool, true, false, ◌&&◌, not, if◌then◌else◌,
  Option, none, some, List, [], ◌∷◌, ◌++◌, bit_and,
}
use virtual_scsidevice.Word.{u32}
use virtual_scsidevice.Discovery.{FoundUnit, Probe, discover_units}

-- What the driver holds of the system: the libraries and interfaces, the PCI device and its ranges, the
-- interrupt, and for each queue its memory and its mapping.
abbrev pub expansion : ℕ
expansion = 0

abbrev pub ipci : ℕ
ipci = 1

abbrev pub device : ℕ
device = 2

abbrev pub bar0_range : ℕ
bar0_range = 3

abbrev pub bar4_range : ℕ
bar4_range = 4

abbrev pub utility : ℕ
utility = 5

abbrev pub iutility : ℕ
iutility = 6

abbrev pub int_server : ℕ
int_server = 7

-- the buffer of DiscoverUnits, and the unit with a number
abbrev pub inquiry_buffer : ℕ
inquiry_buffer = 8

abbrev pub unit_memory : ℕ → ℕ
unit_memory n = 20 + n

abbrev pub queue_memory : ℕ → ℕ
queue_memory q = 10 + 3 * q

abbrev pub queue_mapping : ℕ → ℕ
queue_mapping q = 11 + 3 * q

abbrev pub queue_list : ℕ → ℕ
queue_list q = 12 + 3 * q

pub data Event : Type 0 where
  acquire release : (piece : ℕ) → Event

-- What is answered when a queue is set up: its size, whether VirtQueue_Allocate gives it, the entries
-- from StartDMA, whether there is memory for their list, the physical address and the notify offset.
pub record QueueAnswer : Type 0 where
  pub q_max : ℕ
  pub allocated : Bool
  pub entries : ℕ
  pub list_ok : Bool
  pub phys : ℕ
  pub q_noff : ℕ

-- The mode of the device and the negotiated features.
pub record Features : Type 0 where
  pub modern : Bool
  pub guest_lo : ℕ
  pub guest_hi : ℕ
  pub use_event_idx : Bool
  pub use_indirect : Bool

-- The fields of struct virtqueue that the setup writes.
pub record QueueSetup : Type 0 where
  pub index : ℕ
  pub dma_entries : ℕ
  pub dma_phys : ℕ
  pub avail_phys : ℕ
  pub used_phys : ℕ
  pub notify_addr : ℕ
  pub queue_modern : Bool
  pub queue_event_idx : Bool
  pub queue_indirect : Bool

-- VIRTIO_F_INDIRECT_DESC, VIRTIO_F_EVENT_IDX
abbrev pub f_indirect_desc : ℕ
f_indirect_desc = 268435456

abbrev pub f_event_idx : ℕ
f_event_idx = 536870912

-- The features that are accepted of those offered, in the low and the high word.
unfoldable pub negotiate : Bool → ℕ → ℕ → Features
negotiate modern offered_lo offered_hi =
    let lo =
      if modern
      then bit_and offered_lo (f_indirect_desc + f_event_idx)
      else bit_and offered_lo f_event_idx in
    record {
      modern = modern;
      guest_lo = lo;
      guest_hi = if modern then bit_and offered_hi 1 else 0;
      use_event_idx = not (bit_and lo f_event_idx == 0);
      use_indirect = if modern then not (bit_and lo f_indirect_desc == 0) else false;
    }

-- The rings behind the descriptor table, for a modern device; a legacy device gets the page number of
-- the table.
unfoldable pub queue_setup : Features → ℕ → ℕ → ℕ → QueueAnswer → QueueSetup
queue_setup f notify_cfg_base notify_off_mult q a =
    let desc_size = 16 * a.q_max in
    let avail_size = 2 * (3 + a.q_max) in
    record {
      index = q;
      dma_entries = a.entries;
      dma_phys = a.phys;
      avail_phys = if f.modern then u32 (a.phys + desc_size) else 0;
      used_phys =
          if f.modern then u32 (a.phys + (desc_size + avail_size + 4095) / 4096 * 4096) else 0;
      notify_addr =
          if f.modern
          then u32
              (notify_cfg_base + (if notify_off_mult == 0 then 0 else a.q_noff * notify_off_mult))
          else 0;
      queue_modern = f.modern;
      queue_event_idx = f.use_event_idx;
      queue_indirect = if q == 1 then false else f.use_indirect;
    }

-- The queues so far: `vqs[]`, and the calls.
pub record QueuesSet : Type 0 where
  pub ok : Bool
  pub vqs : List QueueSetup
  pub events : List Event

-- VirtQueue_Free
unfoldable pub virtqueue_free : ℕ → ℕ → List Event
virtqueue_free q dma_entries =
    if ltb 0 dma_entries
    then release (queue_mapping q) ∷ release (queue_memory q) ∷ []
    else release (queue_memory q) ∷ []

abbrev pub with_events : List Event → QueuesSet → QueuesSet
with_events events r = record r { events = events ++ r.events }

abbrev pub queues_failed : List QueueSetup → List Event → QueuesSet
queues_failed vqs events = record { ok = false; vqs = vqs; events = events }

-- The loop over the queues from `q` on, `left` of them.
unfoldable pub setup_queues :
    (ℕ → QueueAnswer) → (ℕ → QueueAnswer → QueueSetup) → (q left : ℕ) → List QueueSetup → QueuesSet
unfolding virtqueue_free
setup_queues answers make q zero vqs = record { ok = true; vqs = vqs; events = [] }
setup_queues answers make q (suc left) vqs =
    let a = answers q in
    let skipped = setup_queues answers make (q + 1) left vqs in
    let next = setup_queues answers make (q + 1) left (vqs ++ (make q a ∷ [])) in
    if a.q_max == 0
    then skipped
    else if not a.allocated
    then queues_failed vqs []
    else if a.entries == 0
    then queues_failed vqs (acquire (queue_memory q) ∷ virtqueue_free q 0)
    else if not a.list_ok
    then queues_failed vqs (
        acquire (queue_memory q)
        ∷ acquire (queue_mapping q)
        ∷ release (queue_mapping q)
        ∷ virtqueue_free q 0)
    else with_events
        (acquire (queue_memory q)
          ∷ acquire (queue_mapping q)
          ∷ acquire (queue_list q)
          ∷ release (queue_list q)
          ∷ [])
        next

-- CleanupVirtIOSCSI, without the reset of the device
unfoldable pub cleanup_queues : List QueueSetup → List Event
unfolding virtqueue_free
cleanup_queues [] = []
cleanup_queues (vq ∷ vqs) = virtqueue_free vq.index vq.dma_entries ++ cleanup_queues vqs

-- What is answered when the driver is loaded.
pub record InitAnswers : Type 0 where
  pub has_expansion : Bool
  pub has_ipci : Bool
  pub has_device : Bool
  pub has_bar0 : Bool
  pub has_bar4 : Bool
  pub has_utility : Bool
  pub has_iutility : Bool
  pub modern_mode : Bool
  pub notify_cfg_base : ℕ
  pub notify_off_mult : ℕ
  pub offered_lo : ℕ
  pub offered_hi : ℕ
  pub features_ok : Bool
  pub queues : ℕ → QueueAnswer
  pub irq_number : ℕ
  pub int_added : Bool
  pub has_inquiry_buffer : Bool
  pub probes : ℕ → ℕ → Probe

-- InitVirtIOSCSI: a modern device may refuse the features, a legacy one needs BAR 0.
unfoldable pub init_virtio_scsi : InitAnswers → QueuesSet
unfolding setup_queues negotiate queue_setup
init_virtio_scsi a =
    let f = negotiate a.modern_mode a.offered_lo a.offered_hi in
    let make = queue_setup f a.notify_cfg_base a.notify_off_mult in
    if not (if a.modern_mode then a.features_ok else a.has_bar0)
    then queues_failed [] []
    else setup_queues a.queues make 0 3 []

pub record Loaded : Type 0 where
  pub bar0 : Bool
  pub bar4 : Bool
  pub irq_installed : Bool
  pub vqs : List QueueSetup
  pub units : List FoundUnit

pub record InitResult : Type 0 where
  pub base : Option Loaded
  pub events : List Event

abbrev pub init_failed : List Event → InitResult
init_failed events = record { base = none; events = events }

-- the ranges, when there are any
abbrev pub event_if : Bool → Event → List Event
event_if b e = if b then e ∷ [] else []

abbrev pub take_ranges : Bool → Bool → List Event
take_ranges bar0 bar4 = event_if bar0 (acquire bar0_range) ++ event_if bar4 (acquire bar4_range)

abbrev pub release_device : Bool → Bool → List Event
release_device bar0 bar4 =
    event_if bar0 (release bar0_range)
    ++ (event_if bar4 (release bar4_range) ++ (release device ∷ []))

-- What _manager_Init takes when it calls DiscoverUnits, and the FreeVec of _manager_Expunge for each unit:
-- `units[]` is filled from 0 on.
abbrev pub take_units : List FoundUnit → List Event
take_units [] = []
take_units (u ∷ units) = acquire (unit_memory u.unit_num) ∷ take_units units

abbrev pub free_units : List FoundUnit → List Event
free_units [] = []
free_units (u ∷ units) = release (unit_memory u.unit_num) ∷ free_units units

unfoldable pub scan_units : Bool → (ℕ → ℕ → Probe) → List FoundUnit
scan_units has_buffer probes = if has_buffer then discover_units probes else []

abbrev pub scan_events : Bool → List FoundUnit → List Event
scan_events has_buffer units =
    if has_buffer
    then acquire inquiry_buffer ∷ (take_units units ++ (release inquiry_buffer ∷ []))
    else []

-- _manager_Init
unfoldable pub manager_init : InitAnswers → InitResult
unfolding init_virtio_scsi cleanup_queues scan_units
manager_init a =
    let found =
      acquire expansion ∷ acquire ipci ∷ acquire device ∷ take_ranges a.has_bar0 a.has_bar4 in
    let pci_off = release_device a.has_bar0 a.has_bar4 in
    let q = init_virtio_scsi a in
    let irq = not (a.irq_number == 0) && a.int_added in
    let units = scan_units a.has_inquiry_buffer a.probes in
    if not a.has_expansion
    then init_failed []
    else if not a.has_ipci
    then init_failed (acquire expansion ∷ release expansion ∷ [])
    else if not a.has_device
    then init_failed (acquire expansion ∷ acquire ipci ∷ release ipci ∷ release expansion ∷ [])
    else if not a.has_utility
    then init_failed (found ++ (pci_off ++ (release ipci ∷ release expansion ∷ [])))
    else if not a.has_iutility
    then init_failed (
        found
        ++ (acquire utility
            ∷ (pci_off ++ (release utility ∷ release ipci ∷ release expansion ∷ []))))
    else if not q.ok
    then init_failed (
        found
        ++ (acquire utility
            ∷ acquire iutility
            ∷ (q.events
                ++ (cleanup_queues q.vqs
                    ++ (pci_off
                        ++ (release iutility
                            ∷ release utility
                            ∷ release ipci
                            ∷ release expansion
                            ∷ []))))))
    else record {
      base = some (record {
        bar0 = a.has_bar0;
        bar4 = a.has_bar4;
        irq_installed = irq;
        vqs = q.vqs;
        units = units;
      });
      events =
          found
          ++ (acquire utility
              ∷ acquire iutility
              ∷ (q.events
                  ++ (event_if irq (acquire int_server)
                      ++ scan_events a.has_inquiry_buffer units)));
    }

-- What _manager_Expunge gives back, for a device that is loaded and whose unit tasks do not run.
unfoldable pub release_all : Loaded → List Event
unfolding cleanup_queues
release_all base =
    event_if base.irq_installed (release int_server)
    ++ (cleanup_queues base.vqs
        ++ (free_units base.units
            ++ (release_device base.bar0 base.bar4
                ++ (release iutility ∷ release utility ∷ release ipci ∷ release expansion ∷ []))))
