-- ===== src/Tests/Load.antt =====
-- Loading the driver and finding its units: src/Init.c, src/pci/pci_modern_detect.c,
-- src/unit_discovery.c.
use virtual_scsidevice.Base.{
  ℕ, zero, suc, ◌+◌, ◌≡◌, refl, ◌==◌, true, false, ◌&&◌, ◌||◌, if◌then◌else◌, Option, none, some,
  List, [], ◌∷◌, ◌++◌, take, arith,
}
use virtual_scsidevice.Virtqueue.Allocate.{layout}
use virtual_scsidevice.Discovery.{
  Capability, Bars, detect_modern_virtio, discover_virtio_scsi, common_cfg, notify_cfg, isr_cfg,
  device_cfg, Probe, FoundUnit, discover_units, max_found,
}
use virtual_scsidevice.Discovery.Regions.{last_region, has_region, detect_modern_virtio-HasRegions}
use virtual_scsidevice.Discovery.Units.{
  numbered, disks, AllSmall, discover_units-numbered, discover_units-AllSmall,
}
use virtual_scsidevice.Startup.{
  QueueAnswer, Loaded, InitAnswers, Features, negotiate, queue_setup, manager_init,
}
use virtual_scsidevice.Startup.Events.{AllReleased}
use virtual_scsidevice.Startup.Released.{leftover, manager_init-AllReleased}
use virtual_scsidevice.Startup.Rings.{queue_setup-layout}

-- two capabilities, and a chain that returns to the first
abbrev two_regions : ℕ → Option Capability
two_regions zero =
    some (record { cap_type = 9; cfg_type = 1; bar = 4; offset = 0; notify_mult = 0 })
two_regions (suc zero) =
    some (record { cap_type = 9; cfg_type = 2; bar = 4; offset = 0x3000; notify_mult = 4 })
two_regions (suc (suc i)) = two_regions i

abbrev bar4_only : Bars
bar4_only bar = if bar == 4 then some 0x84200000 else none

detect_modern_virtio-HasRegions_example :
    let t = detect_modern_virtio bar4_only two_regions (λ addr. 1) in
    (t.common_cfg_base ≡ last_region bar4_only two_regions common_cfg 32 0 0)
    × (t.notify_cfg_base ≡ last_region bar4_only two_regions notify_cfg 32 0 0)
    × (t.isr_cfg_base ≡ last_region bar4_only two_regions isr_cfg 32 0 0)
    × (t.device_cfg_base ≡ last_region bar4_only two_regions device_cfg 32 0 0)
    × (t.modern_mode ≡ (
        has_region bar4_only two_regions common_cfg 32 0 false
        && (t.common_cfg_base == 0 || 1 == 1)))
detect_modern_virtio-HasRegions_example =
    detect_modern_virtio-HasRegions bar4_only two_regions (λ addr. 1)

-- BAR 4 is out of reach while BAR 5 is all ones
abbrev bars_by_bar5 : ℕ → Bars
bars_by_bar5 bar5 bar = if bar5 == 0 then bar4_only bar else none

broken_bar5_modern :
    discover_virtio_scsi (λ id. id == 0x1048) 0xffffffff bars_by_bar5 two_regions (λ addr. 1)
    ≡ some (record {
      device_id = 0x1048;
      bar5 = 0;
      bar0 = none;
      bar4 = some 0x84200000;
      mode = record {
        modern_mode = true;
        common_cfg_base = 0x84200000;
        notify_cfg_base = 0x84203000;
        notify_off_mult = 4;
        isr_cfg_base = 0;
        device_cfg_base = 0;
      };
    })
unfolding discover_virtio_scsi
broken_bar5_modern = refl

-- a disk at target 1 and a CD-ROM at target 3
abbrev two_disks : ℕ → ℕ → Probe
two_disks t l = record {
  inq_data =
      if l == 0
      then (if t == 1 then some (0 ∷ []) else if t == 3 then some (5 ∷ []) else none)
      else none;
  memory = true;
}

discover_units-numbered_example :
    discover_units two_disks ≡ numbered 0 (take max_found (disks two_disks 0 8))
discover_units-numbered_example = discover_units-numbered two_disks

discover_units-AllSmall_example : AllSmall (discover_units two_disks)
discover_units-AllSmall_example = discover_units-AllSmall two_disks

abbrev good_queue : QueueAnswer
good_queue = record {
  q_max = 256;
  allocated = true;
  entries = 1;
  list_ok = true;
  phys = 0x200000;
  q_noff = 2;
}

-- the third queue gets no memory for its entry list
abbrev last_queue_fails : ℕ → QueueAnswer
last_queue_fails q = if q == 2 then record good_queue { list_ok = false } else good_queue

abbrev loading : InitAnswers
loading = record {
  has_expansion = true;
  has_ipci = true;
  has_device = true;
  has_bar0 = true;
  has_bar4 = true;
  has_utility = true;
  has_iutility = true;
  modern_mode = true;
  notify_cfg_base = 0x84203000;
  notify_off_mult = 4;
  offered_lo = 0x30000002;
  offered_hi = 1;
  features_ok = true;
  queues = last_queue_fails;
  irq_number = 9;
  int_added = true;
  has_inquiry_buffer = true;
  probes = two_disks;
}

-- the same with all queues
abbrev loading_well : InitAnswers
loading_well = record loading { queues = λ q. good_queue }

abbrev units_of : Option Loaded → Option (List FoundUnit)
units_of none = none
units_of (some base) = some base.units

loading_well_units :
    units_of (manager_init loading_well).base ≡ some (numbered 0 ((1, 0) ∷ (3, 0) ∷ []))
unfolding manager_init discover_units
loading_well_units = refl

manager_init-AllReleased_example :
    AllReleased ((manager_init loading_well).events ++ leftover (manager_init loading_well).base)
manager_init-AllReleased_example = manager_init-AllReleased loading_well

abbrev modern_features : Features
modern_features = negotiate true 0x30000002 1

modern_features_mode : modern_features.modern ≡ true
unfolding negotiate
modern_features_mode = refl

queue_setup-layout_example :
    let setup = queue_setup modern_features 0x84203000 4 2 good_queue in
    (setup.avail_phys ≡ 0x200000 + (layout 256 0).desc_size)
    × (setup.used_phys ≡ 0x200000 + (layout 256 0).used_offset)
queue_setup-layout_example =
    queue_setup-layout modern_features 0x84203000 4 2 good_queue modern_features_mode (omega arith)
      (omega arith)
