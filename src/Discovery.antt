-- ===== src/Discovery.antt =====
-- What the driver finds when it is loaded: DiscoverVirtIOSCSI (src/pci/pci_discovery.c),
-- DetectModernVirtIO (src/pci/pci_modern_detect.c) and DiscoverUnits (src/unit_discovery.c). What the configuration space, the device and the allocator
-- answer is an argument.
pub mod Regions
pub mod Units
use virtual_scsidevice.Base.{
  ℕ, zero, suc, ◌+◌, ◌/◌, ◌%◌, ◌==◌, leb, Bool, true, false, ◌&&◌, ◌||◌, not, if◌then◌else◌, Option,
  none, some, List, [], ◌∷◌, ◌++◌, length, get_or,
}
use virtual_scsidevice.Word.{u32}

-- A capability of the configuration space: its type, and what is read at its offset.
pub record Capability : Type 0 where
  pub cap_type : ℕ
  pub cfg_type : ℕ
  pub bar : ℕ
  pub offset : ℕ
  pub notify_mult : ℕ

-- PCI_CAPABILITYID_VENDOR, and VIRTIO_PCI_CAP_COMMON_CFG, NOTIFY_CFG, ISR_CFG and DEVICE_CFG
abbrev pub vendor_cap : ℕ
vendor_cap = 9

abbrev pub common_cfg : ℕ
common_cfg = 1

abbrev pub notify_cfg : ℕ
notify_cfg = 2

abbrev pub isr_cfg : ℕ
isr_cfg = 3

abbrev pub device_cfg : ℕ
device_cfg = 4

-- The fields of struct VirtIOSCSIBase that DetectModernVirtIO sets.
pub record ModernState : Type 0 where
  pub modern_mode : Bool
  pub common_cfg_base : ℕ
  pub notify_cfg_base : ℕ
  pub notify_off_mult : ℕ
  pub isr_cfg_base : ℕ
  pub device_cfg_base : ℕ

abbrev pub no_regions : ModernState
no_regions = record {
  modern_mode = false;
  common_cfg_base = 0;
  notify_cfg_base = 0;
  notify_off_mult = 0;
  isr_cfg_base = 0;
  device_cfg_base = 0;
}

-- the `switch` over cfg_type, for the address of the region
unfoldable pub set_region : Capability → ℕ → ModernState → ModernState
set_region cap addr s =
    if cap.cfg_type == common_cfg
    then record s { common_cfg_base = addr; modern_mode = true }
    else if cap.cfg_type == notify_cfg
    then record s { notify_cfg_base = addr; notify_off_mult = cap.notify_mult }
    else if cap.cfg_type == isr_cfg
    then record s { isr_cfg_base = addr }
    else if cap.cfg_type == device_cfg
    then record s { device_cfg_base = addr }
    else s

-- The base address of a BAR, when its range is available.
abbrev pub Bars : Type 0
Bars = ℕ → Option ℕ

abbrev pub region_at : Option ℕ → Capability → ModernState → ModernState
region_at none cap s = s
region_at (some base) cap s = set_region cap (u32 (base + cap.offset)) s

-- the body of the loop
unfoldable pub read_capability : Bars → Capability → ModernState → ModernState
unfolding set_region
read_capability bars cap s =
    if not (cap.cap_type == vendor_cap) then s else region_at (bars cap.bar) cap s

-- The loop, while `guard` allows `left` more rounds: `caps` gives the capability at a place of the
-- chain, which a broken device may tie to a ring.
unfoldable pub walk_capabilities :
    Bars → (ℕ → Option Capability) → (left place : ℕ) → ModernState → ModernState
unfolding read_capability
walk_capabilities bars caps zero place s = s
walk_capabilities bars caps (suc left) place s = elim (caps place) [
  | none ↦ s
  | some cap ↦ walk_capabilities bars caps left (place + 1) (read_capability bars cap s)
]

abbrev pub guard_limit : ℕ
guard_limit = 32

-- The probe reads back the status that it wrote to the common configuration at an address.
unfoldable pub probe_mode : (ℕ → ℕ) → ModernState → ModernState
probe_mode probe s =
    if s.modern_mode && not (s.common_cfg_base == 0)
    then record s { modern_mode = probe s.common_cfg_base == 1 }
    else s

-- DetectModernVirtIO, for a device that exists
unfoldable pub detect_modern_virtio : Bars → (ℕ → Option Capability) → (ℕ → ℕ) → ModernState
unfolding walk_capabilities probe_mode
detect_modern_virtio bars caps probe =
    probe_mode probe (walk_capabilities bars caps guard_limit 0 no_regions)

-- The transitional device is preferred to the modern one.
unfoldable pub find_device : (ℕ → Bool) → Option ℕ
find_device finds = if finds 0x1004 then some 0x1004 else if finds 0x1048 then some 0x1048 else none

-- a high word of BAR 4 that firmware left at all ones
abbrev pub fix_bar5 : ℕ → ℕ
fix_bar5 bar5 = if bar5 == 0xffffffff then 0 else bar5

pub record FoundDevice : Type 0 where
  pub device_id : ℕ
  pub bar5 : ℕ
  pub bar0 : Option ℕ
  pub bar4 : Option ℕ
  pub mode : ModernState

-- DiscoverVirtIOSCSI: which ranges are available depends on what BAR 5 holds when they are asked for.
unfoldable pub discover_virtio_scsi :
    (ℕ → Bool) → ℕ → (ℕ → Bars) → (ℕ → Option Capability) → (ℕ → ℕ) → Option FoundDevice
unfolding find_device detect_modern_virtio
discover_virtio_scsi finds bar5 bars caps probe = elim (find_device finds) [
  | none ↦ none
  | some device_id ↦
      let fixed = fix_bar5 bar5 in
      some (record {
        device_id = device_id;
        bar5 = fixed;
        bar0 = bars fixed 0;
        bar4 = bars fixed 4;
        mode = detect_modern_virtio (bars fixed) caps probe;
      })
]

-- A unit as discovery leaves it.
pub record FoundUnit : Type 0 where
  pub unit_num : ℕ
  pub target_id : ℕ
  pub lun_id : ℕ

-- The answer of INQUIRY when DoIO returned 0 with status 0: the buffer; and whether there is memory for
-- a unit.
pub record Probe : Type 0 where
  pub inq_data : Option (List ℕ)
  pub memory : Bool

-- the qualifier is not 3, and the type is that of a disk or a CD-ROM
unfoldable pub accepts : List ℕ → Bool
accepts inq_data =
    let first = get_or inq_data 0 0 in not (first / 32 == 3) && (first % 32 == 0 || first % 32 == 5)

abbrev pub max_found : ℕ
max_found = 8

-- The body of the loops for a target and a LUN; `units_found` is the length of `units`, which is
-- filled from 0 on.
unfoldable pub probe_unit : Probe → ℕ → ℕ → List FoundUnit → List FoundUnit
unfolding accepts
probe_unit answer t l units = elim answer.inq_data [
  | none ↦ units
  | some inq_data ↦
      if accepts inq_data && answer.memory
      then units ++ (record { unit_num = length units; target_id = t; lun_id = l } ∷ [])
      else units
]

-- the loop over the LUNs from `l` on, `left` of them, with its `break`
unfoldable pub scan_luns : (ℕ → ℕ → Probe) → ℕ → (l left : ℕ) → List FoundUnit → List FoundUnit
unfolding probe_unit
scan_luns answers t l zero units = units
scan_luns answers t l (suc left) units =
    let rest = scan_luns answers t (l + 1) left (probe_unit (answers t l) t l units) in
    if leb max_found (length units) then units else rest

unfoldable pub scan_targets : (ℕ → ℕ → Probe) → (t left : ℕ) → List FoundUnit → List FoundUnit
unfolding scan_luns
scan_targets answers t zero units = units
scan_targets answers t (suc left) units =
    scan_targets answers (t + 1) left (scan_luns answers t 0 8 units)

-- DiscoverUnits, once its buffer is allocated
unfoldable pub discover_units : (ℕ → ℕ → Probe) → List FoundUnit
unfolding scan_targets
discover_units answers = scan_targets answers 0 8 []
