-- ===== src/Discovery/Regions.antt =====
-- The regions that DetectModernVirtIO of src/pci/pci_modern_detect.c takes from the capabilities.
use virtual_scsidevice.Base.{
  ℕ, zero, suc, ◌+◌, ◌≡◌, refl, ap, subst, ◌∙◌, ◌==◌, Bool, true, false, ◌&&◌, ◌||◌, not,
  if◌then◌else◌, if_ind, Option-cases, inl, inr, Option, none, some, arith,
}
use virtual_scsidevice.Word.{u32}
use virtual_scsidevice.Discovery.{
  Capability, ModernState, no_regions, vendor_cap, common_cfg, notify_cfg, isr_cfg, device_cfg,
  set_region, Bars, region_at, read_capability, walk_capabilities, guard_limit, probe_mode,
  detect_modern_virtio,
}

-- where a capability puts the region of a kind, if it is one of that kind in an available BAR
abbrev pub address_at : Option ℕ → Capability → ℕ → Option ℕ
address_at none cap kind = none
address_at (some base) cap kind =
    if cap.cfg_type == kind then some (u32 (base + cap.offset)) else none

abbrev pub region_of : Bars → ℕ → Capability → Option ℕ
region_of bars kind cap =
    if cap.cap_type == vendor_cap then address_at (bars cap.bar) cap kind else none

abbrev pub or_before : Option ℕ → ℕ → ℕ
or_before none before = before
or_before (some addr) before = addr

-- The address of the last region of a kind among the capabilities at `left` places from `place` on, and
-- whether there is one.
abbrev pub last_region : Bars → (ℕ → Option Capability) → ℕ → (left place before : ℕ) → ℕ
last_region bars caps kind zero place before = before
last_region bars caps kind (suc left) place before = elim (caps place) [
  | none ↦ before
  | some cap ↦
      last_region bars caps kind left (place + 1) (or_before (region_of bars kind cap) before)
]

abbrev pub is_some : Option ℕ → Bool
is_some none = false
is_some (some addr) = true

abbrev pub has_region : Bars → (ℕ → Option Capability) → ℕ → (left place : ℕ) → Bool → Bool
has_region bars caps kind zero place before = before
has_region bars caps kind (suc left) place before = elim (caps place) [
  | none ↦ before
  | some cap ↦
      has_region bars caps kind left (place + 1) (is_some (region_of bars kind cap) || before)
]

-- what one capability does to each region, by where it puts each kind
abbrev Reads : (ℕ → Option ℕ) → ModernState → ModernState → Type 0
Reads at s t =
    (t.common_cfg_base ≡ or_before (at common_cfg) s.common_cfg_base)
    × (t.notify_cfg_base ≡ or_before (at notify_cfg) s.notify_cfg_base)
    × (t.isr_cfg_base ≡ or_before (at isr_cfg) s.isr_cfg_base)
    × (t.device_cfg_base ≡ or_before (at device_cfg) s.device_cfg_base)
    × (t.modern_mode ≡ (is_some (at common_cfg) || s.modern_mode))

set_region-Reads :
    (addr : ℕ) (cap : Capability) (s : ModernState)
    → Reads (λ k. if cap.cfg_type == k then some addr else none) s (set_region cap addr s)
unfolding set_region
set_region-Reads addr cap s = ground arith

region_at-Reads :
    (base : Option ℕ) (cap : Capability) (s : ModernState)
    → Reads (address_at base cap) s (region_at base cap s)
region_at-Reads none cap s = (refl, refl, refl, refl, refl)
region_at-Reads (some base) cap s = set_region-Reads (u32 (base + cap.offset)) cap s

read_capability-Reads :
    (bars : Bars) (cap : Capability) (s : ModernState)
    → Reads (λ k. region_of bars k cap) s (read_capability bars cap s)
unfolding read_capability
read_capability-Reads bars cap s =
    elim (cap.cap_type == vendor_cap)
      as (λ v.
        Reads (λ k. if v then address_at (bars cap.bar) cap k else none) s
          (if not v then s else region_at (bars cap.bar) cap s)) [
            | true ↦ region_at-Reads (bars cap.bar) cap s
            | false ↦ (refl, refl, refl, refl, refl)
          ]

-- The regions after a walk that started from `s`.
pub record HasRegions (bars : Bars) (caps : ℕ → Option Capability) (left place : ℕ)
    (s t : ModernState) : Type 0 where
  pub common : t.common_cfg_base ≡ last_region bars caps common_cfg left place s.common_cfg_base
  pub notify : t.notify_cfg_base ≡ last_region bars caps notify_cfg left place s.notify_cfg_base
  pub isr : t.isr_cfg_base ≡ last_region bars caps isr_cfg left place s.isr_cfg_base
  pub device : t.device_cfg_base ≡ last_region bars caps device_cfg left place s.device_cfg_base
  pub modern : t.modern_mode ≡ has_region bars caps common_cfg left place s.modern_mode

walked_one :
    (bars : Bars) (caps : ℕ → Option Capability) (left place : ℕ) (cap : Capability)
    (s t : ModernState)
    → HasRegions bars caps left (place + 1) (read_capability bars cap s) t
    → caps place ≡ some cap
    → HasRegions bars caps (suc left) place s t
walked_one bars caps left place cap s t h e =
    let r = read_capability-Reads bars cap s in
    record {
      common =
          rw (e, last_region)
            (h.common ∙ ap (last_region bars caps common_cfg left (place + 1)) r.0);
      notify =
          rw (e, last_region)
            (h.notify ∙ ap (last_region bars caps notify_cfg left (place + 1)) r.1);
      isr = rw (e, last_region) (h.isr ∙ ap (last_region bars caps isr_cfg left (place + 1)) r.2);
      device =
          rw (e, last_region)
            (h.device ∙ ap (last_region bars caps device_cfg left (place + 1)) r.3);
      modern =
          rw (e, has_region) (h.modern ∙ ap (has_region bars caps common_cfg left (place + 1)) r.4);
    }

walked_none :
    (bars : Bars) (caps : ℕ → Option Capability) (left place : ℕ) (s : ModernState)
    → caps place ≡ none
    → HasRegions bars caps (suc left) place s s
walked_none bars caps left place s e = record {
  common = rw (e, last_region) refl;
  notify = rw (e, last_region) refl;
  isr = rw (e, last_region) refl;
  device = rw (e, last_region) refl;
  modern = rw (e, has_region) refl;
}

walk_capabilities-HasRegions :
    (bars : Bars) (caps : ℕ → Option Capability) (left place : ℕ) (s : ModernState)
    → HasRegions bars caps left place s (walk_capabilities bars caps left place s)
unfolding walk_capabilities
walk_capabilities-HasRegions bars caps zero place s = record {
  common = refl;
  notify = refl;
  isr = refl;
  device = refl;
  modern = refl;
}
walk_capabilities-HasRegions bars caps (suc left) place s = elim (Option-cases (caps place)) [
  | inl e ↦ rw (e, walk_capabilities) (walked_none bars caps left place s e)
  | inr (cap, e) ↦
      rw (e, walk_capabilities)
        (walked_one bars caps left place cap s _
          (walk_capabilities-HasRegions bars caps left (place + 1) (read_capability bars cap s)) e)
]

probed : (m z p : Bool) → (m && not z) ≡ true → p ≡ (m && (z || p))
probed true false p e = refl
probed true true p e = absurd (cc e)
probed false z p e = absurd (cc e)

unprobed : (m z p : Bool) → (m && not z) ≡ false → m ≡ (m && (z || p))
unprobed true false p e = absurd (cc e)
unprobed true true p e = refl
unprobed false z p e = refl

-- DetectModernVirtIO looks at the first 32 capabilities at most, whatever their chain: the base of
-- each region is the one of its last capability of that kind in an available BAR, or 0; and the mode
-- is modern exactly when a common configuration was found and, its base not being 0, the status that
-- was written there is read back.
pub detect_modern_virtio-HasRegions :
    (bars : Bars) (caps : ℕ → Option Capability) (probe : ℕ → ℕ)
    → let t = detect_modern_virtio bars caps probe in
      (t.common_cfg_base ≡ last_region bars caps common_cfg 32 0 0)
      × (t.notify_cfg_base ≡ last_region bars caps notify_cfg 32 0 0)
      × (t.isr_cfg_base ≡ last_region bars caps isr_cfg 32 0 0)
      × (t.device_cfg_base ≡ last_region bars caps device_cfg 32 0 0)
      × (t.modern_mode ≡ (
          has_region bars caps common_cfg 32 0 false
          && (t.common_cfg_base == 0 || probe t.common_cfg_base == 1)))
unfolding detect_modern_virtio probe_mode
detect_modern_virtio-HasRegions bars caps probe =
    let s = walk_capabilities bars caps guard_limit 0 no_regions in
    let h = walk_capabilities-HasRegions bars caps guard_limit 0 no_regions in
    let has = has_region bars caps common_cfg 32 0 false in
    let P = λ (t : ModernState).
      (t.common_cfg_base ≡ last_region bars caps common_cfg 32 0 0)
      × (t.notify_cfg_base ≡ last_region bars caps notify_cfg 32 0 0)
      × (t.isr_cfg_base ≡ last_region bars caps isr_cfg 32 0 0)
      × (t.device_cfg_base ≡ last_region bars caps device_cfg 32 0 0)
      × (t.modern_mode ≡ (has && (t.common_cfg_base == 0 || probe t.common_cfg_base == 1))) in
    if_ind P (s.modern_mode && not (s.common_cfg_base == 0))
      (record s { modern_mode = probe s.common_cfg_base == 1 }) s
      (λ e. (
        h.common,
        h.notify,
        h.isr,
        h.device,
        subst
            (λ m.
              (probe s.common_cfg_base == 1)
              ≡ (m && (s.common_cfg_base == 0 || probe s.common_cfg_base == 1)))
            h.modern
            (probed s.modern_mode (s.common_cfg_base == 0) (probe s.common_cfg_base == 1) e),
      ))
      (λ e. (
        h.common,
        h.notify,
        h.isr,
        h.device,
        subst (λ m. s.modern_mode ≡ (m && (s.common_cfg_base == 0 || probe s.common_cfg_base == 1)))
            h.modern
            (unprobed s.modern_mode (s.common_cfg_base == 0) (probe s.common_cfg_base == 1) e),
      ))
