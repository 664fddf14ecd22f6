-- ===== src/Geometry/Shape.antt =====
-- The CHS values of a unit after ensure_rdb_geometry_cached of src/scsi_cdb_helpers.c.
use virtual_scsidevice.Base.{
  ℕ, ◌*◌, ◌<◌, ◌≡◌, ◌⊎◌, inl, inr, refl, sym, subst, Bool, true, false, ◌&&◌, not, ◌==◌, ltb,
  if◌then◌else◌, if_ind, arith,
}
use virtual_scsidevice.Word.{u32}
use virtual_scsidevice.Errors.{no_error, is_error}
use virtual_scsidevice.Cdb.{make_read10_cdb, make_read_capacity16_cdb}
use virtual_scsidevice.Transport.{Transport, Answer, long}
use virtual_scsidevice.Geometry.{
  Geometry, Outcome, Chs, checked, cap10_cdb, read_capacity, read_capacity16, header_chs,
  has_signature, parse_rdb, override_shape, follow_partition, good, reset_rdb, size_of, use_rdb,
  probe_rdb, ensure_geometry_cached, ensure_rdb_geometry_cached,
}
use virtual_scsidevice.Geometry.Rdb.{IsRdb, parse_rdb-cases}

-- The same cylinders, and a shape that is not 0 with the same product in 32 bits.
abbrev pub SameCylinder : Chs → Chs → Type 0
SameCylinder chs shape =
    (shape.cyls ≡ chs.cyls)
    × (0 < shape.sectors)
    × (0 < shape.heads)
    × (u32 (shape.heads * shape.sectors) ≡ u32 (chs.sectors * chs.heads))

same_product :
    (test : Bool) (surfaces blkpt n : ℕ)
    → (test && (ltb 0 surfaces && (ltb 0 blkpt && u32 (surfaces * blkpt) == u32 n))) ≡ true
    → (0 < blkpt) × (0 < surfaces) × (u32 (surfaces * blkpt) ≡ u32 n)
same_product true surfaces blkpt n h = ground arith
same_product false surfaces blkpt n h = absurd (cc h)

override_shape-SameCylinder :
    (chs : Chs) (pbuf : ℕ → ℕ)
    → 0 < chs.sectors
    → 0 < chs.heads
    → SameCylinder chs (override_shape chs pbuf)
unfolding override_shape
override_shape-SameCylinder chs pbuf s h =
    if_ind (SameCylinder chs) _ _ chs
      (λ e.
        let same =
          same_product (has_signature 0x50 0x41 0x52 0x54 pbuf) (long pbuf 140) (long pbuf 148)
            (chs.sectors * chs.heads) e in
        (refl, same.0, same.1, same.2))
      (λ e. (refl, s, h, omega arith))

-- No CHS values, or those of a rigid disk block: its cylinders, and a shape with the same product.
abbrev pub Declared : Geometry → (ℕ → ℕ) → Type 0
Declared unit buf =
    IsRdb unit.total_blocks buf
    × (unit.rdb_phys_cyls ≡ long buf 0x40)
    × (0 < unit.rdb_phys_sectors)
    × (0 < unit.rdb_phys_heads)
    × (u32 (unit.rdb_phys_heads * unit.rdb_phys_sectors) ≡ u32 (long buf 0x44 * long buf 0x48))

abbrev pub NoChs : Geometry → Type 0
NoChs unit =
    (unit.rdb_geometry_valid ≡ false)
    × (unit.rdb_phys_cyls ≡ 0)
    × (unit.rdb_phys_sectors ≡ 0)
    × (unit.rdb_phys_heads ≡ 0)

-- for the answer to the read of block 0
abbrev pub ChsOk : Answer → Geometry → Type 0
ChsOk block unit =
    NoChs unit
    ⊎ ((unit.rdb_geometry_valid ≡ true) × (good block ≡ true) × Declared unit block.buffer)

module _ {ℓ} {W : Type ℓ} (t : Transport W) where
  follow_partition-SameCylinder :
      (unit : Geometry) (chs : Chs) (part_block : ℕ) (world : W)
      → 0 < chs.sectors
      → 0 < chs.heads
      → SameCylinder chs (follow_partition t unit chs part_block world).0
  unfolding follow_partition
  follow_partition-SameCylinder unit chs part_block world s h =
      let kept : SameCylinder chs chs = (refl, s, h, omega arith) in
      let alloc = t.alloc_vec world (size_of unit) in
      let read = t.do_io alloc.1 (make_read10_cdb part_block 1) (size_of unit) false in
      let P = λ (r : Chs × W). SameCylinder chs r.0 in
      let shape = if good read.0 then override_shape chs read.0.buffer else chs in
      if_ind P
        (not (part_block == 0xFFFFFFFF) && (ltb 0 part_block && ltb part_block unit.total_blocks))
        (if alloc.0 then (shape, read.1) else (chs, alloc.1)) (chs, world)
        (λ e.
          if_ind P alloc.0 (shape, read.1) (chs, alloc.1)
            (λ f.
              if_ind (SameCylinder chs) (good read.0) (override_shape chs read.0.buffer) chs
                (λ g. override_shape-SameCylinder chs read.0.buffer s h) (λ g. kept))
            (λ f. kept))
        (λ e. kept)

  use_rdb-ChsOk :
      (unit : Geometry) (block : Answer) (world : W)
      → good block ≡ true
      → NoChs unit
      → ChsOk block
          (use_rdb t unit block.buffer (parse_rdb unit.total_blocks block.buffer) world).unit
  unfolding use_rdb
  use_rdb-ChsOk unit block world fine empty =
      elim (parse_rdb-cases unit.total_blocks block.buffer) [
        | inl n ↦
            subst (λ c. ChsOk block (use_rdb t unit block.buffer c world).unit) (sym n) (inl empty)
        | inr ok ↦
            let rdb = ok.0 in
            let same =
              follow_partition-SameCylinder unit (header_chs block.buffer) (long block.buffer 0x1C)
                world rdb.5 rdb.6 in
            subst (λ c. ChsOk block (use_rdb t unit block.buffer c world).unit) (sym ok.1)
              (inr (refl, fine, (ok.0, same.0, same.1, same.2, same.3)))
      ]

  checked_ind :
      (P : Geometry → Type 0) (a : Answer) (unit : Geometry) (world : W) (next : Outcome W)
      → P unit
      → P next.unit
      → P (checked a unit world next).unit
  unfolding checked
  checked_ind P a unit world next h n =
      if_ind (λ (o : Outcome W). P o.unit) (is_error a.rc) _ _ (λ e. h)
        (λ e.
          if_ind (λ (o : Outcome W). P o.unit) (not (a.scsi_status == 0)) _ next (λ f. h) (λ f. n))

  ensure_geometry_cached-NoChs :
      (unit : Geometry) (world : W) → NoChs unit → NoChs (ensure_geometry_cached t unit world).unit
  unfolding ensure_geometry_cached read_capacity read_capacity16
  ensure_geometry_cached-NoChs unit world h =
      let next = (t.do_io world cap10_cdb 8 false).1 in
      let P = λ (o : Outcome W). NoChs o.unit in
      if_ind P unit.geometry_valid _ (read_capacity t unit world) (λ e. h)
        (λ e. checked_ind NoChs (t.do_io world cap10_cdb 8 false).0 unit next _ h (
          if_ind P (long (t.do_io world cap10_cdb 8 false).0.buffer 0 == 0xFFFFFFFF)
            (read_capacity16 t unit next) _
            (λ f.
              checked_ind NoChs (t.do_io next make_read_capacity16_cdb 32 false).0 unit
                (t.do_io next make_read_capacity16_cdb 32 false).1 _ h h)
            (λ f. h)))

  -- what the device answers to the read of block 0
  abbrev pub block0 : Geometry → W → Answer
  block0 unit world =
      (t.do_io (t.alloc_vec world (size_of unit)).1 (make_read10_cdb 0 1) (size_of unit) false).0

  probe_rdb-ChsOk :
      (unit : Geometry) (world : W)
      → NoChs unit
      → ChsOk (block0 unit world) (probe_rdb t unit world).unit
  unfolding probe_rdb
  probe_rdb-ChsOk unit world h =
      let P = λ (o : Outcome W). ChsOk (block0 unit world) o.unit in
      let alloc = t.alloc_vec world (size_of unit) in
      let read = t.do_io alloc.1 (make_read10_cdb 0 1) (size_of unit) false in
      let parsed = parse_rdb unit.total_blocks read.0.buffer in
      let used = use_rdb t unit read.0.buffer parsed read.1 in
      let unread : Outcome W = record { rc = no_error; unit = unit; world = read.1 } in
      let unmapped : Outcome W = record { rc = no_error; unit = unit; world = alloc.1 } in
      if_ind P alloc.0 (if good read.0 then used else unread) unmapped
        (λ e.
          if_ind P (good read.0) used unread (λ f. use_rdb-ChsOk unit read.0 read.1 f h)
            (λ f. inl h))
        (λ e. inl h)

  -- the unit and the world at the read of block 0: the capacity is asked for when it is not known
  abbrev pub at_block0 : Geometry → W → Geometry × W
  at_block0 unit world =
      let o = ensure_geometry_cached t (reset_rdb unit) world in
      if unit.geometry_valid then (reset_rdb unit, world) else (o.unit, o.world)

  by_known :
      (b : Bool) (start : Geometry) (o : Outcome W) (world : W)
      → NoChs start
      → NoChs o.unit
      → let at : Geometry × W = if b then (start, world) else (o.unit, o.world) in
        let last =
          if b
          then probe_rdb t start world
          else if is_error o.rc
          then o
          else probe_rdb t o.unit o.world in
        ChsOk (block0 at.0 at.1) last.unit
  by_known true start o world h k = probe_rdb-ChsOk start world h
  by_known false start o world h k =
      if_ind (λ (p : Outcome W). ChsOk (block0 o.unit o.world) p.unit) (is_error o.rc) o _
        (λ f. inl k) (λ f. probe_rdb-ChsOk o.unit o.world k)

  -- ensure_rdb_geometry_cached leaves either no CHS values and a unit without a valid RDB geometry, or
  -- those of the block that the device gave when block 0 was read, without an error: it is a rigid disk
  -- block of at most `total_blocks` blocks, with its signature and checksum; the cylinders are its own,
  -- and heads and sectors are not 0 and have the product that it declares, in 32 bits.
  pub ensure_rdb_geometry_cached-ChsOk :
      (unit : Geometry) (world : W)
      → let (known, later) = at_block0 unit world in
        ChsOk (block0 known later) (ensure_rdb_geometry_cached t unit world).unit
  unfolding ensure_rdb_geometry_cached
  ensure_rdb_geometry_cached-ChsOk unit world =
      let empty : NoChs (reset_rdb unit) = (refl, refl, refl, refl) in
      let o = ensure_geometry_cached t (reset_rdb unit) world in
      by_known unit.geometry_valid (reset_rdb unit) o world empty
        (ensure_geometry_cached-NoChs (reset_rdb unit) world empty)
