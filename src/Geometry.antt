-- ===== src/Geometry.antt =====
-- The geometry of a unit: `ensure_geometry_cached` and `ensure_rdb_geometry_cached` of
-- src/scsi_cdb_helpers.c. Freeing a buffer has no counterpart.
pub mod Capacity
pub mod Cached
pub mod Rdb
pub mod Shape
pub mod Commands
pub mod Cylinders
pub mod Replies
use virtual_scsidevice.Base.{
  ℕ, zero, suc, ◌+◌, ◌*◌, ◌==◌, ltb, leb, Bool, true, false, ◌&&◌, ◌||◌, not, if◌then◌else◌, Option,
  none, some, List, [], ◌∷◌,
}
use virtual_scsidevice.Word.{u32, u64, be64}
use virtual_scsidevice.Errors.{IoError, no_error, hferr_bad_status, is_error}
use virtual_scsidevice.Cdb.{make_read_capacity16_cdb, make_read10_cdb}
use virtual_scsidevice.Transport.{Transport, Answer, byte, long}

-- The geometry fields of `struct VirtIOUSCSIDevUnit`.
pub record Geometry : Type 0 where
  pub geometry_valid : Bool
  pub block_size : ℕ
  pub total_blocks : ℕ
  pub rdb_geometry_valid : Bool
  pub rdb_phys_cyls : ℕ
  pub rdb_phys_sectors : ℕ
  pub rdb_phys_heads : ℕ

-- what a function returns, the unit, and the system
pub record Outcome {ℓ} (W : Type ℓ) : Type ℓ where
  pub rc : IoError
  pub unit : Geometry
  pub world : W

-- `rc != 0`, then `scsi_status != 0`, else the code that follows
unfoldable pub checked {ℓ} : {W : Type ℓ} → Answer → Geometry → W → Outcome W → Outcome W
checked a unit world next =
    if is_error a.rc
    then record { rc = a.rc; unit = unit; world = world }
    else if not (a.scsi_status == 0)
    then record { rc = hferr_bad_status; unit = unit; world = world }
    else next

-- the geometry that an answer to READ CAPACITY (10) or (16) gives
abbrev pub from_capacity10 : Geometry → (ℕ → ℕ) → Geometry
from_capacity10 unit cap10 = record unit {
  block_size = long cap10 4;
  total_blocks = long cap10 0 + 1;
  geometry_valid = true;
}

abbrev pub from_capacity16 : Geometry → (ℕ → ℕ) → Geometry
from_capacity16 unit cap16 = record unit {
  block_size = long cap16 8;
  total_blocks = u64 (be64 (long cap16 0) (long cap16 4) + 1);
  geometry_valid = true;
}

abbrev pub cap10_cdb : List ℕ
cap10_cdb = 0x25 ∷ 0 ∷ 0 ∷ 0 ∷ 0 ∷ 0 ∷ 0 ∷ 0 ∷ 0 ∷ 0 ∷ []

unfoldable pub read_capacity16 {ℓ} : {W : Type ℓ} → Transport W → Geometry → W → Outcome W
unfolding checked
read_capacity16 t unit world =
    let (a, next) = t.do_io world make_read_capacity16_cdb 32 false in
    checked a unit next
      (record { rc = no_error; unit = from_capacity16 unit a.buffer; world = next })

unfoldable pub read_capacity {ℓ} : {W : Type ℓ} → Transport W → Geometry → W → Outcome W
unfolding checked read_capacity16
read_capacity t unit world =
    let (a, next) = t.do_io world cap10_cdb 8 false in
    let big = read_capacity16 t unit next in
    checked a unit next (
      if long a.buffer 0 == 0xFFFFFFFF
      then big
      else record { rc = no_error; unit = from_capacity10 unit a.buffer; world = next })

-- ensure_geometry_cached, for a unit that is not NULL
unfoldable pub ensure_geometry_cached {ℓ} : {W : Type ℓ} → Transport W → Geometry → W → Outcome W
unfolding read_capacity
ensure_geometry_cached t unit world =
    if unit.geometry_valid
    then record { rc = no_error; unit = unit; world = world }
    else read_capacity t unit world

-- The first `n` words of a block, added in 32 bits.
unfoldable pub sum_longs : ℕ → (ℕ → ℕ) → ℕ
sum_longs zero buf = 0
sum_longs (suc n) buf = u32 (sum_longs n buf + long buf (n * 4))

pub record Chs : Type 0 where
  pub cyls : ℕ
  pub sectors : ℕ
  pub heads : ℕ

-- the four bytes at the start of a block
abbrev pub has_signature : ℕ → ℕ → ℕ → ℕ → (ℕ → ℕ) → Bool
has_signature a b c d buf =
    (byte buf 0 == a && byte buf 1 == b) && (byte buf 2 == c && byte buf 3 == d)

-- `(uint64)cyls * sectors * heads`
abbrev pub chs_product : Chs → ℕ
chs_product chs = u64 (u64 (chs.cyls * chs.sectors) * chs.heads)

abbrev pub header_chs : (ℕ → ℕ) → Chs
header_chs buf = record { cyls = long buf 0x40; sectors = long buf 0x44; heads = long buf 0x48 }

-- the checks on block 0 up to the CHS values, with the sum: `none` where the function returns
unfoldable pub accept_rdb : ℕ → (ℕ → ℕ) → ℕ → Option Chs
accept_rdb total_blocks buf cksum =
    let summed_longs = long buf 0x04 in
    let chs = header_chs buf in
    if not (has_signature 0x52 0x44 0x53 0x4B buf)
    then none
    else if summed_longs == 0 || ltb 128 summed_longs
    then none
    else if not (cksum == 0)
    then none
    else if (chs.cyls == 0 || chs.sectors == 0)
        || (chs.heads == 0 || ltb total_blocks (chs_product chs))
    then none
    else some chs

unfoldable pub parse_rdb : ℕ → (ℕ → ℕ) → Option Chs
unfolding sum_longs accept_rdb
parse_rdb total_blocks buf = accept_rdb total_blocks buf (sum_longs (long buf 0x04) buf)

-- The PartitionBlock's shape in place of the header's, when both have the same product.
unfoldable pub override_shape : Chs → (ℕ → ℕ) → Chs
override_shape chs pbuf =
    let surfaces = long pbuf (128 + 12) in
    let blkpt = long pbuf (128 + 20) in
    if has_signature 0x50 0x41 0x52 0x54 pbuf
      && (ltb 0 surfaces
          && (ltb 0 blkpt && u32 (surfaces * blkpt) == u32 (chs.sectors * chs.heads)))
    then record chs { heads = surfaces; sectors = blkpt }
    else chs

-- an answer with `rc == 0` and status 0
abbrev pub good : Answer → Bool
good a = not (is_error a.rc) && a.scsi_status == 0

-- `bs`, the size of the block buffers
abbrev pub size_of : Geometry → ℕ
size_of unit = if unit.block_size == 0 then 512 else unit.block_size

-- the first PartitionBlock, when the header names one
unfoldable pub follow_partition {ℓ} : {W : Type ℓ} → Transport W → Geometry → Chs → ℕ → W → Chs × W
unfolding override_shape
follow_partition t unit chs part_block world =
    let bs = size_of unit in
    let (ok, after_alloc) = t.alloc_vec world bs in
    let (a, after_read) = t.do_io after_alloc (make_read10_cdb part_block 1) bs false in
    if not (part_block == 0xFFFFFFFF) && (ltb 0 part_block && ltb part_block unit.total_blocks)
    then if ok
      then (if good a then override_shape chs a.buffer else chs, after_read)
      else (chs, after_alloc)
    else (chs, world)

abbrev pub reset_rdb : Geometry → Geometry
reset_rdb unit = record unit {
  rdb_geometry_valid = false;
  rdb_phys_cyls = 0;
  rdb_phys_sectors = 0;
  rdb_phys_heads = 0;
}

abbrev pub with_chs : Geometry → Chs → Geometry
with_chs unit chs = record unit {
  rdb_phys_cyls = chs.cyls;
  rdb_phys_sectors = chs.sectors;
  rdb_phys_heads = chs.heads;
  rdb_geometry_valid = true;
}

-- what follows the read of block 0
unfoldable pub use_rdb {ℓ} :
    {W : Type ℓ} → Transport W → Geometry → (ℕ → ℕ) → Option Chs → W → Outcome W
unfolding follow_partition
use_rdb t unit buf none world = record { rc = no_error; unit = unit; world = world }
use_rdb t unit buf (some chs) world =
    let (shape, last) = follow_partition t unit chs (long buf 0x1C) world in
    record { rc = no_error; unit = with_chs unit shape; world = last }

-- the part with a known block size
unfoldable pub probe_rdb {ℓ} : {W : Type ℓ} → Transport W → Geometry → W → Outcome W
unfolding parse_rdb use_rdb
probe_rdb t unit world =
    let bs = size_of unit in
    let (ok, after_alloc) = t.alloc_vec world bs in
    let (a, after_read) = t.do_io after_alloc (make_read10_cdb 0 1) bs false in
    if ok
    then if good a
      then use_rdb t unit a.buffer (parse_rdb unit.total_blocks a.buffer) after_read
      else record { rc = no_error; unit = unit; world = after_read }
    else record { rc = no_error; unit = unit; world = after_alloc }

-- ensure_rdb_geometry_cached, for a unit that is not NULL
unfoldable pub ensure_rdb_geometry_cached {ℓ} :
    {W : Type ℓ} → Transport W → Geometry → W → Outcome W
unfolding ensure_geometry_cached probe_rdb
ensure_rdb_geometry_cached t unit world =
    let start = reset_rdb unit in
    let o = ensure_geometry_cached t start world in
    if start.geometry_valid
    then probe_rdb t start world
    else if is_error o.rc
    then o
    else probe_rdb t o.unit o.world
