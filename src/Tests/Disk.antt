-- ===== src/Tests/Disk.antt =====
-- A disk of 6,000,000,000 blocks of 512 bytes behind the geometry commands, with a rigid disk block.
use virtual_scsidevice.Base.{
  ℕ, ◌+◌, ◌<◌, ◌≤◌, ◌≡◌, ◌≢◌, ◌⊎◌, ◌↔◌, refl, true, false, ◌==◌, ltb, if◌then◌else◌, if_ind, some,
  List, [], ◌∷◌, ◌++◌, get_or, replicate, arith,
}
use virtual_scsidevice.Errors.{no_error, is_error}
use virtual_scsidevice.Cdb.{make_read_capacity16_cdb}
use virtual_scsidevice.Transport.{Transport}
use virtual_scsidevice.Geometry.{
  Geometry, Chs, ensure_geometry_cached, ensure_rdb_geometry_cached, parse_rdb, header_chs,
  accept_rdb, sum_longs,
}
use virtual_scsidevice.Geometry.Capacity.{HasCapacity}
use virtual_scsidevice.Geometry.Cached.{ensure_geometry_cached-Settled}
use virtual_scsidevice.Geometry.Rdb.{IsRdb, parse_rdb_iff}
use virtual_scsidevice.Geometry.Shape.{ChsOk, block0, at_block0, ensure_rdb_geometry_cached-ChsOk}
use virtual_scsidevice.Geometry.Commands.{split_cylinders, handle_td_get_geometry}
use virtual_scsidevice.Geometry.Replies.{
  Answered, Sees, handle_td_get_geometry-Answered, handle_td_get_geometry-HasCapacity,
}
use virtual_scsidevice.Tests.Requests.{read_request}

abbrev block_count : ℕ
block_count = 6000000000

abbrev capacity10 : List ℕ
capacity10 = 255 ∷ 255 ∷ 255 ∷ 255 ∷ 0 ∷ 0 ∷ 2 ∷ 0 ∷ []

abbrev capacity16 : List ℕ
capacity16 = 0 ∷ 0 ∷ 0 ∷ 1 ∷ 0x65 ∷ 0xA0 ∷ 0xBB ∷ 0xFF ∷ 0 ∷ 0 ∷ 2 ∷ 0 ∷ []

-- "RDSK", a length of 3 words, the checksum, and 100 cylinders of 4 sectors and 2 heads
abbrev rdb_bytes : List ℕ
rdb_bytes =
    0x52 ∷ 0x44 ∷ 0x53 ∷ 0x4B ∷ 0 ∷ 0 ∷ 0 ∷ 3 ∷ 0xAD ∷ 0xBB ∷ 0xAC ∷ 0xB2 ∷ replicate 16 0
    ++ (255 ∷ 255 ∷ 255 ∷ 255 ∷ replicate 32 0)
    ++ (0 ∷ 0 ∷ 0 ∷ 100 ∷ 0 ∷ 0 ∷ 0 ∷ 4 ∷ 0 ∷ 0 ∷ 0 ∷ 2 ∷ [])

abbrev bytes_of : ℕ → List ℕ
bytes_of opcode =
    if opcode == 0x25 then capacity10 else if opcode == 0x9E then capacity16 else rdb_bytes

-- The world counts the calls.
abbrev pub disk : Transport ℕ
disk = record {
  do_io = λ calls cdb data_len is_write. (
    record {
      rc = no_error;
      scsi_status = 0;
      residual = 0;
      buffer = λ i. get_or (bytes_of (get_or cdb 0 0)) i 0;
    },
    calls + 1,
  );
  alloc_vec = λ calls size. (true, calls);
}

unfoldable disk-HasCapacity : HasCapacity disk block_count 512
unfolding make_read_capacity16_cdb
disk-HasCapacity w = ((refl, refl, refl), (refl, refl, refl))

abbrev fresh : Geometry
fresh = record {
  geometry_valid = false;
  block_size = 0;
  total_blocks = 0;
  rdb_geometry_valid = false;
  rdb_phys_cyls = 0;
  rdb_phys_sectors = 0;
  rdb_phys_heads = 0;
}

abbrev known : Geometry
known = record fresh { geometry_valid = true; block_size = 512; total_blocks = block_count }

abbrev rdb : ℕ → ℕ
rdb i = get_or rdb_bytes i 0

accepted : parse_rdb block_count rdb ≡ some (record { cyls = 100; sectors = 4; heads = 2 })
unfolding parse_rdb accept_rdb sum_longs
accepted = refl

handle_td_get_geometry-HasCapacity_example :
    Sees block_count 512 (handle_td_get_geometry disk 32 (some fresh) (read_request 9) 0)
handle_td_get_geometry-HasCapacity_example =
    handle_td_get_geometry-HasCapacity disk 32 fresh (read_request 9) 0 block_count 512
      disk-HasCapacity refl (omega arith) (omega arith) (omega arith)

ensure_geometry_cached-Settled_example :
    ((is_error (ensure_geometry_cached disk fresh 0).rc ≡ true)
      × ((ensure_geometry_cached disk fresh 0).unit ≡ fresh))
    ⊎ ((((ensure_geometry_cached disk fresh 0).rc ≡ no_error)
          × ((ensure_geometry_cached disk fresh 0).unit.geometry_valid ≡ true))
        × (ensure_geometry_cached disk (ensure_geometry_cached disk fresh 0).unit 5 ≡ record {
          rc = no_error;
          unit = (ensure_geometry_cached disk fresh 0).unit;
          world = 5;
        }))
ensure_geometry_cached-Settled_example = ensure_geometry_cached-Settled disk fresh 0 5

parse_rdb_iff_example :
    (parse_rdb block_count rdb ≡ some (record { cyls = 100; sectors = 4; heads = 2 })) ↔ (
      IsRdb block_count rdb
      × (Path Chs (record { cyls = 100; sectors = 4; heads = 2 }) (header_chs rdb)))
parse_rdb_iff_example =
    parse_rdb_iff block_count rdb (record { cyls = 100; sectors = 4; heads = 2 })

-- the same block with other memory behind it
abbrev rdb_then : ℕ → ℕ
rdb_then i = if ltb i 512 then rdb i else 7

beyond : (i : ℕ) → i < 512 → ltb i 512 ≢ false
beyond i h e = ground arith

rdb_agrees : (i : ℕ) → i < 512 → rdb i ≡ rdb_then i
rdb_agrees i h =
    if_ind (λ b. rdb i ≡ b) (ltb i 512) (rdb i) 7 (λ e. refl) (λ e. absurd (beyond i h e))

ensure_rdb_geometry_cached-ChsOk_example :
    let (capacity, later) = at_block0 disk known 0 in
    ChsOk (block0 disk capacity later) (ensure_rdb_geometry_cached disk known 0).unit
ensure_rdb_geometry_cached-ChsOk_example = ensure_rdb_geometry_cached-ChsOk disk known 0

quotient : (split_cylinders 8 block_count 1).0 ≤ 0xFFFFFFFF
unfolding split_cylinders
quotient = omega arith

handle_td_get_geometry-Answered_example :
    Answered 32 512 (handle_td_get_geometry disk 32 (some known) (read_request 9) 0)
handle_td_get_geometry-Answered_example =
    handle_td_get_geometry-Answered disk 32 (some known) (read_request 9) 0
      (λ e. absurd (omega (arith, e)))
