-- ===== src/Geometry/Commands.antt =====
-- The commands that report the geometry: Handle_TD_GetGeometry, Handle_TD_GetNumTracks and
-- Handle_NS_TD_GetGeometry64 (src/exec_cmds/cmd_td_getgeometry.c, cmd_td_getnumtracks.c and
-- src/ns_cmds/ns_td_getgeometry64.c). The sizes of the SDK's structures are arguments. A unit that is
-- `none` is NULL, and a structure that is `none` says that the caller's buffer is left as it was.
use virtual_scsidevice.Base.{
  ℕ, zero, suc, ◌*◌, ◌/◌, ◌%◌, ◌==◌, ltb, ◌&&◌, if◌then◌else◌, Option, none, some,
}
use virtual_scsidevice.Word.{u32}
use virtual_scsidevice.Errors.{IoError, no_error, is_error, ioerr_badlength, hferr_bad_status}
use virtual_scsidevice.Request.{IoRequest}
use virtual_scsidevice.Transport.{Transport}
use virtual_scsidevice.Geometry.{Geometry, ensure_geometry_cached, ensure_rdb_geometry_cached}

-- struct DriveGeometry
pub record DriveGeometry : Type 0 where
  pub dg_sector_size : ℕ
  pub dg_total_sectors : ℕ
  pub dg_cylinders : ℕ
  pub dg_cyl_sectors : ℕ
  pub dg_heads : ℕ
  pub dg_track_sectors : ℕ
  pub dg_buf_mem_type : ℕ
  pub dg_device_type : ℕ
  pub dg_flags : ℕ
  pub dg_reserved : ℕ

abbrev pub zero_geometry : DriveGeometry
zero_geometry = record {
  dg_sector_size = 0;
  dg_total_sectors = 0;
  dg_cylinders = 0;
  dg_cyl_sectors = 0;
  dg_heads = 0;
  dg_track_sectors = 0;
  dg_buf_mem_type = 0;
  dg_device_type = 0;
  dg_flags = 0;
  dg_reserved = 0;
}

-- struct DriveGeometry64
pub record DriveGeometry64 : Type 0 where
  pub dg_sector_size : ℕ
  pub dg_reserved1 : ℕ
  pub dg_total_sectors : ℕ
  pub dg_buf_mem_tags : ℕ
  pub dg_device_type : ℕ
  pub dg_flags : ℕ
  pub dg_reserved2 : ℕ

abbrev pub zero_geometry64 : DriveGeometry64
zero_geometry64 = record {
  dg_sector_size = 0;
  dg_reserved1 = 0;
  dg_total_sectors = 0;
  dg_buf_mem_tags = 0;
  dg_device_type = 0;
  dg_flags = 0;
  dg_reserved2 = 0;
}

-- What a handler leaves: the request, the unit, the caller's structure and the system.
pub record Handled {ℓ} (W : Type ℓ) (Struct : Type 0) : Type ℓ where
  pub request : IoRequest
  pub unit : Option Geometry
  pub geom : Option Struct
  pub world : W

-- `(x > 0xFFFFFFFF) ? 0xFFFFFFFF : (uint32)x`
abbrev pub clamp32 : ℕ → ℕ
clamp32 n = if ltb 0xFFFFFFFF n then 0xFFFFFFFF else u32 n

-- The loop that takes factors of 2 from `t`, at most `n` times: `t` and `cyl_sectors`. From 1 the
-- bound 256 is met after 8 rounds.
unfoldable pub split_cylinders : ℕ → ℕ → ℕ → ℕ × ℕ
split_cylinders zero t cyl_sectors = (t, cyl_sectors)
split_cylinders (suc n) t cyl_sectors =
    let rest = split_cylinders n (t / 2) (cyl_sectors * 2) in
    if t % 2 == 0 && ltb cyl_sectors 256 then rest else (t, cyl_sectors)

-- MEMF_PUBLIC | MEMF_LOCAL
abbrev pub buf_mem_type : ℕ
buf_mem_type = 0x101

abbrev pub at_least_one : ℕ → ℕ
at_least_one n = if n == 0 then 1 else n

unfoldable pub drive_geometry : Geometry → DriveGeometry
unfolding split_cylinders
drive_geometry unit =
    let (t, cyl_sectors) = split_cylinders 8 unit.total_blocks 1 in
    record {
      dg_sector_size = unit.block_size;
      dg_total_sectors = clamp32 unit.total_blocks;
      dg_cylinders = at_least_one (clamp32 t);
      dg_cyl_sectors = cyl_sectors;
      dg_heads = cyl_sectors;
      dg_track_sectors = 1;
      dg_buf_mem_type = buf_mem_type;
      dg_device_type = 0;
      dg_flags = 0;
      dg_reserved = 0;
    }

unfoldable pub drive_geometry64 : Geometry → DriveGeometry64
drive_geometry64 unit = record {
  dg_sector_size = unit.block_size;
  dg_reserved1 = 0;
  dg_total_sectors = unit.total_blocks;
  dg_buf_mem_tags = 0;
  dg_device_type = 0;
  dg_flags = 0;
  dg_reserved2 = 0;
}

-- the structure that is zeroed, when `io_Data` is not NULL
abbrev pub zeroed : {Struct : Type 0} → IoRequest → Struct → Option Struct
zeroed req z = if req.io_data == 0 then none else some z

-- ensure_geometry_cached for a unit that may be NULL: its result, the unit and the system
unfoldable pub ensure_unit {ℓ} :
    {W : Type ℓ} → Transport W → Option Geometry → W → IoError × Option Geometry × W
unfolding ensure_geometry_cached
ensure_unit t none world = (no_error, none, world)
ensure_unit t (some unit) world =
    let o = ensure_geometry_cached t unit world in (o.rc, some o.unit, o.world)

-- The last part of Handle_TD_GetGeometry: `unit && unit->geometry_valid`.
unfoldable pub reply_geometry :
    ℕ → Option Geometry → IoRequest → Option DriveGeometry → IoRequest × Option DriveGeometry
unfolding drive_geometry
reply_geometry size none req geom = (record req { io_error = hferr_bad_status }, geom)
reply_geometry size (some unit) req geom =
    if unit.geometry_valid
    then (record req { io_error = no_error; io_actual = size }, some (drive_geometry unit))
    else (record req { io_error = hferr_bad_status }, geom)

unfoldable pub reply_geometry64 :
    ℕ → Option Geometry → IoRequest → Option DriveGeometry64 → IoRequest × Option DriveGeometry64
unfolding drive_geometry64
reply_geometry64 size none req geom =
    (record req { io_error = hferr_bad_status; io_actual = 0 }, geom)
reply_geometry64 size (some unit) req geom =
    if unit.geometry_valid
    then (record req { io_error = no_error; io_actual = size }, some (drive_geometry64 unit))
    else (record req { io_error = hferr_bad_status; io_actual = 0 }, geom)

-- The steps that both handlers share, around the reply.
unfoldable pub answer_geometry {ℓ} :
    {W : Type ℓ} {Struct : Type 0}
    → Transport W
    → ℕ
    → Struct
    → (ℕ → Option Geometry → IoRequest → Option Struct → IoRequest × Option Struct)
    → Option Geometry
    → IoRequest
    → W
    → Handled W Struct
unfolding ensure_unit
answer_geometry t size z reply unit req world =
    let (rc, after, next) = ensure_unit t unit world in
    let (replied, geom) = reply size after req (zeroed req z) in
    if ltb req.io_length size
    then record {
      request = record req { io_error = ioerr_badlength };
      unit = unit;
      geom = none;
      world = world;
    }
    else if is_error rc
    then record {
      request = record req { io_error = rc; io_actual = 0 };
      unit = after;
      geom = zeroed req z;
      world = next;
    }
    else record { request = replied; unit = after; geom = geom; world = next }

unfoldable pub handle_td_get_geometry {ℓ} :
    {W : Type ℓ} → Transport W → ℕ → Option Geometry → IoRequest → W → Handled W DriveGeometry
unfolding answer_geometry reply_geometry
handle_td_get_geometry t size unit req world =
    answer_geometry t size zero_geometry reply_geometry unit req world

unfoldable pub handle_ns_td_get_geometry64 {ℓ} :
    {W : Type ℓ} → Transport W → ℕ → Option Geometry → IoRequest → W → Handled W DriveGeometry64
unfolding answer_geometry reply_geometry64
handle_ns_td_get_geometry64 t size unit req world =
    answer_geometry t size zero_geometry64 reply_geometry64 unit req world

-- Handle_TD_GetNumTracks, in three steps: the capacity when it is not known, the RDB when the
-- capacity is known then, and the count.
abbrev pub capacity_first {ℓ} : {W : Type ℓ} → Transport W → Geometry → W → Geometry × W
capacity_first t unit world =
    let o = ensure_geometry_cached t unit world in
    if unit.geometry_valid then (unit, world) else (o.unit, o.world)

abbrev pub track_count : Geometry → ℕ
track_count unit =
    if unit.rdb_geometry_valid then unit.rdb_phys_cyls else at_least_one (clamp32 unit.total_blocks)

unfoldable pub num_tracks {ℓ} :
    {W : Type ℓ} → Transport W → Option Geometry → W → ℕ × Option Geometry × W
unfolding ensure_geometry_cached ensure_rdb_geometry_cached
num_tracks t none world = (32768, none, world)
num_tracks t (some unit) world =
    let (known, next) = capacity_first t unit world in
    let o = ensure_rdb_geometry_cached t known next in
    if known.geometry_valid
    then (track_count o.unit, some o.unit, o.world)
    else (32768, some known, next)

unfoldable pub handle_td_get_num_tracks {ℓ} :
    {W : Type ℓ} → Transport W → Option Geometry → IoRequest → W → IoRequest × Option Geometry × W
unfolding num_tracks
handle_td_get_num_tracks t unit req world =
    let (cylinders, after, next) = num_tracks t unit world in
    (record req { io_error = no_error; io_actual = cylinders }, after, next)
