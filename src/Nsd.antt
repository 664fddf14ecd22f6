-- ===== src/Nsd.antt =====
-- The NSD commands of src/ns_cmds: Parse_NS_Command (ns_parse.c) and Handle_NS_TD_IO64 (ns_td_io64.c),
-- for a unit that is not NULL. BeginIO calls Parse_NS_Command for NSCMD_DEVICEQUERY only; the unit
-- task routes the other commands itself.
use virtual_scsidevice.Base.{
  ℕ, ◌+◌, ◌-◌, ◌*◌, ◌/◌, ◌==◌, Bool, true, false, ◌||◌, if◌then◌else◌, some, bit_or,
}
use virtual_scsidevice.Word.{u32}
use virtual_scsidevice.Cdb.{io_block_size, transfer_blocks, make_block_cdb}
use virtual_scsidevice.Errors.{IoError, no_error, is_error, ioerr_nocmd, ioerr_badaddress}
use virtual_scsidevice.Request.{
  IoRequest, Command, nscmd_devicequery, nscmd_td_read64, nscmd_td_write64, nscmd_td_seek64,
  nscmd_td_format64, nscmd_td_getgeometry64, nscmd_td_changeunit, nscmd_td_addstatcallback,
  nscmd_td_remstatcallback, nscmd_etd_read64, nscmd_etd_write64, nscmd_etd_seek64,
  nscmd_etd_format64,
}
use virtual_scsidevice.Transport.{Transport}
use virtual_scsidevice.Geometry.{Geometry}
use virtual_scsidevice.Geometry.Commands.{handle_ns_td_get_geometry64}
use virtual_scsidevice.Scsi.Cmd.{cmd_success}
use virtual_scsidevice.BeginIo.{device_query}

-- the groups of `case` labels of Parse_NS_Command
pub data NsGroup : Type 0 where
  ns_query ns_nothing ns_geometry64 ns_io64 ns_unknown : NsGroup

unfoldable pub ns_group : Command → NsGroup
ns_group nscmd_devicequery = ns_query
ns_group nscmd_td_seek64 = ns_nothing
ns_group nscmd_etd_seek64 = ns_nothing
ns_group nscmd_td_changeunit = ns_nothing
ns_group nscmd_td_addstatcallback = ns_nothing
ns_group nscmd_td_remstatcallback = ns_nothing
ns_group nscmd_td_getgeometry64 = ns_geometry64
ns_group nscmd_td_format64 = ns_io64
ns_group nscmd_td_read64 = ns_io64
ns_group nscmd_td_write64 = ns_io64
ns_group nscmd_etd_format64 = ns_io64
ns_group nscmd_etd_read64 = ns_io64
ns_group nscmd_etd_write64 = ns_io64
ns_group _ = ns_unknown

-- `io_Command != NSCMD_TD_READ64`
unfoldable pub ns_is_write : Command → Bool
ns_is_write nscmd_td_read64 = false
ns_is_write _ = true

-- unpack_io64_offset
unfoldable pub unpack_io64_offset : ℕ → ℕ → ℕ
unpack_io64_offset io_actual io_offset = bit_or (io_actual * 4294967296) io_offset

-- the request after DoIO
abbrev pub io64_done : IoError → ℕ → IoRequest → IoRequest
io64_done rc residual req =
    if is_error rc
    then record req { io_error = rc; io_actual = 0 }
    else record req { io_error = no_error; io_actual = u32 (req.io_length + 4294967296 - residual) }

unfoldable pub handle_ns_td_io64 {ℓ} :
    {W : Type ℓ} → Transport W → Geometry → IoRequest → W → IoRequest × W
unfolding unpack_io64_offset make_block_cdb ns_is_write
handle_ns_td_io64 t unit req world =
    let offset64 = unpack_io64_offset req.io_actual req.io_offset in
    let blksz = io_block_size unit.geometry_valid unit.block_size in
    let is_write = ns_is_write req.io_command in
    let cdb = make_block_cdb is_write (offset64 / blksz) (transfer_blocks req.io_length blksz) in
    let (a, next) = t.do_io world cdb req.io_length is_write in
    if req.io_data == 0 || req.io_length == 0
    then (record req { io_error = ioerr_badaddress }, world)
    else (io64_done a.rc a.residual req, next)

-- the request and the system after a group's body; `size` is sizeof(struct DriveGeometry64)
unfoldable pub run_ns {ℓ} :
    {W : Type ℓ} → Transport W → ℕ → NsGroup → Geometry → IoRequest → W → IoRequest × W
unfolding handle_ns_td_io64 handle_ns_td_get_geometry64 device_query
run_ns t size ns_query unit req world = ((device_query req).0, world)
run_ns t size ns_nothing unit req world = (cmd_success req, world)
run_ns t size ns_geometry64 unit req world =
    let h = handle_ns_td_get_geometry64 t size (some unit) req world in (h.request, h.world)
run_ns t size ns_io64 unit req world = handle_ns_td_io64 t unit req world
run_ns t size ns_unknown unit req world = (record req { io_error = ioerr_nocmd }, world)

unfoldable pub parse_ns_command {ℓ} :
    {W : Type ℓ} → Transport W → ℕ → Geometry → IoRequest → W → IoRequest × W
unfolding run_ns ns_group
parse_ns_command t size unit req world = run_ns t size (ns_group req.io_command) unit req world
