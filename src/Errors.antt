-- ===== src/Errors.antt =====
-- The io_Error codes that the driver returns, named as in the AmigaOS headers (their numbers are
-- the SDK's), and `map_scsi_error` of src/virtio/virtio_scsi_io.c.
pub mod Mapping
use virtual_scsidevice.Base.{ℕ, ◌%◌, ◌==◌, if◌then◌else◌, not, Bool, true, false}

-- `no_error` is 0.
pub data IoError : Type 0 where
  no_error : IoError
  ioerr_openfail ioerr_aborted ioerr_nocmd ioerr_badlength ioerr_badaddress : IoError
  ioerr_selftest : IoError
  tderr_not_specified tderr_no_mem tderr_bad_drive_type tderr_bad_sec_hdr : IoError
  tderr_disk_changed tderr_write_prot : IoError
  hferr_bad_status hferr_dma : IoError

pub IoError-discrete : Discrete IoError
IoError-discrete = hlevel

-- `rc != 0`
abbrev pub is_error : IoError → Bool
is_error no_error = false
is_error _ = true

-- VIRTIO_SCSI_S_OK
abbrev pub virtio_s_ok : ℕ
virtio_s_ok = 0

-- the `switch` on the sense key
unfoldable pub sense_error : ℕ → IoError
sense_error k =
    if k == 0
    then no_error
    else if k == 1
    then no_error
    else if k == 2
    then tderr_bad_drive_type
    else if k == 3
    then tderr_bad_sec_hdr
    else if k == 4
    then tderr_bad_drive_type
    else if k == 5
    then ioerr_nocmd
    else if k == 6
    then tderr_disk_changed
    else if k == 7
    then tderr_write_prot
    else if k == 11
    then tderr_not_specified
    else hferr_bad_status

unfoldable pub map_scsi_error : ℕ → ℕ → ℕ → IoError
unfolding sense_error
map_scsi_error virtio_resp scsi_status sense_key =
    if not (virtio_resp == virtio_s_ok)
    then tderr_not_specified
    else if scsi_status == 0
    then no_error
    else if not (scsi_status == 2)
    then hferr_bad_status
    else sense_error (sense_key % 16)
