-- ===== src/Errors/Mapping.antt =====
-- When `map_scsi_error` reports success.
use virtual_scsidevice.Base.{ℕ, ◌%◌, ◌≤◌, ◌≡◌, ◌↔◌, ◌⊎◌, arith}
use virtual_scsidevice.Errors.{no_error, map_scsi_error}

-- The data of a completed command are good: the transport delivered the command and the target
-- answered GOOD, or CHECK CONDITION with NO SENSE or RECOVERED ERROR.
abbrev pub Good : ℕ → ℕ → ℕ → Type 0
Good virtio_resp scsi_status sense_key =
    (virtio_resp ≡ 0) × ((scsi_status ≡ 0) ⊎ (scsi_status ≡ 2) × (sense_key % 16 ≤ 1))

-- `map_scsi_error` returns 0 exactly when the command is good.
map_scsi_error_iff :
    (resp status key : ℕ) → (map_scsi_error resp status key ≡ no_error) ↔ Good resp status key
unfolding map_scsi_error
map_scsi_error_iff resp status key = (λ h. ground arith, λ h. ground arith)
