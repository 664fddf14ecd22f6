-- ===== src/DoIo/Tries.antt =====
-- The retry loop of VirtIOSCSI_DoIO (src/virtio/virtio_scsi_io.c) and what it makes of a response.
use virtual_scsidevice.Base.{
  ℕ, zero, suc, ◌==◌, ltb, Bool, ◌&&◌, not, if◌then◌else◌, get_or, bit_and,
}
use virtual_scsidevice.Word.{vr32}
use virtual_scsidevice.Errors.{
  IoError, no_error, tderr_not_specified, ioerr_selftest, map_scsi_error,
}
use virtual_scsidevice.Pipeline.{RespCmd}
use virtual_scsidevice.DoIo.Attempt.{
  Params, Buffers, System, State, Outcome, refused, timed_out, answered, attempt,
}

-- `*scsi_status_out` and `*residual_out`. A caller that passes NULL does not read them.
pub record Outs : Type 0 where
  pub scsi_status : ℕ
  pub residual : ℕ

unfoldable pub set_outs : Bool → ℕ → RespCmd → Outs → Outs
set_outs modern data_len resp outs =
    let residual = vr32 modern resp.residual in
    if not (resp.response == 0) then record outs { scsi_status = 0 } else record {
      scsi_status = resp.status;
      residual = if ltb data_len residual then data_len else residual;
    }

-- the result of a response that is not tried again
unfoldable pub judge : RespCmd → IoError
unfolding map_scsi_error
judge resp =
    if not (resp.response == 0)
    then tderr_not_specified
    else if resp.status == 2
    then map_scsi_error resp.response resp.status (bit_and (get_or resp.sense 2 0) 0x0F)
    else if resp.status == 0
    then no_error
    else map_scsi_error resp.response resp.status 0xFF

-- `response == VIRTIO_SCSI_S_OK` and CHECK CONDITION
abbrev pub check_condition : RespCmd → Bool
check_condition resp = resp.response == 0 && resp.status == 2

-- what DoIO has when the loop ends
pub record Ended {ℓ} (W : Type ℓ) : Type ℓ where
  pub result : IoError
  pub outs : Outs
  pub state : State W

-- The end of a round, with `again` for the rounds that are left: they are used after a CHECK
-- CONDITION only.
unfoldable pub conclude {ℓ} :
    {W : Type ℓ} → Params → ℕ → Outs → Outcome → State W → (Outs → Ended W) → Ended W
unfolding set_outs judge
conclude p tries outs (refused e) next again = record { result = e; outs = outs; state = next }
conclude p tries outs timed_out next again = record {
  result = ioerr_selftest;
  outs = outs;
  state = next;
}
conclude p tries outs (answered resp) next again =
    let seen = set_outs next.shared.vq.modern p.data_len resp outs in
    if check_condition resp && ltb 0 tries
    then again seen
    else record { result = judge resp; outs = seen; state = next }

unfoldable pub run_tries {ℓ} :
    {W : Type ℓ} → System W → Params → Buffers → ℕ → Outs → State W → Ended W
unfolding attempt conclude
run_tries sys p b zero outs s = record { result = tderr_not_specified; outs = outs; state = s }
run_tries sys p b (suc tries) outs s =
    let (outcome, next) = attempt sys p b s in
    conclude p tries outs outcome next (λ seen. run_tries sys p b tries seen next)
