-- ===== src/Scsi/Fits.antt =====
-- HD_SCSICMD as a whole stays within the caller's buffers (src/scsi_cmds).
use virtual_scsidevice.Base.{
  ℕ, ◌≤◌, ◌<◌, ◌≡◌, inl, inr, refl, ltb, leb, ◌==◌, ◌&&◌, ◌||◌, Bool, true, false, not,
  if◌then◌else◌, if_ind, ==_iff, ◌%◌, Option, none, some, List, length, length-take, take, bit_and,
  arith,
}
use virtual_scsidevice.Errors.{hferr_bad_status, ioerr_badlength}
use virtual_scsidevice.Request.{IoRequest}
use virtual_scsidevice.Transport.{Transport, Clamped, byte}
use virtual_scsidevice.Scsi.Cmd.{
  ScsiCmd, bytes_from, passed, pass_through, test_unit_ready, read_capacity10, cmd_success,
}
use virtual_scsidevice.Scsi.Inquiry.{Names, bad_status, inquiry}
use virtual_scsidevice.Scsi.Smart.{
  left_as_is, log_page, copy_page, allocation, log_sense, ata_cmd, smart_block, ata_passthrough,
}
use virtual_scsidevice.Scsi.Parse.{unsupported, by_opcode, run_command, parse_scsi_command}
use virtual_scsidevice.Scsi.Bounds.{
  InBounds, within, left_as_is-InBounds, bad_status-InBounds, unsupported-InBounds, vpd-InBounds,
}

length-smart_block : length smart_block ≡ 512
unfolding smart_block
length-smart_block = refl

long_enough : (addr len : ℕ) → (addr == 0 || ltb len 512) ≡ false → 512 ≤ len
long_enough addr len h = ground arith

module _ {ℓ} {W : Type ℓ} (req : IoRequest) (cmd : ScsiCmd) (world : W) where
  copy_page-InBounds :
      (page : Option (List ℕ)) (n : ℕ)
      → n ≤ cmd.scsi_length
      → InBounds cmd (copy_page page n req cmd world)
  unfolding copy_page
  copy_page-InBounds none n h = (omega arith, omega arith, inr refl)
  copy_page-InBounds (some page) n h =
      let short : length (take n page) ≤ cmd.scsi_length = omega (arith, length-take n page) in
      if_ind (InBounds cmd) (cmd.scsi_status == 0) _ (left_as_is req cmd world)
        (λ e. (short, omega arith, inl short)) (λ e. left_as_is-InBounds req cmd world req)

  log_sense-InBounds :
      (cdb : ℕ → ℕ) → allocation cdb ≤ cmd.scsi_length → InBounds cmd (log_sense cdb req cmd world)
  unfolding log_sense
  log_sense-InBounds cdb h =
      if_ind (InBounds cmd) (cmd.scsi_data == 0 || allocation cdb == 0)
        (left_as_is (cmd_success req) (record cmd { scsi_actual = 0 }) world) _
        (λ e. (omega arith, omega arith, inl (omega arith)))
        (λ e. copy_page-InBounds (log_page (byte cdb 2 % 64)) (allocation cdb) h)

  ata_passthrough-InBounds : (cdb : ℕ → ℕ) → InBounds cmd (ata_passthrough cdb req cmd world)
  unfolding ata_passthrough
  ata_passthrough-InBounds cdb =
      let refused =
        left_as_is (record req { io_error = hferr_bad_status })
          (record cmd { scsi_status = 2; scsi_actual = 0 }) world in
      let kept : InBounds cmd refused = (omega arith, omega arith, inl (omega arith)) in
      if_ind (InBounds cmd) (not (ata_cmd cdb == 0xB0)) refused _ (λ e. kept)
        (λ e.
          if_ind (InBounds cmd) (cmd.scsi_data == 0 || ltb cmd.scsi_length 512) refused _
            (λ f. kept)
            (λ f.
              let room = long_enough cmd.scsi_data cmd.scsi_length f in
              (omega (arith, room, length-smart_block), omega arith, inl room)))

module _ {ℓ} {W : Type ℓ} (t : Transport W) (clamped : Clamped t) where
  module _ (req : IoRequest) (cmd : ScsiCmd) (world : W)
      (small : cmd.scsi_length < 4294967296) where
    pass_through-InBounds :
        (is_write : Bool) (cdb : ℕ → ℕ) → InBounds cmd (pass_through t is_write cdb req cmd world)
    unfolding pass_through passed
    pass_through-InBounds is_write cdb =
        let a = (t.do_io world (bytes_from cmd.scsi_cmd_length 0 cdb) cmd.scsi_length is_write).0 in
        (
          omega arith,
          omega arith,
          inl (
              within cmd.scsi_length a.residual
                (clamped world (bytes_from cmd.scsi_cmd_length 0 cdb) cmd.scsi_length is_write)
                small),
        )

    inquiry-InBounds :
        (names : Names) (cdb : ℕ → ℕ) → InBounds cmd (inquiry t names cdb req cmd world)
    unfolding inquiry
    inquiry-InBounds names cdb =
        if_ind (InBounds cmd) (ltb cmd.scsi_length 5) (bad_status req cmd world) _
          (λ e. bad_status-InBounds req cmd world)
          (λ e.
            if_ind (InBounds cmd)
              (not (leb 2 cmd.scsi_cmd_length && not (bit_and (byte cdb 1) 0x01 == 0)))
              (pass_through t false cdb req cmd world) _ (λ f. pass_through-InBounds false cdb)
              (λ f.
                vpd-InBounds req cmd world names
                  (if leb 3 cmd.scsi_cmd_length then byte cdb 2 else 0)))

    -- the rest of the `switch`
    late :
        (names : Names) (cdb : ℕ → ℕ)
        → (byte cdb 0 ≡ 0x4D → allocation cdb ≤ cmd.scsi_length)
        → InBounds cmd (
            if byte cdb 0 == 0x4D
            then log_sense cdb req cmd world
            else if byte cdb 0 == 0x85 || byte cdb 0 == 0xA1
            then ata_passthrough cdb req cmd world
            else unsupported req cmd world)
    late names cdb fits =
        if_ind (InBounds cmd) (byte cdb 0 == 0x4D) (log_sense cdb req cmd world) _
          (λ e. log_sense-InBounds req cmd world cdb (fits ((==_iff (byte cdb 0) 0x4D).0 e)))
          (λ e.
            if_ind (InBounds cmd) (byte cdb 0 == 0x85 || byte cdb 0 == 0xA1)
              (ata_passthrough cdb req cmd world) (unsupported req cmd world)
              (λ f. ata_passthrough-InBounds req cmd world cdb)
              (λ f. unsupported-InBounds req cmd world))

    by_opcode-InBounds :
        (names : Names) (cdb : ℕ → ℕ)
        → (byte cdb 0 ≡ 0x4D → allocation cdb ≤ cmd.scsi_length)
        → InBounds cmd (by_opcode t names (byte cdb 0) cdb req cmd world)
    unfolding by_opcode test_unit_ready read_capacity10 passed
    by_opcode-InBounds names cdb fits =
        let P = InBounds {W = W} cmd in
        let op = byte cdb 0 in
        if_ind P (op == 0x00) (test_unit_ready t cdb req cmd world) _
          (λ e. (omega arith, omega arith, inl (omega arith)))
          (λ e.
            if_ind P (op == 0x12) (inquiry t names cdb req cmd world) _
              (λ f. inquiry-InBounds names cdb)
              (λ f.
                if_ind P (op == 0x25) (read_capacity10 t cdb req cmd world) _
                  (λ g.
                    if_ind P (ltb cmd.scsi_length 8) _ (pass_through t false cdb req cmd world)
                      (λ k. (omega arith, omega arith, inr refl))
                      (λ k. pass_through-InBounds false cdb))
                  (λ g.
                    if_ind P (op == 0x28) (pass_through t false cdb req cmd world) _
                      (λ k. pass_through-InBounds false cdb)
                      (λ k.
                        if_ind P (op == 0x2A) (pass_through t true cdb req cmd world) _
                          (λ l. pass_through-InBounds true cdb) (λ l. late names cdb fits)))))

  module _ (req : IoRequest) (cmd : ScsiCmd) (world : W)
      (small : cmd.scsi_length < 4294967296) where
    run_command-InBounds :
        (names : Names) (command : Option (ℕ → ℕ))
        → ((cdb : ℕ → ℕ)
            → command ≡ some cdb
            → byte cdb 0 ≡ 0x4D
            → allocation cdb ≤ cmd.scsi_length)
        → InBounds cmd (run_command t names command req cmd world)
    unfolding run_command
    run_command-InBounds names none fits = left_as_is-InBounds req cmd world req
    run_command-InBounds names (some cdb) fits =
        if_ind (InBounds cmd) (cmd.scsi_cmd_length == 0)
          (left_as_is (record req { io_error = hferr_bad_status }) cmd world) _
          (λ e. left_as_is-InBounds req cmd world req)
          (λ e.
            by_opcode-InBounds req
              (record cmd {
                scsi_status = 0;
                scsi_cmd_actual = cmd.scsi_cmd_length;
                scsi_sense_actual = 0;
              })
              world small names cdb (fits cdb refl))

    -- HD_SCSICMD, over a transport whose residual is at most the buffer's length, for a data buffer
    -- of less than 2^32 bytes: the driver writes no more than `scsi_Length` bytes of data and
    -- `scsi_SenseLength` bytes of sense, and `scsi_Actual` is unchanged or at most `scsi_Length`. For
    -- LOG SENSE the allocation length in the CDB must not exceed `scsi_Length`.
    pub parse_scsi_command-InBounds :
        (names : Names) (size : ℕ)
        → ((cdb : ℕ → ℕ)
            → cmd.scsi_command ≡ some cdb
            → byte cdb 0 ≡ 0x4D
            → allocation cdb ≤ cmd.scsi_length)
        → InBounds cmd (parse_scsi_command t names size req cmd world)
    unfolding parse_scsi_command
    parse_scsi_command-InBounds names size fits =
        if_ind (InBounds cmd) (req.io_data == 0 || ltb req.io_length size)
          (left_as_is (record req { io_error = ioerr_badlength }) cmd world) _
          (λ e. left_as_is-InBounds req cmd world req)
          (λ e. run_command-InBounds names cmd.scsi_command fits)
