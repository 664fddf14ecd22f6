-- ===== src/Scsi/Bounds.antt =====
-- The handlers of src/scsi_cmds stay within the caller's buffers.
use virtual_scsidevice.Base.{
  ℕ, zero, suc, ◌+◌, ◌-◌, ◌≤◌, ◌<◌, ◌≡◌, ◌⊎◌, inl, inr, refl, ltb, leb, ◌==◌, ◌&&◌, ◌||◌, Bool,
  true, false, not, if_ind, List, length, arith,
}
use virtual_scsidevice.Word.{u32}
use virtual_scsidevice.Request.{IoRequest}
use virtual_scsidevice.Scsi.Cmd.{ScsiCmd, Executed, bytes_from}
use virtual_scsidevice.Scsi.Inquiry.{
  Names, sense_block, wants_sense, bad_status, vpd_illegal_page, vpd_page, page_00, page_80,
  page_83, vpd,
}
use virtual_scsidevice.Scsi.Smart.{left_as_is}
use virtual_scsidevice.Scsi.Parse.{unsupported}

-- What the driver writes fits into the two buffers, and `scsi_Actual` is either as it was or within
-- the data buffer.
abbrev pub InBounds {ℓ} : {W : Type ℓ} → ScsiCmd → Executed W → Type 0
InBounds cmd e =
    (length e.written ≤ cmd.scsi_length)
    × (length e.sense ≤ cmd.scsi_sense_length)
    × ((e.cmd.scsi_actual ≤ cmd.scsi_length) ⊎ (e.cmd.scsi_actual ≡ cmd.scsi_actual))

length-bytes_from : (n i : ℕ) (mem : ℕ → ℕ) → length (bytes_from n i mem) ≡ n
length-bytes_from zero i mem = refl
length-bytes_from (suc n) i mem = omega (arith, length-bytes_from n (i + 1) mem)

pub within :
    (len residual : ℕ) → residual ≤ len → len < 4294967296 → u32 (len + 4294967296 - residual) ≤ len
within len residual h k = omega arith

enough_sense : (b : Bool) (addr len : ℕ) → (b && (not (addr == 0) && leb 18 len)) ≡ true → 18 ≤ len
enough_sense true addr len h = ground arith
enough_sense false addr len h = absurd (cc h)

room_for : (len needed addr : ℕ) → (ltb len needed || addr == 0) ≡ false → needed ≤ len
room_for len needed addr h = ground arith

module _ {ℓ} {W : Type ℓ} (req : IoRequest) (cmd : ScsiCmd) (world : W) where
  pub left_as_is-InBounds : (r : IoRequest) → InBounds cmd (left_as_is r cmd world)
  left_as_is-InBounds r = (omega arith, omega arith, inr refl)

  pub bad_status-InBounds : InBounds cmd (bad_status req cmd world)
  bad_status-InBounds = (omega arith, omega arith, inl (omega arith))

  vpd_illegal_page-InBounds : InBounds cmd (vpd_illegal_page req cmd world)
  unfolding vpd_illegal_page sense_block
  vpd_illegal_page-InBounds =
      if_ind (InBounds cmd) (wants_sense cmd) _ (bad_status req cmd world)
        (λ e. (
          omega arith,
          enough_sense cmd.autosense cmd.scsi_sense_data cmd.scsi_sense_length e,
          inl (omega arith),
        ))
        (λ e. bad_status-InBounds)

  pub unsupported-InBounds : InBounds cmd (unsupported req cmd world)
  unfolding unsupported sense_block
  unsupported-InBounds =
      if_ind (InBounds cmd) (wants_sense cmd) _ _
        (λ e. (
          omega arith,
          enough_sense cmd.autosense cmd.scsi_sense_data cmd.scsi_sense_length e,
          inr refl,
        ))
        (λ e. (omega arith, omega arith, inr refl))

  vpd_page-InBounds :
      (needed : ℕ) (page : List ℕ)
      → length page ≡ needed
      → InBounds cmd (vpd_page needed page req cmd world)
  unfolding vpd_page
  vpd_page-InBounds needed page e =
      if_ind (InBounds cmd) (ltb cmd.scsi_length needed || cmd.scsi_data == 0)
        (bad_status req cmd world) _ (λ f. bad_status-InBounds)
        (λ f.
          let room = room_for cmd.scsi_length needed cmd.scsi_data f in
          (omega (arith, room, e), omega arith, inl room))

  pub vpd-InBounds : (names : Names) (pgcode : ℕ) → InBounds cmd (vpd names pgcode req cmd world)
  unfolding vpd page_00 page_80 page_83
  vpd-InBounds names pgcode =
      let serial = names.serial in
      let ident = names.ident in
      if_ind (InBounds cmd) (pgcode == 0x00) (vpd_page 7 page_00 req cmd world) _
        (λ e. vpd_page-InBounds 7 page_00 refl)
        (λ e.
          if_ind (InBounds cmd) (pgcode == 0x80)
            (vpd_page (4 + serial.len) (page_80 serial) req cmd world) _
            (λ f.
              vpd_page-InBounds (4 + serial.len) (page_80 serial)
                (omega (arith, length-bytes_from serial.len 0 serial.chars)))
            (λ f.
              if_ind (InBounds cmd) (pgcode == 0x83)
                (vpd_page (4 + (4 + ident.len)) (page_83 ident) req cmd world)
                (vpd_illegal_page req cmd world)
                (λ g.
                  vpd_page-InBounds (4 + (4 + ident.len)) (page_83 ident)
                    (omega (arith, length-bytes_from ident.len 0 ident.chars)))
                (λ g. vpd_illegal_page-InBounds)))
