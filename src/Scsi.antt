-- ===== src/Scsi.antt =====
-- HD_SCSICMD: the SCSI commands that a caller sends by itself (src/scsi_cmds).
pub mod Cmd
pub mod Inquiry
pub mod Smart
pub mod Parse
pub mod Bounds
pub mod Fits
