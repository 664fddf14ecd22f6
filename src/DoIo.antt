-- ===== src/DoIo.antt =====
-- VirtIOSCSI_DoIO of src/virtio/virtio_scsi_io.c: a command that is sent and waited for, with up to
-- three tries.
pub mod Dma
pub mod Attempt
pub mod Tries
pub mod Whole
pub mod Balance
pub mod Paid
pub mod Returned
pub mod Answers
pub mod Wait
pub mod Handover
