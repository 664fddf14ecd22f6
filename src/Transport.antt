-- ===== src/Transport.antt =====
-- What the commands that do not go through the pipeline use of the system: `VirtIOSCSI_DoIO`
-- (include/virtio/virtio_scsi_io.h), for the unit of the request, and AllocVecTags. `W` is the state
-- of everything behind them.
use virtual_scsidevice.Base.{ℕ, ◌+◌, ◌≤◌, Bool, List}
use virtual_scsidevice.Word.{u8, be32}
use virtual_scsidevice.Errors.{IoError}

-- What a call stores and returns. `buffer` is the caller's buffer after the call, byte by byte from its
-- address: what lies behind the buffer is read at the offsets from its length on.
pub record Answer : Type 0 where
  pub rc : IoError
  pub scsi_status : ℕ
  pub residual : ℕ
  pub buffer : ℕ → ℕ

-- `do_io world cdb data_len is_write` and `alloc_vec world size`
pub record Transport {ℓ} (W : Type ℓ) : Type ℓ where
  pub do_io : W → List ℕ → ℕ → Bool → Answer × W
  pub alloc_vec : W → ℕ → Bool × W

-- The residual is clamped to the length of the buffer.
abbrev pub Clamped {ℓ} : {W : Type ℓ} → Transport W → Type ℓ
Clamped t =
    (w : _) (cdb : List ℕ) (data_len : ℕ) (is_write : Bool)
    → (t.do_io w cdb data_len is_write).0.residual ≤ data_len

-- a byte, and a big-endian 32-bit word of a buffer
abbrev pub byte : (ℕ → ℕ) → ℕ → ℕ
byte buf i = u8 (buf i)

abbrev pub long : (ℕ → ℕ) → ℕ → ℕ
long buf i = be32 (byte buf i) (byte buf (i + 1)) (byte buf (i + 2)) (byte buf (i + 3))
