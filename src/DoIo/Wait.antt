-- ===== src/DoIo/Wait.antt =====
-- The wait of VirtIOSCSI_DoIO in a unit task (src/virtio/virtio_scsi_io.c): it drains the ring, hands the
-- completions of others on, and sleeps until its own arrives, at most 50 times. What happens while the
-- task sleeps is the argument `wake`; the rest runs in one step, under the lock.
use virtual_scsidevice.Base.{
  ℕ, zero, suc, ◌==◌, if◌then◌else◌, Option, none, some, List, [], ◌++◌, get_or,
}
use virtual_scsidevice.Virtqueue.{Virtqueue, get_buf}
use virtual_scsidevice.Pipeline.{PipeUnit, Effect}
use virtual_scsidevice.Pipeline.Harvest.{Driver, deliver, put_unit, with_vq, stored}

-- Whether the own completion arrived, and what it wrote; the driver; and the calls made.
pub record Waited : Type 0 where
  pub found : Option ℕ
  pub driver : Driver
  pub effects : List Effect

abbrev pub after_effects : List Effect → Waited → Waited
after_effects effects w = record w { effects = effects ++ w.effects }

abbrev pub after_all : List Effect → Option Waited → Option Waited
after_all effects none = none
after_all effects (some w) = some (after_effects effects w)

abbrev pub cleared_pending : PipeUnit → PipeUnit
cleared_pending unit = record unit { doio_pending_cookie = 0; doio_pending_written = 0 }

-- the check of the pending-cookie slot
abbrev pub pick_up : Option PipeUnit → Driver → ℕ → ℕ → Option Waited
pick_up none driver u own = none
pick_up (some unit) driver u own =
    if unit.doio_pending_cookie == own
    then some record {
      found = some unit.doio_pending_written;
      driver = put_unit driver u (cleared_pending unit);
      effects = [];
    }
    else none

-- The inner loop over GetBuf, on fuel: `none` says that the fuel or a descriptor walk ran out.
unfoldable pub drain_ring : ℕ → ℕ → Driver → Option Waited
unfolding get_buf deliver
drain_ring zero own driver = none
drain_ring (suc fuel) own driver = elim (get_buf driver.shared.vq) [
  | none ↦ none
  | some (cookie, written, vq) ↦
      let here = with_vq driver vq in
      let (next, effects) = deliver here cookie (stored written) in
      let rest = drain_ring fuel own next in
      if cookie == 0
      then some record { found = none; driver = here; effects = [] }
      else if cookie == own
      then some record { found = some (stored written); driver = here; effects = [] }
      else after_all effects rest
]

-- the completion from the pending slot, or else the rest of the round
abbrev pub or_rest : Option Waited → Option Waited → Option Waited
or_rest none rest = rest
or_rest (some w) rest = some w

-- The outer loop, for the retries that are left.
unfoldable pub wait_own : ℕ → ℕ → ℕ → ℕ → (ℕ → Driver → Driver) → Driver → Option Waited
unfolding drain_ring
wait_own zero fuel u own wake driver = some record { found = none; driver = driver; effects = [] }
wait_own (suc retries) fuel u own wake driver =
    or_rest (pick_up (get_or driver.units u none) driver u own) (elim (drain_ring fuel own driver) [
      | none ↦ none
      | some w ↦ elim w.found [
        | some written ↦ some w
        | none ↦ after_all w.effects (wait_own retries fuel u own wake (wake retries w.driver))
      ]
    ])

-- The polling fallback, for the polls that are left: the first cookie that GetBuf returns, with its
-- length. `device` is what the device does between two polls.
unfoldable pub poll :
    ℕ → (ℕ → Virtqueue → Virtqueue) → Virtqueue → Option (Option (ℕ × ℕ) × Virtqueue)
unfolding get_buf
poll zero device vq = some (none, vq)
poll (suc polls) device vq = elim (get_buf (device polls vq)) [
  | none ↦ none
  | some (cookie, written, next) ↦
      let rest = poll polls device next in
      if cookie == 0 then rest else some (some (cookie, stored written), next)
]
