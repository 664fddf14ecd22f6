-- ===== src/Flow/Avail.antt =====
-- The delivery of a cookie, in VirtIOSCSI_Harvest of src/virtio/virtio_scsi_io.c, leaves the ring alone.
use virtual_scsidevice.Base.{ℕ, ◌≡◌, refl, Option, none, some, List, get_or}
use virtual_scsidevice.Request.{IoRequest}
use virtual_scsidevice.Pipeline.{PipeUnit, Effect, slot_at}
use virtual_scsidevice.Pipeline.Complete.{complete_held, complete_inflight_slot, complete_request}
use virtual_scsidevice.Pipeline.Harvest.{
  Driver, Target, to_slot, to_doio, unmatched, stash, complete_at, deliver, route,
}
use virtual_scsidevice.Flow.Wake.{at_target}

-- a delivery changes the counters, and the ring in no way
abbrev pub SameRing : Driver → Driver × List Effect → Type 0
SameRing driver out = out.0.shared.vq ≡ driver.shared.vq

complete_held-SameRing :
    (held : Option IoRequest) (driver : Driver) (unit : PipeUnit) (slot : ℕ)
    → (complete_held held driver.shared unit slot).0.vq ≡ driver.shared.vq
unfolding complete_held complete_request
complete_held-SameRing none driver unit slot = refl
complete_held-SameRing (some held) driver unit slot = refl

complete_at-SameRing :
    (driver : Driver) (u slot : ℕ) (o : Option PipeUnit)
    → get_or driver.units u none ≡ o
    → SameRing driver (complete_at driver u slot)
unfolding complete_at complete_inflight_slot
complete_at-SameRing driver u slot none e = rw (e, complete_at) refl
complete_at-SameRing driver u slot (some unit) e =
    rw (e, complete_at) (complete_held-SameRing (slot_at unit slot).ioreq driver unit slot)

stash-SameRing :
    (driver : Driver) (u cookie written : ℕ) (o : Option PipeUnit)
    → get_or driver.units u none ≡ o
    → SameRing driver (stash driver u cookie written)
stash-SameRing driver u cookie written none e = rw (e, stash) refl
stash-SameRing driver u cookie written (some owner) e = rw (e, stash) refl

at_target-SameRing :
    (driver : Driver) (cookie written : ℕ) (target : Target)
    → SameRing driver (at_target driver cookie written target)
at_target-SameRing driver cookie written (to_slot u slot) =
    complete_at-SameRing driver u slot _ refl
at_target-SameRing driver cookie written (to_doio u) = stash-SameRing driver u cookie written _ refl
at_target-SameRing driver cookie written unmatched = refl

pub deliver-SameRing :
    (driver : Driver) (cookie written : ℕ) → SameRing driver (deliver driver cookie written)
unfolding deliver
deliver-SameRing driver cookie written =
    at_target-SameRing driver cookie written (route driver cookie)
