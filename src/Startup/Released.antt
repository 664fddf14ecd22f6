-- ===== src/Startup/Released.antt =====
-- What the driver takes when it is loaded (src/Init.c, src/virtio/virtio_init.c) it gives back when that
-- fails, or when it is removed (src/Expunge.c).

use virtual_scsidevice.Base.{
  ℕ, ◌+◌, ◌≡◌, refl, Bool, false, ◌==◌, ◌&&◌, not, if_ind, Option, none, some, List, [], ◌∷◌, ◌++◌,
  arith,
}
use virtual_scsidevice.Startup.{
  Event, acquire, release, cleanup_queues, InitAnswers, init_virtio_scsi, Loaded, InitResult,
  manager_init, release_all, event_if, int_server, scan_units, scan_events, free_units, expansion,
  ipci, utility,
}
use virtual_scsidevice.Discovery.{Probe}
use virtual_scsidevice.Startup.Events.{acquired, released, AllReleased}
use virtual_scsidevice.Startup.Queues.{acquired-cleanup_queues, init_virtio_scsi-SetUp}
use virtual_scsidevice.Startup.Framed.{
  framed_failed, queues_failed-AllReleased, loaded-AllReleased, extras-freed,
}

-- What is left to release after Init.
abbrev pub leftover : Option Loaded → List Event
leftover none = []
leftover (some base) = release_all base

scan_units-nothing :
    (has_buffer : Bool) (probes : ℕ → ℕ → Probe)
    → has_buffer ≡ false
    → scan_units has_buffer probes ≡ []
unfolding scan_units
scan_units-nothing has_buffer probes e = rw e refl

-- Whatever fails while the driver is loaded, Init has released every piece that it acquired, as often;
-- and when it succeeds, Expunge does so: the libraries and interfaces, the device and its ranges, the
-- interrupt, the memory and mappings of the queues, and the units that DiscoverUnits registered.
pub manager_init-AllReleased :
    (a : InitAnswers) → let r = manager_init a in AllReleased (r.events ++ leftover r.base)
unfolding manager_init release_all
manager_init-AllReleased a =
    let q = init_virtio_scsi a in
    let irq = not (a.irq_number == 0) && a.int_added in
    let units = scan_units a.has_inquiry_buffer a.probes in
    let P = λ (r : InitResult). AllReleased (r.events ++ leftover r.base) in
    let setup : (p : ℕ)
        → acquired p q.events ≡ released p q.events + released p (cleanup_queues q.vqs) =
      λ p. omega (arith, init_virtio_scsi-SetUp a p) in
    let none_left = λ (p : ℕ). acquired-cleanup_queues p q.vqs in
    if_ind P (not a.has_expansion) _ _ (λ _ p. refl)
      (λ _.
        if_ind P (not a.has_ipci) _ _ (λ _ p. refl)
          (λ _.
            if_ind P (not a.has_device) _ _ (λ _ p. omega arith)
              (λ _.
                if_ind P (not a.has_utility) _ _
                  (λ _.
                    framed_failed a.has_bar0 a.has_bar4 [] (release ipci ∷ release expansion ∷ [])
                      (λ p. omega arith))
                  (λ _.
                    if_ind P (not a.has_iutility) _ _
                      (λ _.
                        framed_failed a.has_bar0 a.has_bar4 (acquire utility ∷ [])
                          (release utility ∷ release ipci ∷ release expansion ∷ [])
                          (λ p. omega arith))
                      (λ _.
                        if_ind P (not q.ok) _ _
                          (λ _.
                            queues_failed-AllReleased a.has_bar0 a.has_bar4 q.events
                              (cleanup_queues q.vqs) setup none_left)
                          (λ _.
                            loaded-AllReleased a.has_bar0 a.has_bar4
                              (event_if irq (acquire int_server)
                                ++ scan_events a.has_inquiry_buffer units)
                              (event_if irq (release int_server)) q.events (cleanup_queues q.vqs)
                              (free_units units)
                              (λ p.
                                extras-freed p irq a.has_inquiry_buffer units
                                  (scan_units-nothing a.has_inquiry_buffer a.probes))
                              setup none_left))))))
