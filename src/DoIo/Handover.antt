-- ===== src/DoIo/Handover.antt =====
-- A completion of a DoIO call that another task takes from the ring reaches its owner
-- (src/virtio/virtio_scsi_io.c: the stash of VirtIOSCSI_Harvest and the pending-cookie check of
-- VirtIOSCSI_DoIO).
use virtual_scsidevice.Base.{
  ℕ, zero, suc, ◌<◌, ◌≡◌, refl, ap, ◌∙◌, ==_iff, true, if◌then◌else◌, Option, none, some, List, [],
  ◌∷◌, length, get_or, get_or-set_self, arith,
}
use virtual_scsidevice.Pipeline.{PipeUnit, signal_doio}
use virtual_scsidevice.Pipeline.Harvest.{
  Driver, to_slot, to_doio, unmatched, route, deliver, complete_at, stash, put_unit,
}
use virtual_scsidevice.DoIo.Wait.{Waited, or_rest, pick_up, cleared_pending, wait_own}

index_inside :
    (units : List (Option PipeUnit)) (u : ℕ) (owner : PipeUnit)
    → get_or units u none ≡ some owner
    → u < length units
index_inside [] u owner h = absurd (cc h)
index_inside (x ∷ units) zero owner h = omega arith
index_inside (x ∷ units) (suc u) owner h = omega (arith, index_inside units u owner h)

abbrev stashed : PipeUnit → ℕ → ℕ → PipeUnit
stashed owner cookie written = record owner {
  doio_pending_cookie = cookie;
  doio_pending_written = written;
}

or_rest-some : (o rest : Option Waited) (w : Waited) → o ≡ some w → or_rest o rest ≡ some w
or_rest-some none rest w e = absurd (cc e)
or_rest-some (some v) rest w e = e

module _ (driver : Driver) (u cookie written : ℕ) (owner : PipeUnit)
    (there : get_or driver.units u none ≡ some owner) where
  stash_eq : stash driver u cookie written ≡ (
    put_unit driver u (stashed owner cookie written),
    if owner.io_wait_task then signal_doio u ∷ [] else [],
  )
  stash_eq =
      ap
        (λ (o : Option PipeUnit). elim o [
          | none ↦ (driver, [])
          | some owner ↦ (
            put_unit driver u (stashed owner cookie written),
            if owner.io_wait_task then signal_doio u ∷ [] else [],
          )
        ])
        there

  handed : Waited
  handed = record {
    found = some written;
    driver =
        put_unit (put_unit driver u (stashed owner cookie written)) u
          (cleared_pending (stashed owner cookie written));
    effects = [];
  }

  pick_up-stashed :
      let here = put_unit driver u (stashed owner cookie written) in
      pick_up (get_or here.units u none) here u cookie ≡ some handed
  unfolding handed
  pick_up-stashed =
      let here = put_unit driver u (stashed owner cookie written) in
      ap (λ o. pick_up o here u cookie)
        (get_or-set_self driver.units u (some (stashed owner cookie written)) none
          (index_inside driver.units u owner there))
      ∙ rw ((==_iff cookie cookie).1 refl) refl

  waiting_stashed :
      (retries fuel : ℕ) (wake : ℕ → Driver → Driver)
      → wait_own (suc retries) fuel u cookie wake (put_unit driver u (stashed owner cookie written))
        ≡ some handed
  unfolding wait_own
  waiting_stashed retries fuel wake = or_rest-some _ _ handed pick_up-stashed

  deliver-stash :
      route driver cookie ≡ to_doio u
      → deliver driver cookie written ≡ stash driver u cookie written
  unfolding deliver
  deliver-stash routed =
      ap
        (λ target. elim target [
          | to_slot v slot ↦ complete_at driver v slot
          | to_doio v ↦ stash driver v cookie written
          | unmatched ↦ (driver, [])
        ])
        routed

  -- A completion that Harvest takes from the ring for the DoIO call of another unit, whose task
  -- waits: that task is signalled, and its next round returns the length that the device wrote,
  -- without another look at the ring.
  pub deliver-wait_own :
      route driver cookie ≡ to_doio u
      → owner.io_wait_task ≡ true
      → (retries fuel : ℕ) (wake : ℕ → Driver → Driver)
      → ((deliver driver cookie written).1 ≡ signal_doio u ∷ [])
        × ((last : Waited) × (wait_own
                (suc retries)
                fuel
                u
                cookie
                wake
                (deliver driver cookie written).0
              ≡ some last)
            × (last.found ≡ some written)
            × (last.effects ≡ []))
  unfolding handed
  deliver-wait_own routed waits retries fuel wake =
      let e = deliver-stash routed ∙ stash_eq in
      (
        ap (λ r. r.1) e ∙ rw waits refl,
        (
          handed,
          ap (λ r. wait_own (suc retries) fuel u cookie wake r.0) e
              ∙ waiting_stashed retries fuel wake,
          refl,
          refl,
        ),
      )
