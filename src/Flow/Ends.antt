-- ===== src/Flow/Ends.antt =====
-- VirtIOSCSI_Harvest of src/virtio/virtio_scsi_io.c comes to an end.
use virtual_scsidevice.Base.{
  ℕ, zero, suc, ◌+◌, ◌-◌, ◌%◌, ◌≤◌, ◌<◌, ◌≡◌, ◌≢◌, inl, inr, refl, sym, ap, subst, ◌==◌, if_ind,
  Option, some, List, [], ◌++◌, length, arith,
}
use virtual_scsidevice.Word.{vr16, u16}
use virtual_scsidevice.Virtqueue.{Virtqueue, get_buf}
use virtual_scsidevice.Virtqueue.Ends.{get_buf-Pops}
use virtual_scsidevice.Pipeline.{Effect}
use virtual_scsidevice.Pipeline.Harvest.{Driver, with_vq, deliver, coalesce, stored, harvest}
use virtual_scsidevice.Flow.Loop.{Harvested, and_rest, round, harvest-round}
use virtual_scsidevice.Flow.Avail.{deliver-SameRing}

-- the entries of the used ring that the driver has not read: the distance of two 16-bit counters
abbrev pub unread : Virtqueue → ℕ
unread vq = (vr16 vq.modern vq.used_idx + 65536 - vq.last_used_idx) % 65536

-- The table has the queue's size, and the counters have 16 bits.
pub record IsReadable (vq : Virtqueue) : Type 0 where
  pub size : length vq.desc ≤ vq.num
  pub last_small : vq.last_used_idx < 65536
  pub used_small : vr16 vq.modern vq.used_idx < 65536

abbrev pub Ends : Harvested → Type 0
Ends o = (last : Driver) × (es : List Effect) × (o ≡ some (last, es))

and_rest-Ends :
    (effects : List Effect) (rest : Harvested) → Ends rest → Ends (and_rest effects rest)
and_rest-Ends effects rest (last, es, e) = (last, effects ++ es, ap (and_rest effects) e)

less_unread :
    (used last last' : ℕ)
    → used < 65536
    → last < 65536
    → last ≢ used
    → last' ≡ u16 (last + 1)
    → suc ((used + 65536 - last') % 65536) ≡ (used + 65536 - last) % 65536
less_unread used last last' small below ne e = ground arith

round-Ends :
    (again : Driver → Harvested) (driver : Driver) (fuel : ℕ)
    → ((next : Driver)
        → IsReadable next.shared.vq
        → unread next.shared.vq < fuel
        → Ends (again next))
    → IsReadable driver.shared.vq
    → unread driver.shared.vq < suc fuel
    → Ends (round again driver (get_buf driver.shared.vq))
round-Ends again driver fuel ih ok enough =
    let vq = driver.shared.vq in
    let p = get_buf-Pops vq ok.size in
    let out = deliver (with_vq driver p.after) p.cookie (stored p.written) in
    let same : out.0.shared.vq ≡ p.after =
      deliver-SameRing (with_vq driver p.after) p.cookie (stored p.written) in
    let stop = coalesce (with_vq driver p.after) in
    subst (λ (o : Option (ℕ × Option ℕ × Virtqueue)). Ends (round again driver o)) (sym p.gives)
      (if_ind Ends (p.cookie == 0) (some (stop, [])) (and_rest out.1 (again out.0))
        (λ _. (stop, [], refl))
        (λ e. elim p.moves [
          | inl none_left ↦ absurd (ground (arith, e, none_left))
          | inr (ready, moved) ↦
              let fewer : suc (unread p.after) ≡ unread vq =
                subst (λ u. suc ((u + 65536 - p.after.last_used_idx) % 65536) ≡ unread vq)
                  (sym p.same_used)
                  (less_unread (vr16 vq.modern vq.used_idx) vq.last_used_idx p.after.last_used_idx
                    ok.used_small ok.last_small ready moved) in
              let readable : IsReadable p.after = record {
                size = omega (arith, p.size, p.same_num, ok.size);
                last_small = omega (arith, moved);
                used_small = omega (arith, p.same_used, ok.used_small);
              } in
              and_rest-Ends out.1 (again out.0) (
                ih out.0 (subst IsReadable (sym same) readable) (
                  subst (λ (v : Virtqueue). unread v < fuel) (sym same)
                    (omega (arith, fewer, enough))))
        ]))

-- Harvest ends, for any contents of the rings and of the descriptor table, when the fuel is more than the
-- number of entries of the used ring that the driver has not read, the ring's counters have 16 bits and
-- the table has no more descriptors than the queue's size: the device adds none while it runs.
pub harvest-Ends :
    (fuel : ℕ) (driver : Driver)
    → IsReadable driver.shared.vq
    → unread driver.shared.vq < fuel
    → Ends (harvest fuel driver)
unfolding harvest
harvest-Ends zero driver ok enough = absurd (omega (arith, enough))
harvest-Ends (suc fuel) driver ok enough =
    subst Ends (sym (harvest-round fuel driver))
      (round-Ends (harvest fuel) driver fuel (λ next. harvest-Ends fuel next) ok enough)
