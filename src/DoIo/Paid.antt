-- ===== src/DoIo/Paid.antt =====
-- The tries of VirtIOSCSI_DoIO (src/virtio/virtio_scsi_io.c) give back what they take.
use virtual_scsidevice.Base.{
  ℕ, zero, suc, ◌+◌, ◌≡◌, ◌⊎◌, inl, inr, refl, ◌==◌, ltb, Bool, true, false, ◌&&◌, not, if_ind,
  Option, none, some, List, [], ◌++◌, length, arith,
}
use virtual_scsidevice.Errors.{tderr_not_specified, hferr_dma, ioerr_selftest}
use virtual_scsidevice.Virtqueue.{TableSetup, add_buf}
use virtual_scsidevice.Pipeline.{RespCmd, max_sg_entries}
use virtual_scsidevice.DoIo.Dma.{Call, DmaBuffer, no_buffer, cleanup_dma, prepare_dma}
use virtual_scsidevice.DoIo.Attempt.{
  Params, Buffers, System, State, Outcome, refused, timed_out, answered, build_chain, release,
  outcome_of, send_chain, attempt,
}
use virtual_scsidevice.DoIo.Tries.{Outs, Ended, check_condition, conclude, run_tries}
use virtual_scsidevice.DoIo.Balance.{
  Resource, takes, gives, total, Balanced, total-append, prepare_dma-Balanced, Balanced-failed,
}

-- `calls` has taken and given back as much as `base`, beyond what it gave back itself.
abbrev pub Net : List Call → List Call → Type 0
Net base calls =
    (r : Resource) (a : ℕ)
    → total (takes r a) calls + total (gives r a) base
      ≡ total (gives r a) calls + total (takes r a) base

pub Net-append : (base xs ys : List Call) → Net base xs → Balanced ys → Net base (xs ++ ys)
Net-append base xs ys h k r a =
    omega (arith, h r a, k r a, total-append (takes r a) xs ys, total-append (gives r a) xs ys)

Net-assoc :
    (base xs ys zs : List Call) → Net base xs → Balanced (ys ++ zs) → Net base ((xs ++ ys) ++ zs)
Net-assoc base xs ys zs h k r a = omega (
  arith,
  h r a,
  k r a,
  total-append (takes r a) xs ys,
  total-append (gives r a) xs ys,
  total-append (takes r a) ys zs,
  total-append (gives r a) ys zs,
  total-append (takes r a) (xs ++ ys) zs,
  total-append (gives r a) (xs ++ ys) zs,
)

-- A round leaves nothing open, except when a call with temporary buffers timed out.
abbrev pub Paid : List Call → Bool → Outcome → List Call → Type 0
Paid base temp timed_out calls = (temp ≡ true) ⊎ Net base calls
Paid base temp (refused e) calls = Net base calls
Paid base temp (answered resp) calls = Net base calls

release-Paid :
    (base calls : List Call) (resp : Option RespCmd) (temp : Bool) (db : DmaBuffer)
    → Net base (calls ++ cleanup_dma db)
    → Paid base temp (outcome_of resp) (calls ++ release resp temp db)
release-Paid base calls (some resp) temp db h = h
release-Paid base calls none true db h = inl refl
release-Paid base calls none false db h = inr h

module _ {ℓ} {W : Type ℓ} (sys : System W) (p : Params) (b : Buffers) (base : List Call) where
  abbrev PaidTry : Outcome × State W → Type 0
  PaidTry r = Paid base b.temp_alloc r.0 r.1.calls

  send_chain-Paid :
      (db : DmaBuffer) (table : TableSetup) (s : State W)
      → Net base (s.calls ++ cleanup_dma db)
      → PaidTry (send_chain sys p b db table s)
  unfolding send_chain
  send_chain-Paid db table s h =
      let out = (build_chain p b db).0 in
      let in_ = (build_chain p b db).1 in
      let added = add_buf table s.shared.vq (out ++ in_) (length out) (length in_) b.req_cmd in
      if_ind PaidTry (ltb max_sg_entries (length out + length in_))
        (refused hferr_dma, record s { calls = s.calls ++ cleanup_dma db }) _ (λ e. h)
        (λ e.
          if_ind PaidTry (not added.0)
            (refused tderr_not_specified, record s { calls = s.calls ++ cleanup_dma db }) _ (λ f. h)
            (λ f. release-Paid base s.calls _ b.temp_alloc db h))

  attempt-Paid : (s : State W) → Net base s.calls → PaidTry (attempt sys p b s)
  unfolding attempt cleanup_dma
  attempt-Paid s h =
      let answer = sys.map_data s.world p.buf p.data_len p.is_write in
      let m =
        prepare_dma answer.0.0 p.buf p.data_len
          (record { read_from_ram = p.is_write; no_modify = false }) in
      if_ind PaidTry (not (p.buf == 0) && ltb 0 p.data_len) _ _
        (λ e.
          if_ind PaidTry m.ok _ _
            (λ f. send_chain-Paid m.db answer.0.1 _ (
              Net-assoc base s.calls m.calls (cleanup_dma m.db) h
                (prepare_dma-Balanced answer.0.0 p.buf p.data_len _)))
            (λ f.
              Net-append base s.calls m.calls h (Balanced-failed answer.0.0 p.buf p.data_len _ f)))
        (λ e. send_chain-Paid no_buffer answer.0.1 _ (Net-append base s.calls [] h (λ r a. refl)))

  -- the same, for the result of the loop
  abbrev pub PaidEnd : Ended W → Type 0
  PaidEnd ended =
      ((ended.result ≡ ioerr_selftest) × (b.temp_alloc ≡ true)) ⊎ Net base ended.state.calls

  conclude-Paid :
      (tries : ℕ) (outs : Outs) (outcome : Outcome) (next : State W) (again : Outs → Ended W)
      → Paid base b.temp_alloc outcome next.calls
      → ((seen : Outs) → Net base next.calls → PaidEnd (again seen))
      → PaidEnd (conclude p tries outs outcome next again)
  unfolding conclude
  conclude-Paid tries outs (refused e) next again h k = inr h
  conclude-Paid tries outs timed_out next again (inl t) k = inl (refl, t)
  conclude-Paid tries outs timed_out next again (inr h) k = inr h
  conclude-Paid tries outs (answered resp) next again h k =
      if_ind PaidEnd (check_condition resp && ltb 0 tries) (again _) _ (λ e. k _ h) (λ e. inr h)

  pub run_tries-Paid :
      (tries : ℕ) (outs : Outs) (s : State W)
      → Net base s.calls
      → PaidEnd (run_tries sys p b tries outs s)
  unfolding run_tries
  run_tries-Paid zero outs s h = inr h
  run_tries-Paid (suc tries) outs s h =
      let try = attempt sys p b s in
      conclude-Paid tries outs try.0 try.1 (λ seen. run_tries sys p b tries seen try.1)
        (attempt-Paid s h) (λ seen n. run_tries-Paid tries seen try.1 n)
