-- ===== src/DoIo/Returned.antt =====
-- VirtIOSCSI_DoIO (src/virtio/virtio_scsi_io.c) as a whole gives back what it takes.
use virtual_scsidevice.Base.{
  ℕ, ◌+◌, ◌≡◌, ◌≢◌, ◌⊎◌, inl, inr, refl, ◌==◌, Bool, true, false, ◌||◌, not, if_ind, Option, none,
  some, List, [], ◌∷◌, ◌++◌, arith,
}
use virtual_scsidevice.Errors.{IoError, ioerr_selftest}
use virtual_scsidevice.Pipeline.{DmaFlags, no_flags, PipeUnit, Shared}
use virtual_scsidevice.DoIo.Dma.{Call, free_vec, cleanup_dma, Prepared, prepare_dma}
use virtual_scsidevice.DoIo.Attempt.{Params, Buffers, System}
use virtual_scsidevice.DoIo.Tries.{Outs, Ended, run_tries}
use virtual_scsidevice.DoIo.Whole.{
  TempSetup, req_size, resp_size, given, returned, is_selftest, end_temp, start_state, temp_buffers,
  do_io_temp, unit_buffers, end_unit, do_io,
}
use virtual_scsidevice.DoIo.Balance.{
  Resource, memory, mapping, entry_list, takes, gives, total, Balanced, total-append, both,
  prepare_dma-Balanced, Balanced-failed,
}
use virtual_scsidevice.DoIo.Paid.{Net, PaidEnd, run_tries-Paid}

-- the memory of the temporary buffers
vecs_returned :
    (req resp : ℕ) → Balanced ((given req ++ given resp) ++ (returned req ++ returned resp))
unfolding takes gives
vecs_returned req resp memory a = ground arith
vecs_returned req resp mapping a = ground arith
vecs_returned req resp entry_list a = ground arith

both_freed :
    (req resp : ℕ)
    → (req == 0 || resp == 0) ≡ false
    → Balanced ((given req ++ given resp) ++ (free_vec req ∷ free_vec resp ∷ []))
unfolding takes gives
both_freed req resp h memory a = ground arith
both_freed req resp h mapping a = ground arith
both_freed req resp h entry_list a = ground arith

total_around :
    (f : Call → ℕ) (a m e : List Call)
    → total f (a ++ (m ++ e)) ≡ total f a + (total f m + total f e)
total_around f a m e = omega (arith, total-append f a (m ++ e), total-append f m e)

around_Balanced : (a m e : List Call) → Balanced (a ++ e) → Balanced m → Balanced (a ++ (m ++ e))
around_Balanced a m e h k r i = omega (
  arith,
  h r i,
  k r i,
  total-append (takes r i) a e,
  total-append (gives r i) a e,
  total_around (takes r i) a m e,
  total_around (gives r i) a m e,
)

failed_Balanced :
    (a m n cm e : List Call)
    → Balanced (a ++ e)
    → Balanced (m ++ cm)
    → Balanced n
    → Balanced (a ++ (m ++ (n ++ (cm ++ e))))
failed_Balanced a m n cm e h hm hn r i = omega (
  arith,
  h r i,
  hm r i,
  hn r i,
  total-append (takes r i) a e,
  total-append (gives r i) a e,
  total-append (takes r i) m cm,
  total-append (gives r i) m cm,
  total_around (takes r i) a m (n ++ (cm ++ e)),
  total_around (gives r i) a m (n ++ (cm ++ e)),
  total_around (takes r i) n cm e,
  total_around (gives r i) n cm e,
)

false_of_negation : (b : Bool) → not b ≡ true → b ≡ false
false_of_negation true h = absurd (cc h)
false_of_negation false h = refl

after_Balanced :
    (a m n x cm cn e e' : List Call)
    → Balanced (a ++ e)
    → ((r : Resource) (i : ℕ)
        → (total (takes r i) e' ≡ total (takes r i) e)
          × (total (gives r i) e' ≡ total (gives r i) e))
    → Balanced (m ++ cm)
    → Balanced (n ++ cn)
    → Net (a ++ (m ++ n)) x
    → Balanced (x ++ (cn ++ (cm ++ e')))
after_Balanced a m n x cm cn e e' h swap hm hn net r i = omega (
  arith,
  h r i,
  (swap r i).0,
  (swap r i).1,
  hm r i,
  hn r i,
  net r i,
  total-append (takes r i) a e,
  total-append (gives r i) a e,
  total-append (takes r i) m cm,
  total-append (gives r i) m cm,
  total-append (takes r i) n cn,
  total-append (gives r i) n cn,
  total_around (takes r i) a m n,
  total_around (gives r i) a m n,
  total_around (takes r i) x cn (cm ++ e'),
  total_around (gives r i) x cn (cm ++ e'),
  total-append (takes r i) cm e',
  total-append (gives r i) cm e',
)

swapped :
    (req resp : ℕ) (r : Resource) (i : ℕ)
    → (total (takes r i) (free_vec resp ∷ free_vec req ∷ [])
        ≡ total (takes r i) (free_vec req ∷ free_vec resp ∷ []))
      × (total (gives r i) (free_vec resp ∷ free_vec req ∷ [])
          ≡ total (gives r i) (free_vec req ∷ free_vec resp ∷ []))
swapped req resp r i = (omega arith, omega arith)

not_selftest : (e : IoError) → e ≡ ioerr_selftest → is_selftest e ≢ false
not_selftest e t f = cc (t, f)

selftest_of : (e : IoError) → is_selftest e ≡ true → e ≡ ioerr_selftest
selftest_of ioerr_selftest h = refl
selftest_of e h = absurd (cc h)

module _ {ℓ} {W : Type ℓ} (sys : System W) (temp : TempSetup) (p : Params) (outs : Outs) where
  -- The call timed out without a unit, or nothing is left open.
  abbrev Closed : Ended W → Type 0
  Closed ended = (ended.result ≡ ioerr_selftest) ⊎ Balanced ended.state.calls

  end_temp-Closed :
      (m n : Prepared) (b : Buffers) (ended : Ended W)
      → (temp.req_vec == 0 || temp.resp_vec == 0) ≡ false
      → Balanced (both m)
      → Balanced (both n)
      → PaidEnd sys p b ((given temp.req_vec ++ given temp.resp_vec) ++ (m.calls ++ n.calls)) ended
      → Closed (end_temp temp m.db n.db ended)
  unfolding end_temp
  end_temp-Closed m n b ended there hm hn (inl t) =
      if_ind Closed (is_selftest ended.result) ended _ (λ e. inl t.0)
        (λ e. absurd (not_selftest ended.result t.0 e))
  end_temp-Closed m n b ended there hm hn (inr net) =
      if_ind Closed (is_selftest ended.result) ended _ (λ e. inl (selftest_of ended.result e))
        (λ e. inr (
          after_Balanced (given temp.req_vec ++ given temp.resp_vec) m.calls n.calls
            ended.state.calls (cleanup_dma m.db) (cleanup_dma n.db)
            (free_vec temp.req_vec ∷ free_vec temp.resp_vec ∷ [])
            (free_vec temp.resp_vec ∷ free_vec temp.req_vec ∷ [])
            (both_freed temp.req_vec temp.resp_vec there) (swapped temp.req_vec temp.resp_vec) hm hn
            net))

  do_io_temp-Closed :
      (shared : Shared) (world : W) → Closed (do_io_temp sys temp p outs shared world)
  unfolding do_io_temp
  do_io_temp-Closed shared world =
      let allocated = given temp.req_vec ++ given temp.resp_vec in
      let flags : DmaFlags = record { read_from_ram = true; no_modify = false } in
      let m = prepare_dma temp.req_dma temp.req_vec req_size flags in
      let n = prepare_dma temp.resp_dma temp.resp_vec resp_size no_flags in
      let mb = prepare_dma-Balanced temp.req_dma temp.req_vec req_size flags in
      let nb = prepare_dma-Balanced temp.resp_dma temp.resp_vec resp_size no_flags in
      let free_both = (free_vec temp.req_vec ∷ free_vec temp.resp_vec ∷ []) in
      if_ind Closed (temp.req_vec == 0 || temp.resp_vec == 0) _ _
        (λ e. inr (vecs_returned temp.req_vec temp.resp_vec))
        (λ there.
          let freed = both_freed temp.req_vec temp.resp_vec there in
          if_ind Closed (not m.ok) _ _
            (λ f. inr (
              around_Balanced allocated m.calls free_both freed (
                Balanced-failed temp.req_dma temp.req_vec req_size flags
                  (false_of_negation m.ok f))))
            (λ f.
              if_ind Closed (not n.ok) _ _
                (λ g. inr (
                  failed_Balanced allocated m.calls n.calls (cleanup_dma m.db) free_both freed mb (
                    Balanced-failed temp.resp_dma temp.resp_vec resp_size no_flags
                      (false_of_negation n.ok g))))
                (λ g.
                  let start = start_state shared none world (allocated ++ (m.calls ++ n.calls)) in
                  let b = temp_buffers temp m n in
                  end_temp-Closed m n b (run_tries sys p b 3 outs start) there mb nb (
                    run_tries-Paid sys p b (allocated ++ (m.calls ++ n.calls)) 3 outs start
                      (λ r a. omega arith)))))

  -- Whatever the system and the device answer, the memory, the mappings and the entry lists that
  -- DoIO itself takes at an address, for the buffers of its call, are given back when it returns, with
  -- one exception: a call without a unit that timed out returns IOERR_SELFTEST and may keep its own. The
  -- indirect table, which AddBuf takes and GetBuf gives back, is not among them.
  pub do_io-returned :
      (ready : Bool) (shared : Shared) (unit : Option PipeUnit) (world : W)
      → ((unit ≡ none) × ((do_io sys ready temp p outs shared unit world).result ≡ ioerr_selftest))
        ⊎ Balanced (do_io sys ready temp p outs shared unit world).state.calls
  unfolding do_io end_unit
  do_io-returned false shared unit world = inr (λ r a. refl)
  do_io-returned true shared none world = elim (do_io_temp-Closed shared world) [
    | inl t ↦ inl (refl, t)
    | inr h ↦ inr h
  ]
  do_io-returned true shared (some unit) world =
      let start = start_state shared (some unit) world [] in
      elim (run_tries-Paid sys p (unit_buffers unit) [] 3 outs start (λ r a. refl)) [
        | inl t ↦ absurd (cc t.1)
        | inr h ↦ inr (λ r a. omega (arith, h r a))
      ]
