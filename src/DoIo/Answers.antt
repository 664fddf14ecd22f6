-- ===== src/DoIo/Answers.antt =====
-- What VirtIOSCSI_DoIO (src/virtio/virtio_scsi_io.c) stores for its caller, and DoIO as the transport of
-- the commands outside the pipeline.
use virtual_scsidevice.Base.{
  ℕ, zero, suc, ◌≤◌, ◌==◌, ltb, Bool, true, false, ◌&&◌, ◌||◌, not, if◌then◌else◌, if_ind, Option,
  none, some, [], ◌++◌, arith,
}
use virtual_scsidevice.Word.{vr32}
use virtual_scsidevice.Errors.{tderr_no_mem, hferr_dma}
use virtual_scsidevice.Pipeline.{DmaFlags, no_flags, RespCmd, PipeUnit, Shared}
use virtual_scsidevice.Transport.{Transport, Clamped}
use virtual_scsidevice.DoIo.Dma.{DmaBuffer, prepare_dma}
use virtual_scsidevice.DoIo.Attempt.{
  Params, Buffers, System, State, Outcome, refused, timed_out, answered, attempt,
}
use virtual_scsidevice.DoIo.Tries.{Outs, Ended, set_outs, check_condition, conclude, run_tries}
use virtual_scsidevice.DoIo.Whole.{
  TempSetup, req_size, resp_size, given, temp_buffers, leave_temp, start_state, unit_buffers,
  end_temp, is_selftest, do_io_temp, end_unit, do_io,
}

abbrev pub OutsOk : ℕ → Outs → Type 0
OutsOk data_len outs = outs.residual ≤ data_len

set_outs-OutsOk :
    (modern : Bool) (data_len : ℕ) (resp : RespCmd) (outs : Outs)
    → OutsOk data_len outs
    → OutsOk data_len (set_outs modern data_len resp outs)
unfolding set_outs
set_outs-OutsOk modern data_len resp outs h =
    if_ind (OutsOk data_len) (not (resp.response == 0)) (record outs { scsi_status = 0 }) _ (λ e. h)
      (λ e. clamped (vr32 modern resp.residual) data_len)
  where
    clamped : (r n : ℕ) → (if ltb n r then n else r) ≤ n
    clamped r n = ground arith

module _ {ℓ} {W : Type ℓ} (sys : System W) (p : Params) where
  conclude-OutsOk :
      (tries : ℕ) (outs : Outs) (outcome : Outcome) (next : State W) (again : Outs → Ended W)
      → OutsOk p.data_len outs
      → ((seen : Outs) → OutsOk p.data_len seen → OutsOk p.data_len (again seen).outs)
      → OutsOk p.data_len (conclude p tries outs outcome next again).outs
  unfolding conclude
  conclude-OutsOk tries outs (refused e) next again h k = h
  conclude-OutsOk tries outs timed_out next again h k = h
  conclude-OutsOk tries outs (answered resp) next again h k =
      let seen = set_outs next.shared.vq.modern p.data_len resp outs in
      let ok = set_outs-OutsOk next.shared.vq.modern p.data_len resp outs h in
      if_ind (λ (o : Ended W). OutsOk p.data_len o.outs) (check_condition resp && ltb 0 tries)
        (again seen) _ (λ e. k seen ok) (λ e. ok)

  run_tries-OutsOk :
      (b : Buffers) (tries : ℕ) (outs : Outs) (s : State W)
      → OutsOk p.data_len outs
      → OutsOk p.data_len (run_tries sys p b tries outs s).outs
  unfolding run_tries
  run_tries-OutsOk b zero outs s h = h
  run_tries-OutsOk b (suc tries) outs s h =
      let try = attempt sys p b s in
      conclude-OutsOk tries outs try.0 try.1 (λ seen. run_tries sys p b tries seen try.1) h
        (λ seen ok. run_tries-OutsOk b tries seen try.1 ok)

  -- the path past the allocations, for any mappings `m` and `n`
  end_temp-OutsOk :
      (temp : TempSetup) (m n : DmaBuffer) (ended : Ended W)
      → OutsOk p.data_len ended.outs
      → OutsOk p.data_len (end_temp temp m n ended).outs
  unfolding end_temp
  end_temp-OutsOk temp m n ended h =
      if_ind (λ (o : Ended W). OutsOk p.data_len o.outs) (is_selftest ended.result) ended _ (λ e. h)
        (λ e. h)

  do_io_temp-OutsOk :
      (temp : TempSetup) (outs : Outs) (shared : Shared) (world : W)
      → OutsOk p.data_len outs
      → OutsOk p.data_len (do_io_temp sys temp p outs shared world).outs
  unfolding do_io_temp
  do_io_temp-OutsOk temp outs shared world h =
      let flags : DmaFlags = record { read_from_ram = true; no_modify = false } in
      let m = prepare_dma temp.req_dma temp.req_vec req_size flags in
      let n = prepare_dma temp.resp_dma temp.resp_vec resp_size no_flags in
      let P = λ (o : Ended W). OutsOk p.data_len o.outs in
      let left = leave_temp outs shared world in
      let calls = (given temp.req_vec ++ given temp.resp_vec) ++ (m.calls ++ n.calls) in
      let ran =
        run_tries sys p (temp_buffers temp m n) 3 outs (start_state shared none world calls) in
      let last = end_temp temp m.db n.db ran in
      let third = if not n.ok then left hferr_dma _ else last in
      let second = if not m.ok then left hferr_dma _ else third in
      if_ind P (temp.req_vec == 0 || temp.resp_vec == 0) (left tderr_no_mem _) second (λ e. h)
        (λ e.
          if_ind P (not m.ok) (left hferr_dma _) third (λ f. h)
            (λ f.
              if_ind P (not n.ok) (left hferr_dma _) last (λ g. h)
                (λ g. end_temp-OutsOk temp m.db n.db ran (
                  run_tries-OutsOk (temp_buffers temp m n) 3 outs
                    (start_state shared none world calls) h))))

  -- The residual that DoIO stores never exceeds the length of the caller's buffer, whatever the
  -- device answers, when it did not before the call.
  pub do_io-OutsOk :
      (ready : Bool) (temp : TempSetup) (outs : Outs) (shared : Shared) (unit : Option PipeUnit)
      (world : W)
      → OutsOk p.data_len outs
      → OutsOk p.data_len (do_io sys ready temp p outs shared unit world).outs
  unfolding do_io end_unit
  do_io-OutsOk false temp outs shared unit world h = h
  do_io-OutsOk true temp outs shared none world h = do_io_temp-OutsOk temp outs shared world h
  do_io-OutsOk true temp outs shared (some unit) world h =
      run_tries-OutsOk (unit_buffers unit) 3 outs (start_state shared (some unit) world []) h

-- The state behind DoIO as a transport: the world, the driver and the unit.
pub record Behind {ℓ} (W : Type ℓ) : Type ℓ where
  pub world : W
  pub shared : Shared
  pub unit : Option PipeUnit

-- DoIO with the outputs that its callers start with. `at` is the target, the LUN and the buffer;
-- `contents` is the buffer after the call, and `alloc` is AllocVecTags.
unfoldable pub as_transport {ℓ} :
    {W : Type ℓ}
    → System W
    → TempSetup
    → (at : Params) → (contents : W → ℕ → ℕ) → (alloc : W → ℕ → Bool × W) → Transport (Behind W)
unfolding do_io
as_transport sys temp at contents alloc = record {
  do_io = λ behind cdb data_len is_write.
      let params = record at { cdb = cdb; data_len = data_len; is_write = is_write } in
      let o =
        do_io sys true temp params (record { scsi_status = 0; residual = 0 }) behind.shared
          behind.unit behind.world in
      (
        record {
          rc = o.result;
          scsi_status = o.outs.scsi_status;
          residual = o.outs.residual;
          buffer = contents o.state.world;
        },
        record { world = o.state.world; shared = o.state.shared; unit = o.state.unit },
      );
  alloc_vec = λ behind size.
      let (ok, next) = alloc behind.world size in (ok, record behind { world = next });
}

pub as_transport-Clamped {ℓ} :
    {W : Type ℓ} (sys : System W) (temp : TempSetup) (at : Params) (contents : W → ℕ → ℕ)
    (alloc : W → ℕ → Bool × W)
    → Clamped (as_transport sys temp at contents alloc)
unfolding as_transport
as_transport-Clamped sys temp at contents alloc behind cdb data_len is_write =
    do_io-OutsOk sys (record at { cdb = cdb; data_len = data_len; is_write = is_write }) true temp
      (record { scsi_status = 0; residual = 0 }) behind.shared behind.unit behind.world
      (omega arith)
