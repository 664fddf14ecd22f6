-- ===== src/DoIo/Whole.antt =====
-- VirtIOSCSI_DoIO of src/virtio/virtio_scsi_io.c as a whole, for a unit and for discovery.
use virtual_scsidevice.Base.{
  ℕ, ◌-◌, ◌^◌, ◌==◌, Bool, true, false, ◌||◌, not, if◌then◌else◌, Option, none, some, List, [], ◌∷◌,
  ◌++◌, get_or, bit_and,
}
use virtual_scsidevice.Errors.{
  IoError, tderr_not_specified, tderr_no_mem, hferr_dma, ioerr_selftest,
}
use virtual_scsidevice.Pipeline.{no_flags, PipeUnit, Shared}
use virtual_scsidevice.DoIo.Dma.{
  Call, alloc_vec, free_vec, DmaReply, DmaBuffer, cleanup_dma, Prepared, prepare_dma,
}
use virtual_scsidevice.DoIo.Attempt.{Params, Buffers, System, State, entries_of}
use virtual_scsidevice.DoIo.Tries.{Outs, Ended, run_tries}

-- `inflight_count == 0`: the bit of the unit is cleared at the end.
abbrev pub clear_active : Option PipeUnit → Shared → Shared
clear_active none shared = shared
clear_active (some unit) shared =
    if unit.inflight_count == 0
    then record shared {
      active_units_mask = bit_and shared.active_units_mask (255 - 2 ^ unit.unit_num);
    }
    else shared

-- What the discovery path gets for its temporary buffers: the addresses from AllocVecTags, 0 for
-- NULL, and the mappings.
pub record TempSetup : Type 0 where
  pub req_vec : ℕ
  pub resp_vec : ℕ
  pub req_dma : DmaReply
  pub resp_dma : DmaReply

-- the sizes of struct virtio_scsi_req_cmd and struct virtio_scsi_resp_cmd
abbrev pub req_size : ℕ
req_size = 51

abbrev pub resp_size : ℕ
resp_size = 108

abbrev pub given : ℕ → List Call
given addr = if addr == 0 then [] else alloc_vec addr ∷ []

abbrev pub returned : ℕ → List Call
returned addr = if addr == 0 then [] else free_vec addr ∷ []

abbrev pub add_calls {ℓ} : {W : Type ℓ} → List Call → Ended W → Ended W
add_calls calls ended = record ended {
  state = record ended.state { calls = ended.state.calls ++ calls };
}

abbrev pub is_selftest : IoError → Bool
is_selftest ioerr_selftest = true
is_selftest _ = false

-- the cleanup of the temporary buffers, unless the call timed out
unfoldable pub end_temp {ℓ} : {W : Type ℓ} → TempSetup → DmaBuffer → DmaBuffer → Ended W → Ended W
unfolding cleanup_dma
end_temp temp req_db resp_db ended =
    if is_selftest ended.result
    then ended
    else add_calls
        (cleanup_dma resp_db
          ++ (cleanup_dma req_db ++ (free_vec temp.resp_vec ∷ free_vec temp.req_vec ∷ [])))
        ended

abbrev pub start_state {ℓ} : {W : Type ℓ} → Shared → Option PipeUnit → W → List Call → State W
start_state shared unit world calls = record {
  shared = shared;
  unit = unit;
  world = world;
  calls = calls;
}

abbrev pub temp_buffers : TempSetup → Prepared → Prepared → Buffers
temp_buffers temp m n = record {
  req_cmd = temp.req_vec;
  resp_cmd = temp.resp_vec;
  req_list = entries_of m.db;
  resp_list = entries_of n.db;
  temp_alloc = true;
}

-- a return before the request is sent
abbrev pub leave_temp {ℓ} : {W : Type ℓ} → Outs → Shared → W → IoError → List Call → Ended W
leave_temp outs shared world e calls = record {
  result = e;
  outs = outs;
  state = record { shared = shared; unit = none; world = world; calls = calls };
}

-- the discovery path: no unit
unfoldable pub do_io_temp {ℓ} :
    {W : Type ℓ} → System W → TempSetup → Params → Outs → Shared → W → Ended W
unfolding prepare_dma run_tries end_temp
do_io_temp sys temp p outs shared world =
    let allocated = given temp.req_vec ++ given temp.resp_vec in
    let m =
      prepare_dma temp.req_dma temp.req_vec req_size
        (record { read_from_ram = true; no_modify = false }) in
    let n = prepare_dma temp.resp_dma temp.resp_vec resp_size no_flags in
    let leave = leave_temp outs shared world in
    let free_both = (free_vec temp.req_vec ∷ free_vec temp.resp_vec ∷ []) in
    let start = start_state shared none world (allocated ++ (m.calls ++ n.calls)) in
    if temp.req_vec == 0 || temp.resp_vec == 0
    then leave tderr_no_mem (allocated ++ (returned temp.req_vec ++ returned temp.resp_vec))
    else if not m.ok
    then leave hferr_dma (allocated ++ (m.calls ++ free_both))
    else if not n.ok
    then leave hferr_dma (allocated ++ (m.calls ++ (n.calls ++ (cleanup_dma m.db ++ free_both))))
    else end_temp temp m.db n.db (run_tries sys p (temp_buffers temp m n) 3 outs start)

abbrev pub unit_buffers : PipeUnit → Buffers
unit_buffers unit = record {
  req_cmd = get_or unit.req_bufs 0 0;
  resp_cmd = 0;
  req_list = get_or unit.dma_req_lists 0 [];
  resp_list = get_or unit.dma_resp_lists 0 [];
  temp_alloc = false;
}

-- the mask bit of an idle unit is cleared
unfoldable pub end_unit {ℓ} : {W : Type ℓ} → Ended W → Ended W
end_unit ended = record ended {
  state = record ended.state { shared = clear_active ended.state.unit ended.state.shared };
}

-- VirtIOSCSI_DoIO: `ready` says that the request queue and the PCI device are there.
unfoldable pub do_io {ℓ} :
    {W : Type ℓ}
    → System W
    → Bool
    → TempSetup
    → Params
    → Outs
    → Shared
    → Option PipeUnit
    → W
    → Ended W
unfolding do_io_temp run_tries end_unit
do_io sys false temp p outs shared unit world = record {
  result = tderr_not_specified;
  outs = outs;
  state = record { shared = shared; unit = unit; world = world; calls = [] };
}
do_io sys true temp p outs shared none world = do_io_temp sys temp p outs shared world
do_io sys true temp p outs shared (some unit) world =
    end_unit (run_tries sys p (unit_buffers unit) 3 outs (start_state shared (some unit) world []))
