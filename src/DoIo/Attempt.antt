-- ===== src/DoIo/Attempt.antt =====
-- One round of the retry loop of VirtIOSCSI_DoIO (src/virtio/virtio_scsi_io.c): the request is built,
-- sent and waited for. How the completion is waited for is the operation `complete` of the system.
use virtual_scsidevice.Base.{
  ℕ, ◌+◌, ◌^◌, ◌==◌, ltb, Bool, true, false, ◌&&◌, not, if◌then◌else◌, Option, none, some, List, [],
  ◌++◌, length, bit_or,
}
use virtual_scsidevice.Word.{u8}
use virtual_scsidevice.Cdb.{fill_cdb, virtio_scsi_set_lun}
use virtual_scsidevice.Errors.{IoError, tderr_not_specified, hferr_dma}
use virtual_scsidevice.Virtqueue.{Sg, TableSetup, add_buf}
use virtual_scsidevice.Pipeline.{ReqCmd, RespCmd, PipeUnit, Shared, max_sg_entries}
use virtual_scsidevice.Pipeline.Submit.{store, reset_resp}
use virtual_scsidevice.DoIo.Dma.{Call, DmaReply, DmaBuffer, no_buffer, cleanup_dma, prepare_dma}

-- what the caller of DoIO passes
pub record Params : Type 0 where
  pub target : ℕ
  pub lun : ℕ
  pub cdb : List ℕ
  pub buf : ℕ
  pub data_len : ℕ
  pub is_write : Bool

-- The request and response buffers of a call, and whether they are temporary.
pub record Buffers : Type 0 where
  pub req_cmd : ℕ
  pub resp_cmd : ℕ
  pub req_list : List Sg
  pub resp_list : List Sg
  pub temp_alloc : Bool

-- The world behind a call. `complete` waits for the cookie: `none` is the timeout, else what
-- `resp_cmd` holds then; other completions may change the driver and the unit meanwhile.
pub record System {ℓ} (W : Type ℓ) : Type ℓ where
  pub map_data : W → ℕ → ℕ → Bool → (DmaReply × TableSetup) × W
  pub complete : W → ℕ → Shared → Option PipeUnit → Option RespCmd × Shared × Option PipeUnit × W

-- The state that the tries change. `calls` are those of DoIO itself, for the buffers of its call; AddBuf
-- and GetBuf take and give back the indirect table.
pub record State {ℓ} (W : Type ℓ) : Type ℓ where
  pub shared : Shared
  pub unit : Option PipeUnit
  pub world : W
  pub calls : List Call

-- how a try ends
pub data Outcome : Type 0 where
  refused : IoError → Outcome
  timed_out : Outcome
  answered : RespCmd → Outcome

-- the request header of a try
unfoldable pub fill_header : Params → ReqCmd
unfolding fill_cdb virtio_scsi_set_lun
fill_header p = record {
  lun = virtio_scsi_set_lun p.target p.lun;
  id = 1;
  task_attr = 0;
  prio = 0;
  crn = 0;
  cdb = fill_cdb p.cdb;
}

abbrev pub entries_of : DmaBuffer → List Sg
entries_of db = elim db.list [ none ↦ [] | some list ↦ list ]

-- the device-readable and the device-writable part of the chain
unfoldable pub build_chain : Params → Buffers → DmaBuffer → List Sg × List Sg
build_chain p b db =
    if p.is_write
    then (b.req_list ++ entries_of db, b.resp_list)
    else (b.req_list, b.resp_list ++ entries_of db)

-- `active_units_mask |= ...`, when there is a unit
abbrev pub mark_active : Option PipeUnit → ℕ → ℕ
mark_active none mask = mask
mark_active (some unit) mask = u8 (bit_or mask (2 ^ unit.unit_num))

abbrev pub reset_unit : Option PipeUnit → Option PipeUnit
reset_unit none = none
reset_unit (some unit) = some (record unit { resp_bufs = reset_resp unit 0 })

-- `if (cookie || !temp_alloc) cleanup_dma`
abbrev pub release : Option RespCmd → Bool → DmaBuffer → List Call
release (some resp) temp_alloc db = cleanup_dma db
release none true db = []
release none false db = cleanup_dma db

abbrev pub outcome_of : Option RespCmd → Outcome
outcome_of (some resp) = answered resp
outcome_of none = timed_out

-- from the chain on: the length check, AddBuf, the wait
unfoldable pub send_chain {ℓ} :
    {W : Type ℓ}
    → System W
    → Params
    → Buffers
    → DmaBuffer
    → TableSetup
    → State W
    → Outcome × State W
unfolding build_chain add_buf cleanup_dma
send_chain sys p b db table s =
    let (out, in_) = build_chain p b db in
    let (sent, vq) = add_buf table s.shared.vq (out ++ in_) (length out) (length in_) b.req_cmd in
    let busy = record s.shared {
      vq = vq;
      active_units_mask = mark_active s.unit s.shared.active_units_mask;
    } in
    let (resp, shared, unit, world) = sys.complete s.world b.req_cmd busy s.unit in
    if ltb max_sg_entries (length out + length in_)
    then (refused hferr_dma, record s { calls = s.calls ++ cleanup_dma db })
    else if not sent
    then (refused tderr_not_specified, record s { calls = s.calls ++ cleanup_dma db })
    else (
      outcome_of resp,
      record {
        shared = shared;
        unit = unit;
        world = world;
        calls = s.calls ++ release resp b.temp_alloc db;
      },
    )

-- one round of the retry loop, up to the response
unfoldable pub attempt {ℓ} :
    {W : Type ℓ} → System W → Params → Buffers → State W → Outcome × State W
unfolding fill_header prepare_dma send_chain
attempt sys p b s =
    let ((reply, table), world) = sys.map_data s.world p.buf p.data_len p.is_write in
    let reset = record s {
      shared = record s.shared { req_mem = store s.shared.req_mem b.req_cmd (fill_header p) };
      unit = reset_unit s.unit;
    } in
    let m =
      prepare_dma reply p.buf p.data_len
        (record { read_from_ram = p.is_write; no_modify = false }) in
    let mapped = record reset { world = world; calls = s.calls ++ m.calls } in
    let plain = send_chain sys p b no_buffer table reset in
    let sent = send_chain sys p b m.db table mapped in
    if not (p.buf == 0) && ltb 0 p.data_len
    then (if m.ok then sent else (refused hferr_dma, mapped))
    else plain
