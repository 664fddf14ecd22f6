-- ===== src/Tests/Slots.antt =====
-- One unit with a request in flight, for src/virtio/virtio_scsi_io.c.
use virtual_scsidevice.Base.{
  ℕ, ◌+◌, ◌≤◌, ◌<◌, ◌≡◌, ◌⊎◌, refl, true, false, none, some, List, [], ◌∷◌, replicate, get_or, set,
  arith,
}
use virtual_scsidevice.Request.{IoRequest}
use virtual_scsidevice.Chain.{range}
use virtual_scsidevice.Errors.{is_error}
use virtual_scsidevice.Word.{vr32}
use virtual_scsidevice.Virtqueue.{add_buf}
use virtual_scsidevice.Virtqueue.Allocate.{new_queue}
use virtual_scsidevice.Pipeline.{
  PipeUnit, Shared, RespCmd, no_resp, Slot, idle_slot, max_inflight, slot_at,
}
use virtual_scsidevice.Pipeline.Submit.{
  DmaAnswer, Submitted, submit, submit_from, submit_slot, send, map_data, sg_chain, request_id,
  submit_from,
}
use virtual_scsidevice.Pipeline.Complete.{finish_request, complete_inflight_slot}
use virtual_scsidevice.Pipeline.Harvest.{Driver, deliver}
use virtual_scsidevice.Pipeline.Slots.{table, SlotsOk, take_slot, put_taken, occupy_slot}
use virtual_scsidevice.Pipeline.Start.{
  slot_links, preallocate_free_list, preallocate_free_list-SlotsOk,
}
use virtual_scsidevice.Pipeline.Keep.{SubmitPost, submit-SlotsOk}
use virtual_scsidevice.Pipeline.Finish.{
  Completes, complete_inflight_slot-SlotsOk, finish_request-lem,
}
use virtual_scsidevice.Pipeline.Roundtrip.{Replied, after_submit, submit-deliver}
use virtual_scsidevice.Tests.Requests.{read_request}

-- a unit after its memory is cleared and its buffers are allocated
abbrev pub cleared_unit : PipeUnit
cleared_unit = record {
  unit_num = 1;
  target_id = 3;
  lun_id = 0;
  free_head = none;
  inflight_next = [];
  inflight_count = 0;
  inflight = replicate max_inflight idle_slot;
  req_bufs = 0x100 ∷ 0x200 ∷ [];
  resp_bufs = replicate max_inflight no_resp;
  dma_req_lists = (record { addr = 0x5100; len = 51 } ∷ []) ∷ [];
  dma_resp_lists = (record { addr = 0x6100; len = 108 } ∷ []) ∷ [];
  bounce_dma_phys = 0x7000 ∷ [];
  data_dma_pool = true ∷ [];
  doio_pending_cookie = 0;
  doio_pending_written = 0;
  io_wait_task = true;
}

unfoldable pub started : PipeUnit
unfolding preallocate_free_list slot_links
started = preallocate_free_list cleared_unit

pub started-SlotsOk : SlotsOk (table started) (range 0 max_inflight)
unfolding started
started-SlotsOk = preallocate_free_list-SlotsOk cleared_unit refl refl

unfoldable pub base : Shared
unfolding new_queue
base = record {
  vq = new_queue 2 4;
  req_mem = λ a. record { lun = []; id = 0; task_attr = 0; prio = 0; crn = 0; cdb = [] };
  occupied_count = 0;
  active_units_mask = 0;
}

abbrev pub no_dma : DmaAnswer
no_dma = record {
  entries = 0;
  list = [];
  table = record { table_ok = false; dma_entries = 0; list_ok = false; itbl_phys = 0 };
}

-- READ(10) of one block
abbrev pub read_cdb : List ℕ
read_cdb = 0x28 ∷ 0 ∷ 0 ∷ 0 ∷ 0 ∷ 8 ∷ 0 ∷ 0 ∷ 1 ∷ 0 ∷ []

unfoldable first_call : Submitted
unfolding submit base started
first_call = submit no_dma base started (read_request 9) read_cdb false

submit-SlotsOk_example :
    SubmitPost started
      (range 0 max_inflight)
      base
      (read_request 9)
      (submit no_dma base started (read_request 9) read_cdb false).result
      (submit no_dma base started (read_request 9) read_cdb false)
submit-SlotsOk_example =
    submit-SlotsOk no_dma base started (range 0 max_inflight) (read_request 9) read_cdb false
      started-SlotsOk

abbrev two_units : Driver
unfolding base started
two_units = record { shared = base; units = none ∷ some started ∷ [] }

submit-deliver_example :
    (slot : ℕ) × (rest : List ℕ) × (range 0 max_inflight ≡ slot ∷ rest)
    × Replied two_units 1
        (submit no_dma base started (read_request 9) read_cdb false)
        slot
        (range 0 max_inflight)
        (read_request 9)
        (deliver
          (after_submit two_units 1 (submit no_dma base started (read_request 9) read_cdb false))
          (get_or started.req_bufs slot 0)
          620)
unfolding two_units submit submit_from submit_slot send map_data sg_chain add_buf base started
    new_queue preallocate_free_list
submit-deliver_example =
    submit-deliver no_dma two_units 1 started (range 0 max_inflight) (read_request 9) read_cdb false
      620 (omega arith) (omega arith) refl started-SlotsOk refl

-- the unit with the request in its slot 0
abbrev pub held_slot : Slot
held_slot = record idle_slot { ioreq = some (read_request 9); cookie = 0x100 }

unfoldable pub one_busy : PipeUnit
unfolding started
one_busy = record started {
  free_head = some 1;
  inflight = set started.inflight 0 held_slot;
  inflight_count = 1;
}

one_busy-SlotsOk : SlotsOk (table one_busy) (range 1 15)
unfolding one_busy started preallocate_free_list slot_links
one_busy-SlotsOk =
    occupy_slot _ 0 (range 1 15)
      (put_taken _ 0 (range 1 15) (take_slot (table started) 0 (range 1 15) started-SlotsOk)
        held_slot)
      (record { request = (read_request 9, refl); own_cookie = refl })

unfoldable in_flight : Driver
unfolding one_busy base request_id
in_flight = record {
  shared = record base {
    req_mem =
        λ a. record { lun = []; id = request_id 1 0; task_attr = 0; prio = 0; crn = 0; cdb = [] };
  };
  units = none ∷ some one_busy ∷ [];
}

-- a response with 112 bytes missing
abbrev short_resp : RespCmd
short_resp = record { residual = 112; status = 0; response = 0; sense = [] }

finish_request-lem_example :
    let done = finish_request false short_resp (read_request 9) in
    let failed = is_error done.io_error in
    let residual = vr32 false short_resp.residual in
    (done.id ≡ (read_request 9).id)
    × (done.io_actual ≤ (read_request 9).io_length)
    × (((failed ≡ false)
          × (residual ≤ (read_request 9).io_length)
          × (done.io_actual + residual ≡ (read_request 9).io_length))
        ⊎ (((failed ≡ true) ⊎ ((read_request 9).io_length < residual)) × (done.io_actual ≡ 0)))
finish_request-lem_example = finish_request-lem false short_resp (read_request 9)

complete_inflight_slot-SlotsOk_example :
    (held : IoRequest) × ((slot_at one_busy 0).ioreq ≡ some held)
    × Completes base one_busy 0 (range 1 15) held (complete_inflight_slot base one_busy 0)
complete_inflight_slot-SlotsOk_example =
    complete_inflight_slot-SlotsOk base one_busy 0 (range 1 15) one_busy-SlotsOk (omega arith) refl
