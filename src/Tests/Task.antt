-- ===== src/Tests/Task.antt =====
-- The unit task of src/unit_task.c at the unit with a request in flight.
use virtual_scsidevice.Base.{◌≡◌, ◌<◌, ◌/◌, refl, true, false, some, get_or, List, [], ◌∷◌, arith}
use virtual_scsidevice.Chain.{range}
use virtual_scsidevice.Errors.{no_error}
use virtual_scsidevice.Virtqueue.{fill_table}
use virtual_scsidevice.Virtqueue.Device.{read_chain, buffers}
use virtual_scsidevice.Virtqueue.Table.{read_chain-fill_table}
use virtual_scsidevice.Pipeline.{Slot, idle_slot, max_inflight}
use virtual_scsidevice.Pipeline.Finish.{replies}
use virtual_scsidevice.Cdb.{io_block_size, transfer_blocks}
use virtual_scsidevice.Cdb.Decode.{decode, decode_lun}
use virtual_scsidevice.Pipeline.Start.{preallocate_free_list}
use virtual_scsidevice.UnitTask.Header.{submit_block_io-header}
use virtual_scsidevice.UnitTask.{submit_block_io, Services, BlockSize, dispatch, drain_slots}
use virtual_scsidevice.UnitTask.Dispatched.{Handed, dispatch-Handed}
use virtual_scsidevice.UnitTask.Drained.{requests_in, aborted, drain_slots-aborted}
use virtual_scsidevice.Tests.Requests.{read_request}
use virtual_scsidevice.Tests.Queue.{two_entries}
use virtual_scsidevice.Tests.Slots.{base, started, started-SlotsOk, no_dma, held_slot}

abbrev pub plain_services : Services
plain_services = record {
  do_io = λ unit ioreq cdb is_write. (no_error, 0);
  handler = λ h ioreq. ioreq;
}

abbrev pub sectors : BlockSize
sectors = record { geometry_valid = true; block_size = 512 }

dispatch-Handed_example :
    Handed
      (range 0 max_inflight)
      (read_request 9)
      (dispatch plain_services no_dma sectors base started (read_request 9))
dispatch-Handed_example =
    dispatch-Handed plain_services no_dma sectors base started (range 0 max_inflight)
      (read_request 9) (λ h r. refl) started-SlotsOk

abbrev three_slots : List Slot
three_slots = held_slot ∷ idle_slot ∷ held_slot ∷ []

drain_slots-aborted_example :
    (replies (drain_slots three_slots).1 ≡ aborted (requests_in three_slots))
    × (requests_in (drain_slots three_slots).0 ≡ [])
drain_slots-aborted_example = drain_slots-aborted three_slots

read_chain-fill_table_example :
    read_chain 2 true (fill_table true 1 0 two_entries) 0 ≡ some (buffers 1 0 two_entries)
read_chain-fill_table_example =
    read_chain-fill_table true 1 two_entries (omega arith)
      (omega arith, omega arith, (omega arith, omega arith, tt)) (omega arith)

started_head : started.free_head ≡ some 0
unfolding started preallocate_free_list
started_head = refl

started_target : started.target_id < 256
unfolding started preallocate_free_list
started_target = omega arith

started_lun : started.lun_id < 16384
unfolding started preallocate_free_list
started_lun = omega arith

submit_block_io-header_example :
    let out =
      submit_block_io plain_services no_dma sectors base started (read_request 9) 4096 false in
    let header = out.1.shared.req_mem (get_or started.req_bufs 0 0) in
    (decode header.cdb
      ≡ some (record {
        writes = false;
        lba = 4096 / io_block_size true 512;
        blocks = transfer_blocks 512 (io_block_size true 512);
      }))
    × (decode_lun header.lun ≡ (started.target_id, started.lun_id))
submit_block_io-header_example =
    submit_block_io-header plain_services no_dma sectors base started 0 (read_request 9) 4096 false
      started_head started_target started_lun (omega arith) (omega arith)
