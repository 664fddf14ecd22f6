-- ===== src/Lib.antt =====
-- A model of virtioscsi.device, the AmigaOS driver for VirtIO SCSI disks, with the theorems
-- that make its core correct.
--
-- A caller hands an I/O request to BeginIO (src/BeginIO.c), which answers it at once, holds it,
-- or queues it to the task of its unit. The task (src/unit_task.c) turns a block request into a
-- SCSI command block (src/scsi_cdb_helpers.c) and gives it to the pipeline
-- (src/virtio/virtio_scsi_io.c): Submit takes one of the unit's sixteen slots, builds the
-- scatter-gather chain and puts it into the virtqueue (src/virtio/virtqueue.c) that all units
-- share. When the device has answered, Harvest takes the cookie from the virtqueue, finds the
-- slot by the id in the request header, and replies the request.
--
-- - Base, Chain, Word: shared helpers. C arrays are lists, a machine word is a native number
--   with its wrap-around written out, Chain has the lists that are linked through arrays, Word
--   the byte order functions of include/virtio/virtqueue.h.
-- - Errors: the error codes and map_scsi_error of src/virtio/virtio_scsi_io.c.
-- - Request: struct IOStdReq and the command numbers.
-- - Cdb: the command blocks of src/scsi_cdb_helpers.c, the LUN field of
--   include/virtio/virtio_scsi_cmd.h and the choice of submit_block_io; Cdb.Decode is the
--   target's reading of them.
-- - Virtqueue: struct virtqueue, VirtQueue_AddBuf (add_buf) and VirtQueue_GetBuf (get_buf);
--   Virtqueue.Allocate: VirtQueue_Allocate; Virtqueue.Owned: who owns a descriptor;
--   Virtqueue.Device: what the device reads.
-- - BeginIo: _manager_BeginIO (begin_io), _manager_AbortIO (abort_io), Reply_Held_Async_Reqs,
--   the list of src/cmd_names.c and the query of src/ns_cmds/ns_devicequery.c.
-- - Pipeline: VirtIOSCSI_Submit (Pipeline.Submit), complete_inflight_slot (Pipeline.Complete),
--   VirtIOSCSI_Harvest (Pipeline.Harvest), and the free list of preallocate_unit_dma
--   (Pipeline.Start); Pipeline.Slots is the invariant of the slots.
-- - UnitTask: submit_block_io, UnitTask_Dispatch (dispatch) and the drain loops of
--   UnitTask_Entry of src/unit_task.c.
-- - UnitDma: the buffers of a unit, alloc_one_slot, free_one_slot, alloc_one_bounce,
--   free_one_bounce, preallocate_unit_dma (preallocate_buffers) and free_unit_dma (free_all) of
--   src/unit_task.c; UnitDma.Holds says what the buffers hold.
-- - Flow: the event loop of UnitTask_Entry (wake, dispatch_port) and VirtQueue_Kick
--   (virtqueue_kick), and all unit tasks together as a step relation (Step), in which a
--   dispatch, a delivery of a cookie and a change of the ring by the device are one step each;
--   Flow.Invariant has what every step keeps, Flow.Loop and Flow.Wake that the event loop is
--   made of such steps, Flow.Avail that a delivery leaves the ring alone, Flow.Ends the fuel.
--   What DoIO does to the ring, to the memory and to the requests of others while a command
--   waits in it is a list of changes and deliveries (Meanwhile).
-- - Transport: the interface to VirtIOSCSI_DoIO that the commands outside the pipeline use.
-- - DoIo: VirtIOSCSI_DoIO of src/virtio/virtio_scsi_io.c: DoIo.Dma (prepare_dma, cleanup_dma),
--   DoIo.Attempt (one round), DoIo.Wait (the wait and the hand-over of cookies), DoIo.Tries
--   (the retry loop), DoIo.Whole (do_io, the discovery path and the cleanup); DoIo.Answers
--   gives it the form of a Transport. Its list of calls has those for the buffers of the call;
--   the indirect table is in the virtqueue.
-- - Scsi: HD_SCSICMD, the files of src/scsi_cmds; Scsi.Parse has Parse_SCSI_Command.
-- - Nsd: Parse_NS_Command and Handle_NS_TD_IO64 of src/ns_cmds.
-- - Lifecycle: _manager_Open (src/Open.c), _manager_Close (src/Close.c) and _manager_Expunge
--   (src/Expunge.c), as far as they count openers, run unit tasks and free units;
--   Lifecycle.Steps has any sequence of them.
-- - Interrupt: VirtIOSCSI_InterruptHandler of src/virtio/virtio_irq.c.
-- - Geometry: ensure_geometry_cached and ensure_rdb_geometry_cached of src/scsi_cdb_helpers.c;
--   Geometry.Commands: Handle_TD_GetGeometry, Handle_TD_GetNumTracks and
--   Handle_NS_TD_GetGeometry64 of src/exec_cmds and src/ns_cmds.
-- - Discovery: DiscoverVirtIOSCSI (discover_virtio_scsi) of src/pci/pci_discovery.c,
--   DetectModernVirtIO (detect_modern_virtio) of src/pci/pci_modern_detect.c and DiscoverUnits
--   (discover_units) of src/unit_discovery.c; the chain of capabilities is a function of the
--   place, so that it may be a ring.
-- - Startup: _manager_Init (manager_init) of src/Init.c, the features and the queues of
--   InitVirtIOSCSI (init_virtio_scsi, setup_queues) and CleanupVirtIOSCSI (cleanup_queues) of
--   src/virtio/virtio_init.c, VirtQueue_Free (virtqueue_free), and what _manager_Expunge gives
--   back (release_all). A piece of the system is a number, and each function gives the list of
--   what it acquires and releases.
-- - Tests: concrete runs.
--
-- A pointer is a number with 0 for NULL, or an Option where the code tests it. The answers of
-- the system (AllocVecTags, StartDMA, GetDMAList) are arguments. The walk over a descriptor
-- chain is on fuel, one more than the size of the queue: the walk clears what it visits, and so
-- ends for any contents of the table. The unit task takes the results of DoIO and of the
-- handlers of its commands as arguments. The retry loop of DoIO counts its three tries, and its
-- wait the 50 retries; the loop over GetBuf inside is on fuel that the caller gives. Harvest is
-- on fuel that the caller gives: each round takes one used entry, and more fuel than there are
-- unread entries is enough. preallocate_unit_dma is modelled for an array of any length in
-- place of the sixteen slots, with the answers of the system at each index as an argument. The
-- locks are not modelled: every function runs in one step under the lock that the code holds.
--
-- Not modelled: the contents of data buffers, register accesses and barriers, the notifications
-- that DoIO makes itself, among them the status handshake of the initialisation; init_dev_unit;
-- the start and the stop of a unit task, of which Lifecycle has only whether the task runs; the
-- fields of the interrupt structure; the test programs.
pub mod Base
pub mod Word
pub mod Errors
pub mod Request
pub mod Cdb
pub mod Chain
pub mod Virtqueue
pub mod BeginIo
pub mod Pipeline
pub mod UnitDma
pub mod UnitTask
pub mod Flow
pub mod Transport
pub mod DoIo
pub mod Scsi
pub mod Nsd
pub mod Lifecycle
pub mod Discovery
pub mod Startup
pub mod Interrupt
pub mod Geometry
pub mod Tests
