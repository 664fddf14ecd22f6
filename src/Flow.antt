-- ===== src/Flow.antt =====
-- The event loop of UnitTask_Entry of src/unit_task.c, and all unit tasks together: a step relation on
-- the driver for any interleaving of their calls.
pub mod Placed
pub mod Held
pub mod Invariant
pub mod Loop
pub mod Wake
pub mod Avail
pub mod Ends
use virtual_scsidevice.Base.{
  ℕ, zero, suc, ◌+◌, ◌≡◌, Bool, true, false, ◌||◌, if◌then◌else◌, Option, none, some, List, [], ◌∷◌,
  ◌++◌, get_or,
}
use virtual_scsidevice.Word.{u16}
use virtual_scsidevice.Request.{IoRequest}
use virtual_scsidevice.Virtqueue.{Virtqueue}
use virtual_scsidevice.Pipeline.{PipeUnit, Effect, Shared, RespCmd}
use virtual_scsidevice.Pipeline.Submit.{DmaAnswer}
use virtual_scsidevice.Pipeline.Harvest.{Driver, put_unit, with_vq, deliver, harvest}
use virtual_scsidevice.Pipeline.Finish.{replies}
use virtual_scsidevice.UnitTask.{Services, BlockSize, TaskState, dispatch, drain_slots, drain_port}

-- What VirtIOSCSI_DoIO does besides its own request while a command waits in it (also for the device and
-- the tasks that run then): the ring, the request headers and the mask change, a unit's response buffers
-- and its pending cookie change, and a cookie that GetBuf gave is delivered.
pub data Meanwhile : Type 0 where
  shared_memory : (shared : Shared) → Meanwhile
  unit_memory : (u : ℕ) (resp_bufs : List RespCmd) (cookie written : ℕ) → Meanwhile
  takes_cookie : (cookie written : ℕ) → Meanwhile

abbrev pub with_memory : List RespCmd → ℕ → ℕ → PipeUnit → PipeUnit
with_memory resp_bufs cookie written unit = record unit {
  resp_bufs = resp_bufs;
  doio_pending_cookie = cookie;
  doio_pending_written = written;
}

abbrev pub with_unit_memory : ℕ → List RespCmd → ℕ → ℕ → Driver → Driver
with_unit_memory u resp_bufs cookie written driver = elim (get_or driver.units u none) [
  | none ↦ driver
  | some unit ↦ put_unit driver u (with_memory resp_bufs cookie written unit)
]

-- A message at the port, the system's answers while it is dispatched, the block size of its unit at that
-- time, and what happens meanwhile when the command waits in DoIO.
pub record Mail : Type 0 where
  pub ioreq : IoRequest
  pub dma : DmaAnswer
  pub size : BlockSize
  pub meanwhile : List Meanwhile

-- UnitTask_Dispatch with the driver's state
unfoldable pub dispatch_to : Services → ℕ → PipeUnit → Mail → Driver → Bool × Driver × List Effect
unfolding dispatch
dispatch_to services u unit mail driver =
    let out = dispatch services mail.dma mail.size driver.shared unit mail.ioreq in
    (out.0, record (put_unit driver u out.1.unit) { shared = out.1.shared }, out.1.effects)

unfoldable pub play : List Meanwhile → Driver → Driver × List Effect
unfolding deliver
play [] driver = (driver, [])
play (shared_memory shared ∷ more) driver = play more (record driver { shared = shared })
play (unit_memory u resp_bufs cookie written ∷ more) driver =
    play more (with_unit_memory u resp_bufs cookie written driver)
play (takes_cookie cookie written ∷ more) driver =
    let out = deliver driver cookie written in
    let rest = play more out.0 in (rest.0, out.1 ++ rest.1)

-- A request that Submit took does not wait in DoIO. The reply of another stands before what happens
-- meanwhile, of which it is independent.
abbrev pub with_meanwhile : Mail → Bool × Driver × List Effect → Bool × Driver × List Effect
with_meanwhile mail (true, driver, effects) = (true, driver, effects)
with_meanwhile mail (false, driver, effects) =
    let after = play mail.meanwhile driver in (false, after.0, effects ++ after.1)

pub record Batch : Type 0 where
  pub need_kick : Bool
  pub driver : Driver
  pub effects : List Effect

abbrev pub then_batch : Bool × Driver × List Effect → Batch → Batch
then_batch first rest = record {
  need_kick = first.0 || rest.need_kick;
  driver = rest.driver;
  effects = first.2 ++ rest.effects;
}

abbrev pub no_batch : Driver → Batch
no_batch driver = record { need_kick = false; driver = driver; effects = [] }

-- The loop over the port of the task of unit `u`.
unfoldable pub dispatch_port : Services → ℕ → List Mail → Driver → Batch
unfolding dispatch_to play
dispatch_port services u [] driver = no_batch driver
dispatch_port services u (mail ∷ port) driver = elim (get_or driver.units u none) [
  | none ↦ no_batch driver
  | some unit ↦
      let first = with_meanwhile mail (dispatch_to services u unit mail driver) in
      then_batch first (dispatch_port services u port first.1)
]

abbrev pub virtio_pci_queue_notify : ℕ
virtio_pci_queue_notify = 16

-- VirtQueue_Kick: the write to the device.
pub data Notify : Type 0 where
  mmio_w16 out_word : (addr value : ℕ) → Notify

unfoldable pub virtqueue_kick : Virtqueue → ℕ → Notify
virtqueue_kick vq iobase =
    if vq.modern
    then mmio_w16 vq.notify_addr (u16 vq.index)
    else out_word (iobase + virtio_pci_queue_notify) (u16 vq.index)

-- The signals that Wait returned.
pub record Signals : Type 0 where
  pub ctrl_c : Bool
  pub io : Bool
  pub port : Bool

pub record Wakeup : Type 0 where
  pub running : Bool
  pub driver : Driver
  pub effects : List Effect
  pub kicks : List Notify

-- the loop's part for the port
abbrev pub serve_port : Services → ℕ → ℕ → Bool → List Mail → Driver → List Effect → Wakeup
serve_port services iobase u signalled port driver effects =
    let batch = if signalled then dispatch_port services u port driver else no_batch driver in
    record {
      running = true;
      driver = batch.driver;
      effects = effects ++ batch.effects;
      kicks = if batch.need_kick then virtqueue_kick batch.driver.shared.vq iobase ∷ [] else [];
    }

-- `iobase` is that of the legacy device. The event loop from a return of Wait to the next call; the fuel is Harvest's.
unfoldable pub wake : ℕ → Services → ℕ → ℕ → Signals → List Mail → Driver → Option Wakeup
unfolding dispatch_port virtqueue_kick harvest
wake fuel services iobase u sigs port driver =
    if sigs.ctrl_c
    then some (record { running = false; driver = driver; effects = []; kicks = [] })
    else elim (if sigs.io then harvest fuel driver else some (driver, [])) [
      | none ↦ none
      | some (next, effects) ↦ some (serve_port services iobase u sigs.port port next effects)
    ]

-- All tasks: the driver, the requests that were taken from the ports, and those replied.
pub record System : Type 0 where
  pub driver : Driver
  pub taken : List IoRequest
  pub replied : List IoRequest

-- The device, GetBuf, AddBuf and DoIO change the ring and the shared memory, and the response buffers and
-- the pending cookie of a unit; the task of a unit dispatches a request; any task delivers a cookie. A
-- dispatch and a delivery are one step each; a command that waits in DoIO is dispatched when it is
-- replied, and what happens while it waits is steps of its own.
pub data Step (services : Services) (s : System) : System → Type 0 where
  shares :
      (shared : Shared)
      → Step services s (record s { driver = record s.driver { shared = shared } })
  memory :
      (u : ℕ) (resp_bufs : List RespCmd) (cookie written : ℕ)
      → Step services s (record s { driver = with_unit_memory u resp_bufs cookie written s.driver })
  dispatches :
      (u : ℕ) (unit : PipeUnit) (mail : Mail)
      → get_or s.driver.units u none ≡ some unit
      → Step services s (record {
        driver = (dispatch_to services u unit mail s.driver).1;
        taken = s.taken ++ (mail.ioreq ∷ []);
        replied = s.replied ++ replies (dispatch_to services u unit mail s.driver).2;
      })
  delivers :
      (cookie written : ℕ)
      → Step services s (record s {
        driver = (deliver s.driver cookie written).0;
        replied = s.replied ++ replies (deliver s.driver cookie written).1;
      })

pub data Steps (services : Services) (s : System) : System → Type 0 where
  start : Steps services s s
  later : {t v : System} → Steps services s t → Step services t v → Steps services s v
