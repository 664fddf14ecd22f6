-- ===== src/Tests/Sync.antt =====
-- Synchronous commands: DoIO at a unit and in discovery, and a LOG SENSE of a caller.
use mathlib.Core.Option.{some-injective}
use virtual_scsidevice.Base.{
  ℕ, ◌+◌, ◌≤◌, ◌≡◌, ◌⊎◌, refl, subst, true, false, Option, none, some, [], ◌∷◌, get_or, arith,
}
use virtual_scsidevice.Errors.{ioerr_selftest}
use virtual_scsidevice.Virtqueue.{TableSetup}
use virtual_scsidevice.Pipeline.{signal_doio, RespCmd, PipeUnit}
use virtual_scsidevice.Transport.{Clamped, byte}
use virtual_scsidevice.DoIo.Attempt.{Params, System}
use virtual_scsidevice.DoIo.Tries.{Outs}
use virtual_scsidevice.DoIo.Whole.{TempSetup, do_io}
use virtual_scsidevice.Pipeline.Harvest.{Driver, route, find_doio, to_doio, deliver}
use virtual_scsidevice.DoIo.Wait.{Waited, wait_own}
use virtual_scsidevice.DoIo.Handover.{deliver-wait_own}
use virtual_scsidevice.Chain.{count}
use virtual_scsidevice.Interrupt.{interrupt, interrupt-wakes}
use virtual_scsidevice.DoIo.Balance.{Balanced}
use virtual_scsidevice.DoIo.Returned.{do_io-returned}
use virtual_scsidevice.DoIo.Answers.{OutsOk, do_io-OutsOk}
use virtual_scsidevice.Scsi.Cmd.{ScsiCmd}
use virtual_scsidevice.Scsi.Inquiry.{Names}
use virtual_scsidevice.Scsi.Smart.{allocation}
use virtual_scsidevice.Scsi.Parse.{parse_scsi_command}
use virtual_scsidevice.Scsi.Bounds.{InBounds}
use virtual_scsidevice.Scsi.Fits.{parse_scsi_command-InBounds}
use virtual_scsidevice.Tests.Requests.{read_request}
use virtual_scsidevice.Tests.Slots.{base, started}
use virtual_scsidevice.Tests.Disk.{disk}

-- The device answers with CHECK CONDITION once, and then well with a residual that is too large.
abbrev answer : ℕ → RespCmd
answer tries = record {
  residual = 9999;
  status = get_or (2 ∷ []) tries 0;
  response = 0;
  sense = [];
}

abbrev table : TableSetup
table = record { table_ok = true; dma_entries = 1; list_ok = true; itbl_phys = 0x9000 }

-- The world counts the tries.
abbrev world : System ℕ
world = record {
  map_data = λ tries addr len is_write. (
    (record { entries = 1; list = some (record { addr = addr; len = len } ∷ []) }, table),
    tries,
  );
  complete = λ tries cookie shared unit. (some (answer tries), shared, unit, tries + 1);
}

abbrev temp : TempSetup
temp = record {
  req_vec = 0x1000;
  resp_vec = 0x2000;
  req_dma = record { entries = 1; list = some (record { addr = 0x1000; len = 51 } ∷ []) };
  resp_dma = record { entries = 1; list = none };
}

abbrev inquiry_params : Params
inquiry_params = record {
  target = 1;
  lun = 0;
  cdb = 0x12 ∷ 0 ∷ 0 ∷ 0 ∷ 36 ∷ 0 ∷ [];
  buf = 0x8000;
  data_len = 36;
  is_write = false;
}

abbrev zero_outs : Outs
zero_outs = record { scsi_status = 0; residual = 0 }

do_io-returned_example :
    ((Path (Option PipeUnit) none none)
      × ((do_io world true temp inquiry_params zero_outs base none 0).result ≡ ioerr_selftest))
    ⊎ Balanced (do_io world true temp inquiry_params zero_outs base none 0).state.calls
do_io-returned_example = do_io-returned world temp inquiry_params zero_outs true base none 0

do_io-OutsOk_example :
    OutsOk 36 (do_io world true temp inquiry_params zero_outs base (some started) 0).outs
do_io-OutsOk_example =
    do_io-OutsOk world inquiry_params true temp zero_outs base (some started) 0 (omega arith)

disk-Clamped : Clamped disk
disk-Clamped calls cdb data_len is_write = omega arith

-- LOG SENSE for page 0x2F, with an allocation length of 16
abbrev log_sense_cdb : ℕ → ℕ
log_sense_cdb i = get_or (0x4D ∷ 0 ∷ 0x2F ∷ 0 ∷ 0 ∷ 0 ∷ 0 ∷ 0 ∷ 16 ∷ 0 ∷ []) i 0

abbrev log_command : ScsiCmd
log_command = record {
  scsi_data = 0x8000;
  scsi_length = 64;
  scsi_actual = 0;
  scsi_command = some log_sense_cdb;
  scsi_cmd_length = 10;
  scsi_cmd_actual = 0;
  autosense = true;
  scsi_status = 0;
  scsi_sense_data = 0x9000;
  scsi_sense_length = 18;
  scsi_sense_actual = 0;
}

abbrev names : Names
names = record {
  serial = record { len = 14; chars = λ i. 0x30 };
  ident = record { len = 26; chars = λ i. 0x30 };
}

fits :
    (cdb : ℕ → ℕ)
    → Path (Option (ℕ → ℕ)) (some log_sense_cdb) (some cdb)
    → byte cdb 0 ≡ 0x4D
    → allocation cdb ≤ 64
fits cdb same code =
    subst (λ c. allocation c ≤ 64) (some-injective log_sense_cdb cdb same) (omega arith)

parse_scsi_command-InBounds_example :
    InBounds log_command (parse_scsi_command disk names 60 (read_request 9) log_command 0)
parse_scsi_command-InBounds_example =
    parse_scsi_command-InBounds disk disk-Clamped (read_request 9) log_command 0 (omega arith) names
      60 fits

-- the unit with number 1 waits for the header at 0x100 in a DoIO call
abbrev waiting : Driver
waiting = record { shared = base; units = none ∷ some started ∷ [] }

waiting_owner : get_or waiting.units 1 none ≡ some started
waiting_owner = refl

route-waiting : route waiting 0x100 ≡ to_doio 1
unfolding route find_doio base started
route-waiting = refl

waiting_task : started.io_wait_task ≡ true
unfolding started
waiting_task = refl

deliver-wait_own_example :
    ((deliver waiting 0x100 36).1 ≡ signal_doio 1 ∷ [])
    × ((last : Waited) × (wait_own 50 5 1 0x100
            (λ retries driver. driver)
            (deliver waiting 0x100 36).0
          ≡ some last)
        × (last.found ≡ some 36)
        × (last.effects ≡ []))
deliver-wait_own_example =
    deliver-wait_own waiting 1 0x100 36 started waiting_owner route-waiting waiting_task 49 5
      (λ retries driver. driver)

-- the same with the unit's bit set, at an interrupt of the queue
abbrev marked : Driver
marked = record waiting { shared = record base { active_units_mask = 2 } }

interrupt-wakes_example : ((interrupt 1 marked).0 ≡ true) × (count 1 (interrupt 1 marked).1 ≡ 1)
unfolding started
interrupt-wakes_example = interrupt-wakes 1 marked 1 started (omega arith) refl
