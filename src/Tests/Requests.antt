-- ===== src/Tests/Requests.antt =====
-- Requests at one unit, for src/BeginIO.c.
use virtual_scsidevice.Base.{ℕ, ◌+◌, ◌≡◌, true, none, some, [], ◌∷◌}
use virtual_scsidevice.Chain.{count}
use virtual_scsidevice.Errors.{no_error}
use virtual_scsidevice.Request.{IoRequest, cmd_read, td_addchangeint}
use virtual_scsidevice.BeginIo.{RequestUnit, begin_io, abort_io}
use virtual_scsidevice.BeginIo.Conserve.{given_back, kept, begin_io-conserves}
use virtual_scsidevice.BeginIo.Abort.{Aborts, abort_io-Aborts}

-- a read of one block at `id`
abbrev pub read_request : ℕ → IoRequest
read_request id = record {
  id = id;
  io_command = cmd_read;
  io_error = no_error;
  quick = true;
  io_actual = 0;
  io_length = 512;
  io_offset = 4096;
  io_data = 0x8000;
}

abbrev change_request : ℕ → IoRequest
change_request id = record (read_request id) { io_command = td_addchangeint }

-- a running unit with a held request and two queued ones
abbrev running : RequestUnit
running = record {
  changeint_req = some (change_request 1);
  remove_req = none;
  change_count = 0;
  media_present = true;
  io_port = some (read_request 2 ∷ read_request 3 ∷ []);
  port_mutex = true;
}

begin_io-conserves_example :
    given_back 1 (begin_io (some running) (change_request 4))
      + kept 1 (begin_io (some running) (change_request 4)).unit
    ≡ count 1 (4 ∷ []) + kept 1 (some running)
begin_io-conserves_example = begin_io-conserves (some running) (change_request 4) 1

abort_io-Aborts_example : Aborts running (read_request 3) (abort_io (some running) (read_request 3))
abort_io-Aborts_example = abort_io-Aborts running (read_request 3)
