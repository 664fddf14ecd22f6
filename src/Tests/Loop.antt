-- ===== src/Tests/Loop.antt =====
-- The event loop of src/unit_task.c at a started unit, and the buffers of a unit.
use virtual_scsidevice.Base.{
  ℕ, zero, suc, ◌≡◌, ◌++◌, refl, subst, true, false, none, some, List, [], ◌∷◌, if◌then◌else◌,
  arith,
}
use virtual_scsidevice.Request.{td_getgeometry}
use virtual_scsidevice.Chain.{range}
use virtual_scsidevice.Virtqueue.{get_buf}
use virtual_scsidevice.Virtqueue.Ends.{Pops, get_buf-Pops}
use virtual_scsidevice.Pipeline.{PipeUnit, max_inflight}
use virtual_scsidevice.Pipeline.Start.{preallocate_free_list}
use virtual_scsidevice.Pipeline.Slots.{table, SlotsOk}
use virtual_scsidevice.Pipeline.Finish.{replies}
use virtual_scsidevice.Pipeline.Harvest.{Driver, deliver, harvest}
use virtual_scsidevice.Flow.{
  Mail, takes_cookie, System, dispatches, delivers, Steps, start, later, Signals, Wakeup,
  serve_port, wake, dispatch_to,
}
use virtual_scsidevice.Flow.Invariant.{Inv, InOrder, Steps-Inv}
use virtual_scsidevice.Flow.Wake.{received, wake-Inv}
use virtual_scsidevice.Flow.Ends.{Ends, IsReadable, harvest-Ends}
use virtual_scsidevice.DoIo.Balance.{Resource, Balanced}
use virtual_scsidevice.Word.{vr16}
use virtual_scsidevice.UnitDma.{Answers, Buffers, preallocate_buffers, free_all}
use virtual_scsidevice.UnitDma.Balanced.{
  IsClear, held_by, preallocate_buffers-Balanced, preallocate_buffers-roll_back,
}
use virtual_scsidevice.UnitDma.Ready.{outcome, all_granted, all_given, preallocate_buffers-outcome}
use virtual_scsidevice.Tests.Requests.{read_request}
use virtual_scsidevice.Tests.Slots.{base, started, started-SlotsOk, no_dma}
use virtual_scsidevice.Tests.Task.{plain_services, sectors}

abbrev one_unit : Driver
one_unit = record { shared = base; units = none ∷ some started ∷ [] }

abbrev fresh : System
fresh = record { driver = one_unit; taken = []; replied = [] }

fresh-InOrder : InOrder one_unit.units
fresh-InOrder zero unit e = absurd (cc e)
fresh-InOrder (suc zero) unit e =
    let same : started ≡ unit = cc e in
    (
      range 0 max_inflight,
      subst (λ (x : PipeUnit). SlotsOk (table x) (range 0 max_inflight)) same started-SlotsOk,
    )
fresh-InOrder (suc (suc u)) unit e = absurd (cc e)

fresh-Inv : Inv fresh
unfolding started preallocate_free_list
fresh-Inv = record { in_order = fresh-InOrder; kept = λ id. refl }

abbrev two_and_geometry : List Mail
two_and_geometry =
    record { ioreq = read_request 9; dma = no_dma; size = sectors; meanwhile = [] }
    ∷ record { ioreq = read_request 10; dma = no_dma; size = sectors; meanwhile = [] }
    ∷ record {
      ioreq = record (read_request 11) { io_command = td_getgeometry };
      dma = no_dma;
      size = sectors;
      meanwhile = takes_cookie 0x100 36 ∷ [];
    }
    ∷ []

abbrev requests_wait : Signals
requests_wait = record { ctrl_c = false; io = false; port = true }

abbrev after_two : Wakeup
after_two = serve_port plain_services 0 1 true two_and_geometry one_unit []

two_wake : wake 1 plain_services 0 1 requests_wait two_and_geometry one_unit ≡ some after_two
unfolding wake
two_wake = refl

wake-Inv_example : Inv (record {
  driver = after_two.driver;
  taken = [] ++ received requests_wait two_and_geometry;
  replied = [] ++ replies after_two.effects;
})
wake-Inv_example =
    wake-Inv plain_services 0 1 1 requests_wait two_and_geometry fresh after_two (λ h r. refl)
      (started, refl) fresh-Inv two_wake

-- the first request is dispatched, and then some cookie is delivered
abbrev one_taken : System
one_taken = record {
  driver =
      (dispatch_to plain_services 1 started
        (record { ioreq = read_request 9; dma = no_dma; size = sectors; meanwhile = [] })
        one_unit).1;
  taken = read_request 9 ∷ [];
  replied =
      replies
        (dispatch_to plain_services 1 started
          (record { ioreq = read_request 9; dma = no_dma; size = sectors; meanwhile = [] })
          one_unit).2;
}

abbrev one_delivered : System
one_delivered = record one_taken {
  driver = (deliver one_taken.driver 0x100 0).0;
  replied = one_taken.replied ++ replies (deliver one_taken.driver 0x100 0).1;
}

one_run : Steps plain_services fresh one_delivered
one_run = later (later start (dispatches 1 started _ refl)) (delivers 0x100 0)

Steps-Inv_example : Inv one_delivered
Steps-Inv_example = Steps-Inv plain_services (λ h r. refl) one_run fresh-Inv

base-IsReadable : IsReadable base.vq
unfolding base vr16
base-IsReadable = record { size = omega arith; last_small = omega arith; used_small = omega arith }

harvest-Ends_example : Ends (harvest 1 one_unit)
unfolding base vr16
harvest-Ends_example = harvest-Ends 1 one_unit base-IsReadable (omega arith)

get_buf-Pops_example : Pops base.vq (get_buf base.vq)
get_buf-Pops_example = get_buf-Pops base.vq base-IsReadable.size

-- the second of two indices gets no memory for its response
abbrev plenty : Answers
plenty = record {
  req_buf = 0x1000;
  resp_buf = 0x2000;
  req_entries = 1;
  req_list = 0x3000;
  resp_entries = 1;
  resp_list = 0x4000;
  bounce_buf = 0x5000;
  bounce_entries = 2;
  bounce_list = 0x6000;
  bounce_phys = 0x7000;
  pool = 0x8000;
}

abbrev short_of_memory : ℕ → Answers
short_of_memory zero = plenty
short_of_memory (suc i) = record plenty { resp_buf = 0 }

abbrev no_buffers : Buffers
no_buffers = record {
  req_buf = 0;
  resp_buf = 0;
  req_list = 0;
  req_entries = 0;
  resp_list = 0;
  resp_entries = 0;
  bounce_buf = 0;
  bounce_phys = 0;
  bounce_entries = 0;
  pool = 0;
}

abbrev two_clear : List Buffers
two_clear = no_buffers ∷ no_buffers ∷ []

no_buffers-IsClear : IsClear no_buffers
no_buffers-IsClear = ((((refl, refl), refl, refl), refl, refl), (refl, refl), refl)

preallocate_buffers-Balanced_example :
    let p = preallocate_buffers short_of_memory two_clear in
    Balanced (p.calls ++ (free_all p.buffers).1)
preallocate_buffers-Balanced_example =
    preallocate_buffers-Balanced short_of_memory two_clear
      (no_buffers-IsClear, (no_buffers-IsClear, tt))

second_fails : (preallocate_buffers short_of_memory two_clear).ok ≡ false
unfolding preallocate_buffers
second_fails = refl

preallocate_buffers-roll_back_example :
    let p = preallocate_buffers short_of_memory two_clear in
    Balanced p.calls × ((r : Resource) (a : ℕ) → held_by r a p.buffers ≡ 0)
preallocate_buffers-roll_back_example =
    preallocate_buffers-roll_back short_of_memory two_clear
      (no_buffers-IsClear, (no_buffers-IsClear, tt)) second_fails

preallocate_buffers-outcome_example : outcome (preallocate_buffers short_of_memory two_clear) ≡ (
    if all_granted 0 short_of_memory two_clear
    then some (all_given 0 short_of_memory two_clear)
    else none)
preallocate_buffers-outcome_example = preallocate_buffers-outcome short_of_memory two_clear
