-- ===== src/BeginIo/Conserve.antt =====
-- Where the requests are that callers handed to BeginIO: on the unit, replied, or with a caller that
-- asked for a quick answer. Requests are told apart by their address.
use virtual_scsidevice.Base.{
  ℕ, ◌+◌, false, Option, none, some, inl, inr, List, [], ◌∷◌, ◌++◌, ◌≡◌, refl, subst, Bool-cases,
  arith,
}
use virtual_scsidevice.Chain.{count}
use virtual_scsidevice.Errors.{IoError, no_error, ioerr_aborted, ioerr_openfail, ioerr_nocmd}
use virtual_scsidevice.Request.{IoRequest}
use virtual_scsidevice.BeginIo.{
  RequestUnit, Outcome, DeviceQuery, Group, hold_changeint, hold_remove, reply_changeint, motor,
  position, change_number, change_state, prot_status, drive_type, query_device, queue, unknown,
  group, finish, reply_with, run_group, begin_io, device_query, port_of, put_msg, remchangeint,
  hold_changeint_req, hold_remove_req, td_changenum_actual, td_changestate_actual, drive3_5,
}

abbrev pub ids : List IoRequest → List ℕ
ids [] = []
ids (r ∷ rs) = r.id ∷ ids rs

abbrev pub held_ids : Option IoRequest → List ℕ
held_ids none = []
held_ids (some r) = r.id ∷ []

abbrev pub queue_ids : Option (List IoRequest) → List ℕ
queue_ids none = []
queue_ids (some rs) = ids rs

-- how often a request is kept on the unit: held, or in the port's queue
unfoldable pub kept : ℕ → Option RequestUnit → ℕ
kept j none = 0
kept j (some unit) =
    count j (held_ids unit.changeint_req)
    + count j (held_ids unit.remove_req)
    + count j (queue_ids unit.io_port)

-- how often a call gives a request back: by ReplyMsg or to its quick caller
abbrev pub given_back : ℕ → Outcome → ℕ
given_back j out = count j (ids out.replied) + count j (held_ids out.returned)

pub ids-append :
    (j : ℕ) (rs ss : List IoRequest)
    → count j (ids (rs ++ ss)) ≡ count j (ids rs) + count j (ids ss)
ids-append j [] ss = omega arith
ids-append j (r ∷ rs) ss = omega (arith, ids-append j rs ss)

pub ids-reply_with :
    (j : ℕ) (err : IoError) (r : Option IoRequest)
    → count j (ids (reply_with err r)) ≡ count j (held_ids r)
ids-reply_with j err none = refl
ids-reply_with j err (some r) = refl

-- A call that begins a request of address `id` gives it back or keeps it, and moves no other.
abbrev pub Conserves : Option RequestUnit → ℕ → Outcome → Type 0
Conserves unit id out =
    (j : ℕ) → given_back j out + kept j out.unit ≡ count j (id ∷ []) + kept j unit

finish-Conserves :
    (unit : Option RequestUnit) (req : IoRequest) (query : Option DeviceQuery)
    → Conserves unit req.id (finish unit req query)
finish-Conserves unit req query j = elim (Bool-cases req.quick) [
  | inl e ↦ rw e (omega arith)
  | inr e ↦ rw e (omega arith)
]

device_query_id : (req : IoRequest) → (device_query req).0.id ≡ req.id
unfolding device_query
device_query_id req = ground arith

put_msg-Conserves :
    (unit : Option RequestUnit) (port : Option (List IoRequest)) (req : IoRequest)
    → port_of unit ≡ port
    → Conserves unit req.id (put_msg unit port req)
unfolding kept
put_msg-Conserves unit none req e j =
    finish-Conserves unit (record req { io_error = ioerr_openfail }) none j
put_msg-Conserves none (some port) req e j = cc
put_msg-Conserves (some unit) (some port) req e j =
    rw e (omega (arith, ids-append j port (record req { quick = false } ∷ [])))

remchangeint-Conserves :
    (unit : Option RequestUnit) (req : IoRequest) → Conserves unit req.id (remchangeint unit req)
unfolding kept
remchangeint-Conserves none req j = finish-Conserves none req none j
remchangeint-Conserves (some unit) req j =
    let done = finish (some (record unit { changeint_req = none })) req none in
    omega (
      arith,
      finish-Conserves (some (record unit { changeint_req = none })) req none j,
      ids-append j (reply_with no_error unit.changeint_req) done.replied,
      ids-reply_with j no_error unit.changeint_req,
    )

hold_changeint_req-Conserves :
    (unit : Option RequestUnit) (req : IoRequest)
    → Conserves unit req.id (hold_changeint_req unit req)
unfolding kept
hold_changeint_req-Conserves none req j =
    finish-Conserves none (record req { io_error = ioerr_openfail }) none j
hold_changeint_req-Conserves (some unit) req j =
    omega (arith, ids-reply_with j ioerr_aborted unit.changeint_req)

hold_remove_req-Conserves :
    (unit : Option RequestUnit) (req : IoRequest) → Conserves unit req.id (hold_remove_req unit req)
unfolding kept
hold_remove_req-Conserves none req j =
    finish-Conserves none (record req { io_error = ioerr_openfail }) none j
hold_remove_req-Conserves (some unit) req j =
    omega (arith, ids-reply_with j ioerr_aborted unit.remove_req)

run_group-Conserves :
    (g : Group) (unit : Option RequestUnit) (req : IoRequest)
    → Conserves unit req.id (run_group g unit req)
unfolding run_group
run_group-Conserves hold_changeint unit req = hold_changeint_req-Conserves unit req
run_group-Conserves hold_remove unit req = hold_remove_req-Conserves unit req
run_group-Conserves reply_changeint unit req = remchangeint-Conserves unit req
run_group-Conserves query_device unit req =
    let (answer, query) = device_query req in
    subst (λ i. Conserves unit i (finish unit answer query)) (device_query_id req)
      (finish-Conserves unit answer query)
run_group-Conserves queue unit req = put_msg-Conserves unit (port_of unit) req refl
run_group-Conserves motor unit req = finish-Conserves unit (record req { io_actual = 1 }) none
run_group-Conserves position unit req = finish-Conserves unit req none
run_group-Conserves change_number unit req =
    finish-Conserves unit (record req { io_actual = td_changenum_actual unit }) none
run_group-Conserves change_state unit req =
    finish-Conserves unit (record req { io_actual = td_changestate_actual unit }) none
run_group-Conserves prot_status unit req = finish-Conserves unit (record req { io_actual = 0 }) none
run_group-Conserves drive_type unit req =
    finish-Conserves unit (record req { io_actual = drive3_5 }) none
run_group-Conserves unknown unit req =
    finish-Conserves unit (record req { io_error = ioerr_nocmd }) none

-- BeginIO loses no request and duplicates none: for every address, as often as a request of that
-- address was kept on the unit or is begun now, it is afterwards replied, left with its quick
-- caller, or kept on the unit.
pub begin_io-conserves :
    (unit : Option RequestUnit) (req : IoRequest) (j : ℕ)
    → given_back j (begin_io unit req) + kept j (begin_io unit req).unit
      ≡ count j (req.id ∷ []) + kept j unit
unfolding begin_io
begin_io-conserves unit req j =
    run_group-Conserves (group req.io_command) unit (record req { io_error = no_error }) j
