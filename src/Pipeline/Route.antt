-- ===== src/Pipeline/Route.antt =====
-- The routing of a completed cookie back to the slot that sent it.
use virtual_scsidevice.Base.{
  ℕ, ◌+◌, ◌*◌, ◌/◌, ◌%◌, ◌<◌, ◌≡◌, refl, ◌∙◌, ◌==◌, ==_iff, true, none, some, List, get_or, set,
  arith,
}
use virtual_scsidevice.Chain.{count}
use virtual_scsidevice.Word.{u32, passes, passes-below}
use virtual_scsidevice.Request.{IoRequest}
use virtual_scsidevice.Pipeline.{PipeUnit, Shared, Effect, Slot, slot_at, max_inflight, max_units}
use virtual_scsidevice.Pipeline.Submit.{request_id}
use virtual_scsidevice.Pipeline.Complete.{complete_inflight_slot}
use virtual_scsidevice.Pipeline.Harvest.{
  Driver, to_slot, route, matches, has_request, deliver, complete_at,
}
use virtual_scsidevice.Pipeline.Slots.{table, SlotsOk}
use virtual_scsidevice.Pipeline.Finish.{Completes, complete_inflight_slot-SlotsOk}

-- The id packs unit and slot side by side, for every unit and slot that there can be.
request_id_sum :
    (u slot : ℕ) → u < max_units → slot < max_inflight → request_id u slot ≡ u * 65536 + slot
unfolding request_id passes
request_id_sum u slot lu ls =
    let packed = λ (v s : ℕ). request_id v s == (v * 65536 + s) in
    let of_unit = λ (v : ℕ). passes (packed v) max_inflight in
    (==_iff (request_id u slot) (u * 65536 + slot)).0
      (passes-below (packed u) max_inflight slot (passes-below of_unit max_units u refl lu) ls)

-- The cookie is the address of slot `slot` of unit `u`, where a request is in flight, and the
-- request header there carries the id that Submit gave it.
pub record InFlight (driver : Driver) (u slot cookie : ℕ) (unit : PipeUnit) (free : List ℕ)
    : Type 0 where
  pub unit_small : u < max_units
  pub slot_small : slot < max_inflight
  pub here : get_or driver.units u none ≡ some unit
  pub slots : SlotsOk (table unit) free
  pub taken : count slot free ≡ 0
  pub own : get_or unit.req_bufs slot 0 ≡ cookie
  pub sent_id : (driver.shared.req_mem cookie).id ≡ request_id u slot

has_request-some : (s : Slot) (r : IoRequest) → s.ioreq ≡ some r → has_request s ≡ true
has_request-some s r e = rw e refl

-- A cookie in flight, in a unit whose slots are in order, is routed to its own slot, and not to
-- a DoIO call or to another unit.
route-InFlight :
    (driver : Driver) (u slot cookie : ℕ) (unit : PipeUnit) (free : List ℕ)
    → InFlight driver u slot cookie unit free
    → route driver cookie ≡ to_slot u slot
unfolding route
route-InFlight driver u slot cookie unit free f =
    let busy = f.slots.busy slot f.slot_small f.taken in
    let id = (driver.shared.req_mem cookie).id in
    let sum : id ≡ u * 65536 + slot = f.sent_id ∙ request_id_sum u slot f.unit_small f.slot_small in
    let unit_of : u32 (id / 65536) ≡ u = omega (arith, sum, f.unit_small, f.slot_small) in
    let slot_of_id : id % 65536 ≡ slot = omega (arith, sum, f.slot_small) in
    let held : matches (some unit) slot cookie ≡ true =
      rw
        (busy.own_cookie, f.own, has_request-some (slot_at unit slot) busy.request.0 busy.request.1)
        (ground arith) in
    rw (unit_of, slot_of_id, f.here, held) (ground (arith, f.unit_small, f.slot_small))

-- The drain loop completes a cookie in flight: the request in its slot is replied, once, and its
-- slot, of its own unit, is the one that becomes free.
pub deliver-InFlight :
    (driver : Driver) (u slot cookie written : ℕ) (unit : PipeUnit) (free : List ℕ)
    → InFlight driver u slot cookie unit free
    → (held : IoRequest) × ((slot_at unit slot).ioreq ≡ some held)
      × (out : Shared × PipeUnit × List Effect) × Completes driver.shared unit slot free held out
      × (deliver driver cookie written
          ≡ (record driver { shared = out.0; units = set driver.units u (some out.1) }, out.2))
unfolding deliver complete_at
deliver-InFlight driver u slot cookie written unit free f =
    let (held, e, done) =
      complete_inflight_slot-SlotsOk driver.shared unit slot free f.slots f.slot_small f.taken in
    (
      held,
      e,
      complete_inflight_slot driver.shared unit slot,
      done,
      rw (route-InFlight driver u slot cookie unit free f, deliver, f.here, complete_at) refl,
    )
