-- ===== src/Flow/Invariant.antt =====
-- All unit tasks together: the slots of every unit stay in order and no request is lost or replied
-- twice, in any interleaving of the steps of Flow.antt (src/unit_task.c,
-- src/virtio/virtio_scsi_io.c).
use virtual_scsidevice.Base.{
  ℕ, zero, suc, ◌+◌, ◌≡◌, ◌≢◌, ◌<◌, refl, ap, subst, Bool, true, false, if◌then◌else◌, if_ind,
  Option, none, some, List, [], ◌∷◌, ◌++◌, length, get_or, set, arith,
}
use virtual_scsidevice.Chain.{count}
use virtual_scsidevice.Request.{IoRequest}
use virtual_scsidevice.Pipeline.{
  Slot, PipeUnit, Effect, RespCmd, signal_doio, slot_at, max_inflight, idle_slot,
}
use virtual_scsidevice.Pipeline.Complete.{complete_held, complete_inflight_slot, complete_request}
use virtual_scsidevice.Pipeline.Slots.{table, SlotsOk}
use virtual_scsidevice.Pipeline.Finish.{replies, complete_request-Completes}
use virtual_scsidevice.Pipeline.Harvest.{
  Driver, Target, to_slot, to_doio, unmatched, put_unit, stash, complete_at, deliver, route,
}
use virtual_scsidevice.UnitTask.{Services, Handler, TaskState, dispatch}
use virtual_scsidevice.UnitTask.Dispatched.{Handed, dispatch-Handed}
use virtual_scsidevice.Flow.{
  Mail, System, Step, shares, memory, with_memory, with_unit_memory, dispatches, delivers, Steps,
  start, later, dispatch_to,
}
use virtual_scsidevice.Flow.Held.{
  occurs, occurs-append, slots_held, complete_request-held, dispatch-held,
}

abbrev pub unit_held : ℕ → Option PipeUnit → ℕ
unit_held id none = 0
unit_held id (some unit) = slots_held id unit.inflight

abbrev pub units_held : ℕ → List (Option PipeUnit) → ℕ
units_held id [] = 0
units_held id (unit ∷ units) = unit_held id unit + units_held id units

units_held-set :
    (id : ℕ) (units : List (Option PipeUnit)) (u : ℕ) (unit after : PipeUnit)
    → get_or units u none ≡ some unit
    → units_held id (set units u (some after)) + slots_held id unit.inflight
      ≡ units_held id units + slots_held id after.inflight
units_held-set id [] u unit after e = absurd (cc e)
units_held-set id (x ∷ units) zero unit after e = omega (arith, ap (unit_held id) e)
units_held-set id (x ∷ units) (suc u) unit after e =
    omega (arith, units_held-set id units u unit after e)

-- The slots of every unit are in order.
abbrev pub InOrder : List (Option PipeUnit) → Type 0
InOrder units =
    (u : ℕ) (unit : PipeUnit)
    → get_or units u none ≡ some unit
    → (free : List ℕ) × SlotsOk (table unit) free

abbrev UnitInOrder : Option PipeUnit → Type 0
UnitInOrder o = (unit : PipeUnit) → o ≡ some unit → (free : List ℕ) × SlotsOk (table unit) free

InOrder-set :
    (units : List (Option PipeUnit)) (u : ℕ) (after : PipeUnit) (free : List ℕ)
    → InOrder units
    → SlotsOk (table after) free
    → InOrder (set units u (some after))
InOrder-set [] u after free h ok v unit e = absurd (cc e)
InOrder-set (x ∷ units) zero after free h ok zero unit e =
    let same : after ≡ unit = cc e in
    (free, subst (λ (w : PipeUnit). SlotsOk (table w) free) same ok)
InOrder-set (x ∷ units) zero after free h ok (suc v) unit e = h (suc v) unit e
InOrder-set (x ∷ units) (suc u) after free h ok zero unit e = h zero unit e
InOrder-set (x ∷ units) (suc u) after free h ok (suc v) unit e =
    InOrder-set units u after free (λ w. h (suc w)) ok v unit e

-- Every request taken from a port is in one slot, or was replied once.
pub record Inv (s : System) : Type 0 where
  pub in_order : InOrder s.driver.units
  pub kept : (id : ℕ) → units_held id s.driver.units + occurs id s.replied ≡ occurs id s.taken

-- one step of a unit: what it takes from a port, and what it replies
abbrev pub UnitMoves : List (Option PipeUnit) → List IoRequest → Driver × List Effect → Type 0
UnitMoves units taken out =
    InOrder out.0.units
    × ((id : ℕ)
        → units_held id out.0.units + occurs id (replies out.1)
          ≡ units_held id units + occurs id taken)

Inv-moves :
    (s : System) (taken taken' : List IoRequest) (out : Driver × List Effect)
    → Inv s
    → ((id : ℕ) → occurs id taken' ≡ occurs id s.taken + occurs id taken)
    → UnitMoves s.driver.units taken out
    → Inv (record { driver = out.0; taken = taken'; replied = s.replied ++ replies out.1 })
Inv-moves s taken taken' out inv more h = record {
  in_order = h.0;
  kept =
      λ id. omega (arith, inv.kept id, h.1 id, more id, occurs-append id s.replied (replies out.1));
}

Handed-slots :
    (free : List ℕ) (ioreq : IoRequest) (kick : Bool) (st : TaskState)
    → Handed free ioreq (kick, st)
    → (after : List ℕ) × SlotsOk (table st.unit) after
Handed-slots free ioreq true st h = (h.1, h.3)
Handed-slots free ioreq false st h = (free, h.0)

pub dispatch_to-moves :
    (services : Services) (u : ℕ) (unit : PipeUnit) (mail : Mail) (driver : Driver)
    → ((h : Handler) (r : IoRequest) → (services.handler h r).id ≡ r.id)
    → get_or driver.units u none ≡ some unit
    → InOrder driver.units
    → UnitMoves driver.units
        (mail.ioreq ∷ [])
        ((dispatch_to services u unit mail driver).1, (dispatch_to services u unit mail driver).2)
unfolding dispatch_to
dispatch_to-moves services u unit mail driver same e ok =
    let (free, slots) = ok u unit e in
    let out = dispatch services mail.dma mail.size driver.shared unit mail.ioreq in
    let (after, slots') =
      Handed-slots free mail.ioreq out.0 out.1 (
        dispatch-Handed services mail.dma mail.size driver.shared unit free mail.ioreq same
          slots) in
    (
      InOrder-set driver.units u out.1.unit after ok slots',
      λ id. omega (
        arith,
        units_held-set id driver.units u unit out.1.unit e,
        dispatch-held id services mail.dma mail.size driver.shared unit free mail.ioreq same slots,
      ),
    )

holding_inside :
    (slots : List Slot) (i : ℕ) (r : IoRequest)
    → (get_or slots i idle_slot).ioreq ≡ some r
    → i < length slots
holding_inside [] i r h = absurd (cc h)
holding_inside (s ∷ slots) zero r h = omega arith
holding_inside (s ∷ slots) (suc i) r h = omega (arith, holding_inside slots i r h)

zero_unless : (n : ℕ) → (n ≢ 0 → ◌≡◌ {A = ℕ} 0 1) → n ≡ 0
zero_unless zero h = refl
zero_unless (suc n) h = absurd (omega (arith, h (λ e. omega (arith, e))))

holding_busy :
    (unit : PipeUnit) (free : List ℕ) (slot : ℕ) (r : IoRequest)
    → SlotsOk (table unit) free
    → (slot_at unit slot).ioreq ≡ some r
    → count slot free ≡ 0
holding_busy unit free slot r ok h =
    zero_unless (count slot free) (λ n. absurd (cc ((ok.idle slot n).no_request, h)))

-- A completion starts from any slot that holds a request: such a slot exists and is not free.
complete_held-moves :
    (driver : Driver) (u : ℕ) (unit : PipeUnit) (slot : ℕ) (held : Option IoRequest)
    → get_or driver.units u none ≡ some unit
    → (slot_at unit slot).ioreq ≡ held
    → InOrder driver.units
    → let out = complete_held held driver.shared unit slot in
      UnitMoves driver.units [] (record (put_unit driver u out.1) { shared = out.0 }, out.2)
unfolding complete_held replies
complete_held-moves driver u unit slot none e h ok =
    let (free, slots) = ok u unit e in
    (
      InOrder-set driver.units u unit free ok slots,
      λ id. omega (arith, units_held-set id driver.units u unit unit e),
    )
complete_held-moves driver u unit slot (some held) e h ok =
    let (free, slots) = ok u unit e in
    let inside : slot < max_inflight =
      omega (arith, holding_inside unit.inflight slot held h, slots.slot_size) in
    let busy : count slot free ≡ 0 = holding_busy unit free slot held slots h in
    let out = complete_request driver.shared unit slot held in
    let done = complete_request-Completes driver.shared unit slot free held slots inside busy in
    (
      InOrder-set driver.units u out.1 (slot ∷ free) ok done.0,
      λ id. omega (
        arith,
        units_held-set id driver.units u unit out.1 e,
        ap (occurs id) done.1,
        complete_request-held id driver.shared unit slot held
            (omega (arith, inside, slots.slot_size)) h,
      ),
    )

complete_at-moves :
    (driver : Driver) (u slot : ℕ) (o : Option PipeUnit)
    → get_or driver.units u none ≡ o
    → InOrder driver.units
    → UnitMoves driver.units [] (complete_at driver u slot)
unfolding complete_at complete_inflight_slot replies
complete_at-moves driver u slot none e ok = rw (e, complete_at) (ok, λ id. omega arith)
complete_at-moves driver u slot (some unit) e ok =
    rw (e, complete_at) (complete_held-moves driver u unit slot (slot_at unit slot).ioreq e refl ok)

-- The pending cookie is not among the fields of the slots.
stash-moves :
    (driver : Driver) (u cookie written : ℕ) (o : Option PipeUnit)
    → get_or driver.units u none ≡ o
    → InOrder driver.units
    → UnitMoves driver.units [] (stash driver u cookie written)
unfolding replies
stash-moves driver u cookie written none e ok = rw (e, stash) (ok, λ id. omega arith)
stash-moves driver u cookie written (some owner) e ok =
    let (free, slots) = ok u owner e in
    let after = record owner { doio_pending_cookie = cookie; doio_pending_written = written } in
    let quiet : replies (if owner.io_wait_task then signal_doio u ∷ [] else []) ≡ [] =
      if_ind (λ es. replies es ≡ []) owner.io_wait_task (signal_doio u ∷ []) [] (λ _. refl)
        (λ _. refl) in
    rw (e, stash)
      (
        InOrder-set driver.units u after free ok slots,
        λ id. omega (arith, units_held-set id driver.units u owner after e, ap (occurs id) quiet),
      )

memory-moves :
    (driver : Driver) (u : ℕ) (resp_bufs : List RespCmd) (cookie written : ℕ) (o : Option PipeUnit)
    → get_or driver.units u none ≡ o
    → InOrder driver.units
    → let after = with_unit_memory u resp_bufs cookie written driver in
      InOrder after.units × ((id : ℕ) → units_held id after.units ≡ units_held id driver.units)
memory-moves driver u resp_bufs cookie written none e ok = rw (e, with_unit_memory) (ok, λ id. refl)
memory-moves driver u resp_bufs cookie written (some unit) e ok =
    let (free, slots) = ok u unit e in
    let after = with_memory resp_bufs cookie written unit in
    rw (e, with_unit_memory)
      (
        InOrder-set driver.units u after free ok slots,
        λ id. omega (arith, units_held-set id driver.units u unit after e),
      )

deliver_target-moves :
    (driver : Driver) (cookie written : ℕ) (target : Target)
    → InOrder driver.units
    → UnitMoves driver.units [] (elim target [
      | to_slot u slot ↦ complete_at driver u slot
      | to_doio u ↦ stash driver u cookie written
      | unmatched ↦ (driver, [])
    ])
unfolding replies
deliver_target-moves driver cookie written (to_slot u slot) ok =
    complete_at-moves driver u slot _ refl ok
deliver_target-moves driver cookie written (to_doio u) ok =
    stash-moves driver u cookie written _ refl ok
deliver_target-moves driver cookie written unmatched ok = (ok, λ id. omega arith)

-- When the slots of every unit are in order, the delivery of any cookie keeps them so, and replies
-- exactly the requests that it takes from the slots.
deliver-moves :
    (driver : Driver) (cookie written : ℕ)
    → InOrder driver.units
    → UnitMoves driver.units [] (deliver driver cookie written)
unfolding deliver
deliver-moves driver cookie written ok =
    deliver_target-moves driver cookie written (route driver cookie) ok

-- Every step keeps the invariant: the slots of all units in order, and each request taken from a port
-- either in one slot or replied once. The handlers are taken to keep a request's address.
Step-Inv :
    (services : Services) {s t : System}
    → ((h : Handler) (r : IoRequest) → (services.handler h r).id ≡ r.id)
    → Step services s t
    → Inv s
    → Inv t
Step-Inv services same (shares shared) inv = record { in_order = inv.in_order; kept = inv.kept }
Step-Inv services {s} same (memory u resp_bufs cookie written) inv =
    let h = memory-moves s.driver u resp_bufs cookie written _ refl inv.in_order in
    record { in_order = h.0; kept = λ id. omega (arith, h.1 id, inv.kept id) }
Step-Inv services {s} same (dispatches u unit mail e) inv =
    Inv-moves s (mail.ioreq ∷ []) _
      ((dispatch_to services u unit mail s.driver).1, (dispatch_to services u unit mail s.driver).2)
      inv (λ id. occurs-append id s.taken (mail.ioreq ∷ []))
      (dispatch_to-moves services u unit mail s.driver same e inv.in_order)
Step-Inv services {s} same (delivers cookie written) inv =
    Inv-moves s [] s.taken (deliver s.driver cookie written) inv (λ id. omega arith)
      (deliver-moves s.driver cookie written inv.in_order)

pub Steps-Inv :
    (services : Services) {s t : System}
    → ((h : Handler) (r : IoRequest) → (services.handler h r).id ≡ r.id)
    → Steps services s t
    → Inv s
    → Inv t
Steps-Inv services same start inv = inv
Steps-Inv services same (later steps step) inv =
    Step-Inv services same step (Steps-Inv services same steps inv)
