-- ===== src/Pipeline/Roundtrip.antt =====
-- A request through the pipeline: submitted on a unit, found again by its cookie, and replied.
use virtual_scsidevice.Base.{
  ℕ, ◌<◌, ◌≡◌, sym, ap, ◌∙◌, subst, Bool, none, some, List, [], ◌∷◌, length, get_or, set,
  get_or-set_self, length-set, arith,
}
use mathlib.Core.Option.{some-injective}
use virtual_scsidevice.Chain.{count_head}
use virtual_scsidevice.Request.{IoRequest}
use virtual_scsidevice.Pipeline.{PipeUnit, Effect, no_resp, slot_at, max_units}
use virtual_scsidevice.Pipeline.Submit.{DmaAnswer, Submitted, submitted, submit, request_id}
use virtual_scsidevice.Pipeline.Complete.{finish_request}
use virtual_scsidevice.Pipeline.Harvest.{Driver, deliver}
use virtual_scsidevice.Pipeline.Slots.{table, SlotsOk}
use virtual_scsidevice.Pipeline.Finish.{replies}
use virtual_scsidevice.Pipeline.Keep.{SubmitPost, submit-SlotsOk}
use virtual_scsidevice.Pipeline.Route.{InFlight, deliver-InFlight}

-- the driver after a call of Submit for unit `u`
abbrev pub after_submit : Driver → ℕ → Submitted → Driver
after_submit driver u out = record driver {
  shared = out.shared;
  units = set driver.units u (some out.unit);
}

-- The reply to the request in slot `slot`, and the unit with its slots afterwards.
abbrev pub Replied : Driver → ℕ → Submitted → ℕ → List ℕ → IoRequest → Driver × List Effect → Type 0
Replied driver u out slot free ioreq answer =
    (replies answer.1
      ≡ finish_request out.shared.vq.modern (get_or out.unit.resp_bufs slot no_resp) ioreq ∷ [])
    × (unit' : PipeUnit) × (get_or answer.0.units u none ≡ some unit')
    × SlotsOk (table unit') free

deliver-Replied :
    (driver : Driver) (u slot cookie written : ℕ) (out : Submitted) (rest : List ℕ)
    (ioreq : IoRequest)
    → u < length driver.units
    → (slot_at out.unit slot).ioreq ≡ some ioreq
    → InFlight (after_submit driver u out) u slot cookie out.unit rest
    → Replied driver u out slot
        (slot ∷ rest)
        ioreq
        (deliver (after_submit driver u out) cookie written)
deliver-Replied driver u slot cookie written out rest ioreq inside holds f =
    let (held, e, answer, done, same) =
      deliver-InFlight (after_submit driver u out) u slot cookie written out.unit rest f in
    let held_same : held ≡ ioreq = some-injective held ioreq (sym e ∙ holds) in
    let units' = set driver.units u (some out.unit) in
    let inside' : u < length units' =
      subst (λ n. u < n) (sym (length-set driver.units u (some out.unit))) inside in
    let reply = λ (h : IoRequest).
      finish_request out.shared.vq.modern (get_or out.unit.resp_bufs slot no_resp) h ∷ [] in
    (
      ap (λ x. replies x.1) same ∙ (done.1 ∙ ap reply held_same),
      answer.1,
      ap (λ x. get_or x.0.units u none) same
          ∙ get_or-set_self units' u (some answer.1) none inside',
      done.0,
    )

submitted-deliver :
    (driver : Driver) (u : ℕ) (unit : PipeUnit) (out : Submitted) (free : List ℕ)
    (ioreq : IoRequest) (written : ℕ)
    → u < max_units
    → u < length driver.units
    → unit.unit_num ≡ u
    → SlotsOk (table unit) free
    → SubmitPost unit free driver.shared ioreq submitted out
    → (slot : ℕ) × (rest : List ℕ) × (free ≡ slot ∷ rest)
      × Replied driver u out slot free ioreq
          (deliver (after_submit driver u out) (get_or unit.req_bufs slot 0) written)
submitted-deliver driver u unit out free ioreq written small inside own ok
      (slot, rest, cut, ok', holds, counted, same_id, bufs) =
    let ok1 = subst (SlotsOk (table unit)) cut ok in
    let cookie = get_or unit.req_bufs slot 0 in
    let f : InFlight (after_submit driver u out) u slot cookie out.unit rest = record {
      unit_small = small;
      slot_small = ok1.below slot (λ e. omega (arith, e, count_head slot rest));
      here = get_or-set_self driver.units u (some out.unit) none inside;
      slots = ok';
      taken = omega (arith, ok1.distinct slot, count_head slot rest);
      own = ap (λ l. get_or l slot 0) bufs;
      sent_id = same_id ∙ ap (λ k. request_id k slot) own;
    } in
    (
      slot,
      rest,
      cut,
      subst
          (λ l.
            Replied driver u out slot l ioreq (deliver (after_submit driver u out) cookie written))
          (sym cut) (deliver-Replied driver u slot cookie written out rest ioreq inside holds f),
    )

-- For a unit of the driver whose slots are in order: when Submit accepts a request, delivering
-- its cookie in the state after the call replies this request, alone, with the response of its
-- slot, and the slot is free again, so that the unit's free list is the one from before the
-- call.
pub submit-deliver :
    (dma : DmaAnswer) (driver : Driver) (u : ℕ) (unit : PipeUnit) (free : List ℕ)
    (ioreq : IoRequest) (cdb : List ℕ) (is_write : Bool) (written : ℕ)
    → u < max_units
    → u < length driver.units
    → unit.unit_num ≡ u
    → SlotsOk (table unit) free
    → (submit dma driver.shared unit ioreq cdb is_write).result ≡ submitted
    → let out = submit dma driver.shared unit ioreq cdb is_write in
      (slot : ℕ) × (rest : List ℕ) × (free ≡ slot ∷ rest)
      × Replied driver u out slot free ioreq
          (deliver (after_submit driver u out) (get_or unit.req_bufs slot 0) written)
submit-deliver dma driver u unit free ioreq cdb is_write written small inside own ok sent =
    let out = submit dma driver.shared unit ioreq cdb is_write in
    submitted-deliver driver u unit out free ioreq written small inside own ok (
      subst (λ r. SubmitPost unit free driver.shared ioreq r out) sent
        (submit-SlotsOk dma driver.shared unit free ioreq cdb is_write ok))
