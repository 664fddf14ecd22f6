-- ===== src/Pipeline/Keep.antt =====
-- Submit and the completion of a slot keep the invariant of the slots.
use virtual_scsidevice.Base.{
  ℕ, ◌+◌, ◌≡◌, refl, sym, ap, ◌∙◌, subst, Bool, true, false, not, ◌&&◌, ◌||◌, leb, ltb, ◌==◌,
  if◌then◌else◌, Option, none, some, List, [], ◌∷◌, ◌++◌, length, get_or, if_ind, arith,
}
use virtual_scsidevice.Chain.{count_head}
use virtual_scsidevice.Errors.{IoError, hferr_dma, tderr_not_specified}
use virtual_scsidevice.Request.{IoRequest}
use virtual_scsidevice.Word.{u32}
use virtual_scsidevice.Virtqueue.{Sg, add_buf}
use virtual_scsidevice.Pipeline.{
  Slot, ReqCmd, PipeUnit, Shared, Effect, slot_at, next_slot, submit_release_slot, unmap,
  max_sg_entries, bounce_buf_size,
}
use virtual_scsidevice.Pipeline.Submit.{
  DmaAnswer, SubmitResult, submitted, no_slot, failed, Submitted, Mapped, map_bounce, map_direct,
  map_direct_failed, map_direct_started, map_direct_refused, map_direct_done, map_nothing, map_data,
  give_up, unmapped, unmap_effects, rolled_back, occupied, accept, send, submit_slot, submit_from,
  submit, sg_chain, fill_req, request_id, store, reset_resp,
}
use virtual_scsidevice.Pipeline.Slots.{
  table, IsIdle, IsBusy, SlotsOk, SlotTaken, take_slot, put_taken, put_self, release_slot,
  occupy_slot,
}

pub not-true : (b : Bool) → not b ≡ true → b ≡ false
not-true true e = cc
not-true false e = refl

-- Mapping the data does not touch the slot's request and cookie, nor, when it fails, its mapping.
abbrev pub Maps : Slot → Mapped → Type 0
Maps s m =
    (m.slot.ioreq ≡ s.ioreq)
    × (m.slot.cookie ≡ s.cookie)
    × ((m.ok ≡ false) → m.slot.dma_list ≡ s.dma_list)

pub map_data-Maps :
    (dma : DmaAnswer) (pool : Bool) (slot : ℕ) (s : Slot) (ioreq : IoRequest) (is_write : Bool)
    → Maps s (map_data dma pool slot s ioreq is_write)
unfolding map_data
map_data-Maps dma pool slot s ioreq is_write =
    let s0 = record s { is_write = is_write; using_bounce = false } in
    let some_data = (not (ioreq.io_data == 0) && ltb 0 ioreq.io_length) in
    if_ind (Maps s) (some_data && leb ioreq.io_length bounce_buf_size)
      (map_bounce slot s0 ioreq is_write)
      (if some_data then map_direct dma pool s0 ioreq is_write else map_nothing s0)
      (λ _. (refl, refl, λ e. cc))
      (λ _.
        if_ind (Maps s) some_data (map_direct dma pool s0 ioreq is_write) (map_nothing s0)
          (λ _.
            if_ind (Maps s) (dma.entries == 0) (map_direct_failed s0 ioreq is_write)
              (map_direct_started dma pool s0 ioreq is_write) (λ _. (refl, refl, λ e. refl))
              (λ _.
                if_ind (Maps s) (not pool || ltb max_sg_entries dma.entries)
                  (map_direct_refused s0 ioreq is_write) (map_direct_done dma s0 ioreq is_write)
                  (λ _. (refl, refl, λ e. refl)) (λ _. (refl, refl, λ e. cc))))
          (λ _. (refl, refl, λ e. cc)))

unmap-IsIdle :
    (l : Option (List Sg)) (s : Slot)
    → s.dma_list ≡ l
    → s.ioreq ≡ none
    → s.cookie ≡ 0
    → IsIdle (unmap l s)
unmap-IsIdle none s e r c = record { no_request = r; no_cookie = c; no_mapping = e }
unmap-IsIdle (some l) s e r c = record { no_request = r; no_cookie = c; no_mapping = refl }

rolled_back-IsIdle :
    (l : Option (List Sg)) (s : Slot) → s.dma_list ≡ l → (unmap l s).dma_list ≡ none
rolled_back-IsIdle none s e = e
rolled_back-IsIdle (some l) s e = refl

store_self : (mem : ℕ → ReqCmd) (addr : ℕ) (req : ReqCmd) → store mem addr req addr ≡ req
store_self mem addr req = ground arith

-- What Submit leaves, by its result.
abbrev pub SubmitPost : PipeUnit → List ℕ → Shared → IoRequest → SubmitResult → Submitted → Type 0
SubmitPost unit free shared ioreq submitted out =
    (slot : ℕ) × (rest : List ℕ) × (free ≡ slot ∷ rest)
    × SlotsOk (table out.unit) rest
    × ((slot_at out.unit slot).ioreq ≡ some ioreq)
    × (out.shared.occupied_count ≡ u32 (shared.occupied_count + 1))
    × ((out.shared.req_mem (get_or unit.req_bufs slot 0)).id ≡ request_id unit.unit_num slot)
    × (out.unit.req_bufs ≡ unit.req_bufs)
SubmitPost unit free shared ioreq no_slot out =
    (free ≡ []) × (out.unit ≡ unit) × (out.shared ≡ shared)
SubmitPost unit free shared ioreq (failed err) out =
    SlotsOk (table out.unit) free
    × (out.shared.vq ≡ shared.vq)
    × (out.shared.occupied_count ≡ shared.occupied_count)
    × (out.unit.inflight_count ≡ unit.inflight_count)

module _ (unit : PipeUnit) (slot : ℕ) (rest : List ℕ) (shared0 : Shared) (ioreq : IoRequest)
    (taken : SlotTaken (record (table unit) { head = next_slot unit slot }) slot rest) where
  Post : Submitted → Type 0
  Post out = SubmitPost unit (slot ∷ rest) shared0 ioreq out.result out

  -- the unit within Submit: the slot is taken and its response is reset
  abbrev inner : PipeUnit
  inner = record unit { free_head = next_slot unit slot; resp_bufs = reset_resp unit slot }

  give_up-Post :
      (err : IoError) (shared : Shared) (s : Slot) (effects : List Effect)
      → shared.vq ≡ shared0.vq
      → shared.occupied_count ≡ shared0.occupied_count
      → IsIdle s
      → Post (give_up err shared inner slot s effects)
  unfolding submit_release_slot Post
  give_up-Post err shared s effects same_vq same_count idle = (
    release_slot _ slot rest (put_taken _ slot rest taken s)
        (subst IsIdle (sym (put_self _ slot rest taken s)) idle),
    same_vq,
    same_count,
    refl,
  )

  send-Post :
      (dma : DmaAnswer) (shared : Shared) (s : Slot) (effects : List Effect)
      → shared.vq ≡ shared0.vq
      → shared.occupied_count ≡ shared0.occupied_count
      → (shared.req_mem (get_or unit.req_bufs slot 0)).id ≡ request_id unit.unit_num slot
      → Post (send dma shared inner slot s effects ioreq)
  unfolding send Post
  send-Post dma shared s effects same_vq same_count same_id =
      let (out, in_) = sg_chain inner slot s in
      let cookie = get_or unit.req_bufs slot 0 in
      let (sent, vq) = add_buf dma.table shared.vq (out ++ in_) (length out) (length in_) cookie in
      let s' = occupied s slot cookie ioreq in
      let self = put_self _ slot rest taken s' in
      if_ind Post (not sent)
        (give_up tderr_not_specified shared inner slot (rolled_back s slot)
          (effects ++ unmap_effects s))
        (accept vq shared inner slot s effects ioreq)
        (λ _.
          give_up-Post tderr_not_specified shared (rolled_back s slot) (effects ++ unmap_effects s)
            same_vq same_count
            (record {
              no_request = refl;
              no_cookie = refl;
              no_mapping = rolled_back-IsIdle s.dma_list s refl;
            }))
        (λ _. (
          slot,
          rest,
          refl,
          occupy_slot _ slot rest (put_taken _ slot rest taken s') (
              subst (λ x. IsBusy x cookie) (sym self)
                (record { request = (ioreq, refl); own_cookie = refl })),
          ap (λ x. x.ioreq) self,
          ap (λ n. u32 (n + 1)) same_count,
          same_id,
          refl,
        ))

  submit_slot-Post :
      (dma : DmaAnswer) (cdb : List ℕ) (is_write : Bool)
      → IsIdle (slot_at unit slot)
      → Post (submit_slot dma shared0 unit slot ioreq cdb is_write)
  unfolding submit_slot fill_req
  submit_slot-Post dma cdb is_write idle =
      let shared = record shared0 {
        req_mem = store shared0.req_mem (get_or unit.req_bufs slot 0) (fill_req unit slot cdb);
      } in
      let buf = get_or unit.req_bufs slot 0 in
      let sent_id : (shared.req_mem buf).id ≡ request_id unit.unit_num slot =
        ap (λ r. r.id) (store_self shared0.req_mem buf (fill_req unit slot cdb)) in
      let pool = get_or unit.data_dma_pool slot false in
      let m = map_data dma pool slot (slot_at unit slot) ioreq is_write in
      let maps = map_data-Maps dma pool slot (slot_at unit slot) ioreq is_write in
      let none_yet : m.slot.ioreq ≡ none = maps.0 ∙ idle.no_request in
      let no_cookie_yet : m.slot.cookie ≡ 0 = maps.1 ∙ idle.no_cookie in
      let (out, in_) = sg_chain inner slot m.slot in
      if_ind Post (not m.ok) (give_up hferr_dma shared inner slot m.slot m.effects)
        (if ltb max_sg_entries (length out + length in_)
          then give_up hferr_dma shared inner slot (unmapped m.slot)
              (m.effects ++ unmap_effects m.slot)
          else send dma shared inner slot m.slot m.effects ioreq)
        (λ bad. give_up-Post hferr_dma shared m.slot m.effects refl refl (record {
          no_request = none_yet;
          no_cookie = no_cookie_yet;
          no_mapping = maps.2 (not-true m.ok bad) ∙ idle.no_mapping;
        }))
        (λ _.
          if_ind Post (ltb max_sg_entries (length out + length in_))
            (give_up hferr_dma shared inner slot (unmapped m.slot)
              (m.effects ++ unmap_effects m.slot))
            (send dma shared inner slot m.slot m.effects ioreq)
            (λ _.
              give_up-Post hferr_dma shared (unmapped m.slot) (m.effects ++ unmap_effects m.slot)
                refl refl (unmap-IsIdle m.slot.dma_list m.slot refl none_yet no_cookie_yet))
            (λ _. send-Post dma shared m.slot m.effects refl refl sent_id))

-- Submit keeps the slots in order. When it returns -1 no slot is free and nothing has changed.
-- When it succeeds the first free slot holds the request, its header in memory carries the id
-- of unit and slot, and the count of occupied slots grows by one, as a 32-bit number. When it
-- fails the same slots are free, and ring and counts are as before.
pub submit-SlotsOk :
    (dma : DmaAnswer) (shared : Shared) (unit : PipeUnit) (free : List ℕ) (ioreq : IoRequest)
    (cdb : List ℕ) (is_write : Bool)
    → SlotsOk (table unit) free
    → let out = submit dma shared unit ioreq cdb is_write in
      SubmitPost unit free shared ioreq out.result out
unfolding submit submit_from Post
submit-SlotsOk dma shared unit [] ioreq cdb is_write ok =
    subst
      (λ h.
        let out = submit_from h dma shared unit ioreq cdb is_write in
        SubmitPost unit [] shared ioreq out.result out)
      (sym ok.linked) (refl, refl, refl)
submit-SlotsOk dma shared unit (slot ∷ rest) ioreq cdb is_write ok =
    let taken = take_slot (table unit) slot rest ok in
    subst
      (λ h.
        let out = submit_from h dma shared unit ioreq cdb is_write in
        SubmitPost unit (slot ∷ rest) shared ioreq out.result out)
      (sym ok.linked.0)
      (submit_slot-Post unit slot rest shared ioreq taken dma cdb is_write
        (ok.idle slot (λ e. omega (arith, e, count_head slot rest))))
