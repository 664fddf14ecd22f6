-- ===== src/Pipeline/Finish.antt =====
-- The completion of a slot: the request that is replied, the slot that becomes free, the counters.
use virtual_scsidevice.Base.{
  ℕ, ◌+◌, ◌-◌, ◌≤◌, ◌<◌, ◌≡◌, refl, sym, ap, ◌∙◌, subst, Bool, true, false, Option, none, some,
  List, [], ◌∷◌, ◌++◌, get_or, ltb, if◌then◌else◌, if_ind, ◌&&◌, not, arith, ◌⊎◌, inl, inr,
}
use virtual_scsidevice.Chain.{count}
use virtual_scsidevice.Errors.{is_error}
use virtual_scsidevice.Request.{IoRequest}
use virtual_scsidevice.Virtqueue.{Sg}
use virtual_scsidevice.Word.{vr32}
use virtual_scsidevice.Pipeline.{
  Slot, PipeUnit, Shared, Effect, copy_from_bounce, end_dma, reply_msg, RespCmd, no_resp, slot_at,
  submit_release_slot, unmap, max_inflight,
}
use virtual_scsidevice.Pipeline.Complete.{
  finish_request, read_back, end_mapping, emptied, decrement, complete_request, complete_held,
  complete_inflight_slot,
}
use virtual_scsidevice.Pipeline.Slots.{
  table, IsIdle, SlotsOk, vacate_slot, put_taken, put_self, release_slot,
}

-- the requests that a list of effects replies
unfoldable pub replies : List Effect → List IoRequest
replies [] = []
replies (reply_msg r ∷ es) = r ∷ replies es
replies (_ ∷ es) = replies es

pub replies-append : (es fs : List Effect) → replies (es ++ fs) ≡ replies es ++ replies fs
unfolding replies
replies-append [] fs = refl
replies-append (reply_msg r ∷ es) fs = ap (λ l. r ∷ l) (replies-append es fs)
replies-append (_ ∷ es) fs = replies-append es fs

-- The reply to a request never reports more bytes than were asked for: the length without the
-- residual, or 0 when there is an error or the residual is beyond the length.
pub finish_request-lem :
    (modern : Bool) (resp : RespCmd) (held : IoRequest)
    → let done = finish_request modern resp held in
      let failed = is_error done.io_error in
      let residual = vr32 modern resp.residual in
      (done.id ≡ held.id)
      × (done.io_actual ≤ held.io_length)
      × (((failed ≡ false)
            × (residual ≤ held.io_length)
            × (done.io_actual + residual ≡ held.io_length))
          ⊎ (((failed ≡ true) ⊎ (held.io_length < residual)) × (done.io_actual ≡ 0)))
unfolding finish_request
finish_request-lem modern resp held =
    let failed = is_error (finish_request modern resp held).io_error in
    let r = vr32 modern resp.residual in
    let rest = (if ltb held.io_length r then 0 else held.io_length - r) in
    (
      refl,
      if_ind (λ n. n ≤ held.io_length) failed 0 rest (λ _. omega arith) (λ _. ground arith),
      if_ind
          (λ n.
            ((failed ≡ false) × (r ≤ held.io_length) × (n + r ≡ held.io_length))
            ⊎ (((failed ≡ true) ⊎ (held.io_length < r)) × (n ≡ 0)))
          failed 0 rest (λ t. inr (inl t, refl)) (λ f. ground (arith, f)),
    )

replies-read_back : (slot : ℕ) (s : Slot) (r : IoRequest) → replies (read_back slot s r) ≡ []
unfolding replies read_back
replies-read_back slot s r =
    if_ind (λ es. replies es ≡ [])
      (s.using_bounce && (not s.is_write && (not (is_error r.io_error) && ltb 0 r.io_actual)))
      (copy_from_bounce slot s.dma_addr r.io_actual ∷ []) [] (λ _. refl) (λ _. refl)

replies-end_mapping : (s : Slot) → replies (end_mapping s) ≡ []
unfolding replies
replies-end_mapping s =
    elim s.dma_list
      as (λ l.
        replies (elim l [ none ↦ [] | some list ↦ end_dma s.dma_addr s.dma_size s.dma_flags ∷ [] ])
        ≡ []) [ none ↦ refl | some l ↦ refl ]

unmap_mapping : (l : Option (List Sg)) (s : Slot) → s.dma_list ≡ l → (unmap l s).dma_list ≡ none
unmap_mapping none s e = e
unmap_mapping (some l) s e = refl

-- The state and the reply after the completion of a slot that holds `held`.
abbrev pub Completes :
    Shared → PipeUnit → ℕ → List ℕ → IoRequest → Shared × PipeUnit × List Effect → Type 0
Completes shared unit slot free held (shared', unit', effects) =
    let done = finish_request shared.vq.modern (get_or unit.resp_bufs slot no_resp) held in
    SlotsOk (table unit') (slot ∷ free)
    × (replies effects ≡ done ∷ [])
    × (shared'.occupied_count ≡ decrement shared.occupied_count)
    × (shared'.vq ≡ shared.vq)

reply_last :
    (slot : ℕ) (s : Slot) (done : IoRequest)
    → replies (read_back slot s done ++ (end_mapping s ++ (reply_msg done ∷ []))) ≡ done ∷ []
unfolding replies
reply_last slot s done =
    replies-append (read_back slot s done) (end_mapping s ++ (reply_msg done ∷ []))
    ∙ rw
        (
          replies-read_back slot s done,
          replies-append (end_mapping s) (reply_msg done ∷ []),
          replies-end_mapping s,
        )
        refl

pub complete_request-Completes :
    (shared : Shared) (unit : PipeUnit) (slot : ℕ) (free : List ℕ) (held : IoRequest)
    → SlotsOk (table unit) free
    → slot < max_inflight
    → count slot free ≡ 0
    → Completes shared unit slot free held (complete_request shared unit slot held)
unfolding complete_request submit_release_slot
complete_request-Completes shared unit slot free held ok inside busy =
    let s = slot_at unit slot in
    let taken = vacate_slot (table unit) slot free ok inside busy in
    let done = finish_request shared.vq.modern (get_or unit.resp_bufs slot no_resp) held in
    (
      release_slot _ slot free (put_taken _ slot free taken (emptied s)) (
          subst IsIdle (sym (put_self _ slot free taken (emptied s))) (record {
            no_request = refl;
            no_cookie = refl;
            no_mapping = unmap_mapping s.dma_list s refl;
          })),
      reply_last slot s done,
      refl,
      refl,
    )

-- Completing a busy slot, of slots in order, replies the request that it holds, once, as
-- `finish_request` fills it. The slot becomes the first free one, the slots stay in order, the
-- ring is as before, and the count of occupied slots falls by one unless it is 0.
pub complete_inflight_slot-SlotsOk :
    (shared : Shared) (unit : PipeUnit) (slot : ℕ) (free : List ℕ)
    → SlotsOk (table unit) free
    → slot < max_inflight
    → count slot free ≡ 0
    → (held : IoRequest) × ((slot_at unit slot).ioreq ≡ some held)
      × Completes shared unit slot free held (complete_inflight_slot shared unit slot)
unfolding complete_inflight_slot complete_held
complete_inflight_slot-SlotsOk shared unit slot free ok inside busy =
    let (held, e) = (ok.busy slot inside busy).request in
    (
      held,
      e,
      subst (λ r. Completes shared unit slot free held (complete_held r shared unit slot)) (sym e)
          (complete_request-Completes shared unit slot free held ok inside busy),
    )
