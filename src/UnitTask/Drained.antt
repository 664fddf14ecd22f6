-- ===== src/UnitTask/Drained.antt =====
-- The end of a unit task: the drain loops of UnitTask_Entry of src/unit_task.c.
use virtual_scsidevice.Base.{◌≡◌, refl, sym, ap, ◌∙◌, Option, none, some, List, [], ◌∷◌, ◌++◌}
use virtual_scsidevice.Errors.{ioerr_aborted}
use virtual_scsidevice.Request.{IoRequest}
use virtual_scsidevice.Pipeline.{Slot}
use virtual_scsidevice.Pipeline.Finish.{replies, replies-append}
use virtual_scsidevice.UnitTask.{drain_slot, drain_slots}
use virtual_scsidevice.Pipeline.Quiet.{unmap_effects-Quiet}

abbrev pub request_of : Option IoRequest → List IoRequest
request_of none = []
request_of (some r) = r ∷ []

-- the requests that the slots hold, from the first slot on
abbrev pub requests_in : List Slot → List IoRequest
requests_in [] = []
requests_in (s ∷ slots) = request_of s.ioreq ++ requests_in slots

-- the same requests, as they are replied
abbrev pub aborted : List IoRequest → List IoRequest
aborted [] = []
aborted (r ∷ rs) = record r { io_error = ioerr_aborted } ∷ aborted rs

aborted-append : (rs ss : List IoRequest) → aborted (rs ++ ss) ≡ aborted rs ++ aborted ss
aborted-append [] ss = refl
aborted-append (r ∷ rs) ss =
    ap (λ l. record r { io_error = ioerr_aborted } ∷ l) (aborted-append rs ss)

replies-drain_slot :
    (held : Option IoRequest) (s : Slot) → replies (drain_slot held s).1 ≡ aborted (request_of held)
unfolding replies
replies-drain_slot none s = refl
replies-drain_slot (some r) s =
    ap (λ l. record r { io_error = ioerr_aborted } ∷ l) (unmap_effects-Quiet s)

drain_slot_empty :
    (held : Option IoRequest) (s : Slot) → s.ioreq ≡ held → (drain_slot held s).0.ioreq ≡ none
drain_slot_empty none s e = e
drain_slot_empty (some r) s e = refl

-- When the unit task ends, every request in a slot is replied, once and as aborted, in the order of
-- the slots; and no slot holds a request afterwards.
pub drain_slots-aborted :
    (slots : List Slot)
    → (replies (drain_slots slots).1 ≡ aborted (requests_in slots))
      × (requests_in (drain_slots slots).0 ≡ [])
unfolding drain_slots replies
drain_slots-aborted [] = (refl, refl)
drain_slots-aborted (s ∷ slots) =
    let (later, empty) = drain_slots-aborted slots in
    let first = drain_slot s.ioreq s in
    let rest = drain_slots slots in
    (
      replies-append first.1 rest.1
          ∙ (ap (λ l. l ++ replies rest.1) (replies-drain_slot s.ioreq s)
              ∙ (ap (λ l. aborted (request_of s.ioreq) ++ l) later
                  ∙ sym (aborted-append (request_of s.ioreq) (requests_in slots)))),
      ap (λ h. request_of h ++ requests_in rest.0) (drain_slot_empty s.ioreq s refl) ∙ empty,
    )
