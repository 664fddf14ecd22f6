-- ===== src/Pipeline/Slots.antt =====
-- The invariant of a unit's slots: a slot is in the free list, and idle, or it holds a request.
use virtual_scsidevice.Base.{
  ℕ, ◌+◌, ◌≤◌, ◌<◌, ◌≡◌, ◌≢◌, refl, sym, ◌∙◌, subst, inl, inr, suc, Option, none, some, List, ◌∷◌,
  length, get_or, set, length-set, get_or-set_self, get_or-set_ne, Bool-cases, ==_iff, ◌==◌, arith,
}
use virtual_scsidevice.Chain.{count, count_head, ne_of_count, length_missing, Linked, Linked_frame}
use virtual_scsidevice.Request.{IoRequest}
use virtual_scsidevice.Word.{u32}
use virtual_scsidevice.Pipeline.{Slot, PipeUnit, max_inflight, idle_slot}
use virtual_scsidevice.Pipeline.Complete.{decrement}

-- The part of a unit that the invariant speaks of.
pub record Table : Type 0 where
  pub head : Option ℕ
  pub next : List (Option ℕ)
  pub slots : List Slot
  pub bufs : List ℕ
  pub in_use : ℕ

abbrev pub table : PipeUnit → Table
table unit = record {
  head = unit.free_head;
  next = unit.inflight_next;
  slots = unit.inflight;
  bufs = unit.req_bufs;
  in_use = unit.inflight_count;
}

abbrev pub slot_of : Table → ℕ → Slot
slot_of t j = get_or t.slots j idle_slot

abbrev pub next_of : Table → ℕ → Option ℕ
next_of t j = get_or t.next j none

pub record IsIdle (s : Slot) : Type 0 where
  pub no_request : s.ioreq ≡ none
  pub no_cookie : s.cookie ≡ 0
  pub no_mapping : s.dma_list ≡ none

-- The slot holds a request, and its cookie is the address of its own request header.
pub record IsBusy (s : Slot) (buf : ℕ) : Type 0 where
  pub request : (r : IoRequest) × (s.ioreq ≡ some r)
  pub own_cookie : s.cookie ≡ buf

-- The slots of `free` are linked from the head to the end of the list and idle; every other slot
-- is busy, and `in_use` counts those.
pub record SlotsOk (t : Table) (free : List ℕ) : Type 0 where
  pub linked : Linked some (next_of t) t.head free none
  pub distinct : (j : ℕ) → count j free ≤ 1
  pub below : (j : ℕ) → count j free ≢ 0 → j < max_inflight
  pub next_size : length t.next ≡ max_inflight
  pub slot_size : length t.slots ≡ max_inflight
  pub idle : (j : ℕ) → count j free ≢ 0 → IsIdle (slot_of t j)
  pub busy :
      (j : ℕ) → j < max_inflight → count j free ≡ 0 → IsBusy (slot_of t j) (get_or t.bufs j 0)
  pub counted : length free + t.in_use ≡ max_inflight

-- The slot `slot` is in neither group: the state within Submit and within a completion.
pub record SlotTaken (t : Table) (slot : ℕ) (free : List ℕ) : Type 0 where
  pub linked : Linked some (next_of t) t.head free none
  pub distinct : (j : ℕ) → count j free ≤ 1
  pub apart : count slot free ≡ 0
  pub inside : slot < max_inflight
  pub below : (j : ℕ) → count j free ≢ 0 → j < max_inflight
  pub next_size : length t.next ≡ max_inflight
  pub slot_size : length t.slots ≡ max_inflight
  pub idle : (j : ℕ) → count j free ≢ 0 → IsIdle (slot_of t j)
  pub busy :
      (j : ℕ)
      → j < max_inflight
      → count j free ≡ 0
      → j ≢ slot
      → IsBusy (slot_of t j) (get_or t.bufs j 0)
  pub counted : suc (length free + t.in_use) ≡ max_inflight

-- The head of the free list is taken.
pub take_slot :
    (t : Table) (slot : ℕ) (free : List ℕ)
    → SlotsOk t (slot ∷ free)
    → SlotTaken (record t { head = next_of t slot }) slot free
take_slot t slot free ok = record {
  linked = ok.linked.1;
  distinct = λ j. omega (arith, ok.distinct j);
  apart = omega (arith, ok.distinct slot, count_head slot free);
  inside = ok.below slot (λ e. omega (arith, count_head slot free));
  below = λ j n. ok.below j (λ e. n (omega (arith, e)));
  next_size = ok.next_size;
  slot_size = ok.slot_size;
  idle = λ j n. ok.idle j (λ e. n (omega (arith, e)));
  busy = λ j lt z ne. ok.busy j lt (ground (arith, ne, z));
  counted = omega (arith, ok.counted);
}

-- A busy slot is emptied: it is the state that a completion starts from.
pub vacate_slot :
    (t : Table) (slot : ℕ) (free : List ℕ)
    → SlotsOk t free
    → slot < max_inflight
    → count slot free ≡ 0
    → SlotTaken (record t { in_use = decrement t.in_use }) slot free
vacate_slot t slot free ok inside apart =
    let room : length free < max_inflight =
      length_missing max_inflight slot free ok.distinct ok.below inside apart in
    record {
      linked = ok.linked;
      distinct = ok.distinct;
      apart = apart;
      inside = inside;
      below = ok.below;
      next_size = ok.next_size;
      slot_size = ok.slot_size;
      idle = ok.idle;
      busy = λ j lt z ne. ok.busy j lt z;
      counted = ground (arith, ok.counted, room);
    }

module _ (t : Table) (slot : ℕ) (free : List ℕ) (taken : SlotTaken t slot free) where
  free_ne : (j : ℕ) → count j free ≢ 0 → slot ≢ j
  free_ne j n e = n (subst (λ k. count k free ≡ 0) e taken.apart)

  pub put_self : (s : Slot) → get_or (set t.slots slot s) slot idle_slot ≡ s
  put_self s =
      get_or-set_self t.slots slot s idle_slot (omega (arith, taken.inside, taken.slot_size))

  -- A taken slot may be written.
  pub put_taken : (s : Slot) → SlotTaken (record t { slots = set t.slots slot s }) slot free
  put_taken s = record {
    linked = taken.linked;
    distinct = taken.distinct;
    apart = taken.apart;
    inside = taken.inside;
    below = taken.below;
    next_size = taken.next_size;
    slot_size = length-set t.slots slot s ∙ taken.slot_size;
    idle = λ j n.
        subst IsIdle (sym (get_or-set_ne t.slots slot j s idle_slot (free_ne j n)))
          (taken.idle j n);
    busy = λ j lt z ne.
        subst (λ x. IsBusy x (get_or t.bufs j 0))
          (sym (get_or-set_ne t.slots slot j s idle_slot (λ e. ne (sym e)))) (taken.busy j lt z ne);
    counted = taken.counted;
  }

  -- An idle slot goes back to the free list.
  pub release_slot :
      IsIdle (slot_of t slot)
      → SlotsOk (record t { next = set t.next slot t.head; head = some slot }) (slot ∷ free)
  release_slot idle = record {
    linked = (
      refl,
      subst (λ h. Linked some (λ i. get_or (set t.next slot t.head) i none) h free none)
          (sym (
            get_or-set_self t.next slot t.head none (omega (arith, taken.inside, taken.next_size))))
          (Linked_frame some (next_of t) (λ i. get_or (set t.next slot t.head) i none) t.head free
            none (λ j n. get_or-set_ne t.next slot j t.head none (free_ne j n)) taken.linked),
    );
    distinct = λ j. ground (arith, taken.distinct j, taken.apart, free_ne j);
    below = λ j n. ground (arith, n, taken.inside, taken.below j);
    next_size = length-set t.next slot t.head ∙ taken.next_size;
    slot_size = taken.slot_size;
    idle = λ j n. elim (Bool-cases (j == slot)) [
      | inl e ↦ subst (λ k. IsIdle (slot_of t k)) (sym ((==_iff j slot).0 e)) idle
      | inr e ↦ taken.idle j (λ z. n (ground (arith, e, z)))
    ];
    busy = λ j lt z. taken.busy j lt (omega (arith, z)) (λ e. ne_of_count j slot free z (sym e));
    counted = omega (arith, taken.counted);
  }

  -- A busy slot is counted.
  pub occupy_slot :
      IsBusy (slot_of t slot) (get_or t.bufs slot 0)
      → SlotsOk (record t { in_use = u32 (t.in_use + 1) }) free
  occupy_slot busy = record {
    linked = taken.linked;
    distinct = taken.distinct;
    below = taken.below;
    next_size = taken.next_size;
    slot_size = taken.slot_size;
    idle = taken.idle;
    busy = λ j lt z. elim (Bool-cases (j == slot)) [
      | inl e ↦
          subst (λ k. IsBusy (slot_of t k) (get_or t.bufs k 0)) (sym ((==_iff j slot).0 e)) busy
      | inr e ↦ taken.busy j lt z (λ k. ground (arith, e, k))
    ];
    counted = omega (arith, taken.counted);
  }
