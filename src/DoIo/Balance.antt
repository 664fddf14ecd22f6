-- ===== src/DoIo/Balance.antt =====
-- What VirtIOSCSI_DoIO takes from the system it gives back (src/virtio/virtio_scsi_io.c): memory,
-- mappings and entry lists, counted by address.
use virtual_scsidevice.Base.{
  ℕ, ◌+◌, ◌≡◌, refl, subst, ◌==◌, true, false, if◌then◌else◌, if_ind, Option, none, some, List, [],
  ◌∷◌, ◌++◌, arith,
}
use virtual_scsidevice.Virtqueue.{Sg}
use virtual_scsidevice.Pipeline.{DmaFlags}
use virtual_scsidevice.DoIo.Dma.{
  Call, alloc_vec, free_vec, start_dma, end_dma, alloc_list, free_list, DmaReply, no_buffer,
  cleanup_dma, Prepared, prepare_dma, prepare_listed,
}

abbrev pub if_at : ℕ → ℕ → ℕ
if_at a addr = if addr == a then 1 else 0

pub data Resource : Type 0 where
  memory mapping entry_list : Resource

-- What a call takes of a resource at the address `a`, and what it gives back. StartDMA without
-- entries maps nothing.
unfoldable pub takes : Resource → ℕ → Call → ℕ
takes memory a (alloc_vec addr) = if_at a addr
takes mapping a (start_dma addr len entries flags) = if entries == 0 then 0 else if_at a addr
takes entry_list a (alloc_list addr) = if_at a addr
takes _ a _ = 0

unfoldable pub gives : Resource → ℕ → Call → ℕ
gives memory a (free_vec addr) = if_at a addr
gives mapping a (end_dma addr len flags) = if_at a addr
gives entry_list a (free_list addr) = if_at a addr
gives _ a _ = 0

abbrev pub total : (Call → ℕ) → List Call → ℕ
total f [] = 0
total f (c ∷ calls) = f c + total f calls

-- All that was taken was given back, at the same address.
abbrev pub Balanced : List Call → Type 0
Balanced calls = (r : Resource) (a : ℕ) → total (takes r a) calls ≡ total (gives r a) calls

pub total-append : (f : Call → ℕ) (xs ys : List Call) → total f (xs ++ ys) ≡ total f xs + total f ys
total-append f [] ys = omega arith
total-append f (x ∷ xs) ys = omega (arith, total-append f xs ys)

pub Balanced-append : (xs ys : List Call) → Balanced xs → Balanced ys → Balanced (xs ++ ys)
Balanced-append xs ys h k r a =
    omega (arith, h r a, k r a, total-append (takes r a) xs ys, total-append (gives r a) xs ys)

-- the calls of a mapping and its cleanup
abbrev pub both : Prepared → List Call
both m = m.calls ++ cleanup_dma m.db

prepare_listed-Balanced :
    (list : Option (List Sg)) (entries addr size : ℕ) (flags : DmaFlags)
    → (entries == 0) ≡ false
    → Balanced (both (prepare_listed list entries addr size flags))
unfolding cleanup_dma takes gives
prepare_listed-Balanced none entries addr size flags h memory a = refl
prepare_listed-Balanced none entries addr size flags h mapping a = ground arith
prepare_listed-Balanced none entries addr size flags h entry_list a = refl
prepare_listed-Balanced (some list) entries addr size flags h memory a = ground arith
prepare_listed-Balanced (some list) entries addr size flags h mapping a = ground arith
prepare_listed-Balanced (some list) entries addr size flags h entry_list a = ground arith

untaken :
    (r : Resource) (a addr size : ℕ) (flags : DmaFlags)
    → total (takes r a) (start_dma addr size 0 flags ∷ [])
      ≡ total (gives r a) (start_dma addr size 0 flags ∷ [])
unfolding takes gives
untaken memory a addr size flags = refl
untaken mapping a addr size flags = refl
untaken entry_list a addr size flags = refl

listed_failed :
    (list : Option (List Sg)) (entries addr size : ℕ) (flags : DmaFlags)
    → (prepare_listed list entries addr size flags).ok ≡ false
    → cleanup_dma (prepare_listed list entries addr size flags).db ≡ []
unfolding cleanup_dma
listed_failed none entries addr size flags bad = refl
listed_failed (some list) entries addr size flags bad = absurd (cc bad)

-- A mapping with prepare_dma and its cleanup balance, and after a failure there is nothing to clean.
pub prepare_dma-Balanced :
    (reply : DmaReply) (addr size : ℕ) (flags : DmaFlags)
    → Balanced (both (prepare_dma reply addr size flags))
unfolding prepare_dma cleanup_dma takes gives
prepare_dma-Balanced reply addr size flags =
    let empty = record no_buffer { addr = addr; size = size; flags = flags } in
    if_ind (λ m. Balanced (both m)) (size == 0) (record { ok = true; db = empty; calls = [] }) _
      (λ e r a. refl)
      (λ e.
        if_ind (λ m. Balanced (both m)) (reply.entries == 0)
          (record { ok = false; db = empty; calls = start_dma addr size 0 flags ∷ [] }) _
          (λ f r a. untaken r a addr size flags)
          (λ f. prepare_listed-Balanced reply.list reply.entries addr size flags f))

pub cleanup_dma_failed :
    (reply : DmaReply) (addr size : ℕ) (flags : DmaFlags)
    → (prepare_dma reply addr size flags).ok ≡ false
    → cleanup_dma (prepare_dma reply addr size flags).db ≡ []
unfolding prepare_dma cleanup_dma
cleanup_dma_failed reply addr size flags =
    let empty = record no_buffer { addr = addr; size = size; flags = flags } in
    if_ind (λ (m : Prepared). m.ok ≡ false → cleanup_dma m.db ≡ []) (size == 0)
      (record { ok = true; db = empty; calls = [] }) _ (λ e bad. refl)
      (λ e.
        if_ind (λ (m : Prepared). m.ok ≡ false → cleanup_dma m.db ≡ []) (reply.entries == 0)
          (record { ok = false; db = empty; calls = start_dma addr size 0 flags ∷ [] }) _
          (λ f bad. refl) (λ f. listed_failed reply.list reply.entries addr size flags))

pub Balanced-failed :
    (reply : DmaReply) (addr size : ℕ) (flags : DmaFlags)
    → (prepare_dma reply addr size flags).ok ≡ false
    → Balanced (prepare_dma reply addr size flags).calls
Balanced-failed reply addr size flags bad r a =
    let m = prepare_dma reply addr size flags in
    let gone = cleanup_dma_failed reply addr size flags bad in
    omega (
      arith,
      subst (λ (c : List Call). total (takes r a) (m.calls ++ c) ≡ total (gives r a) (m.calls ++ c))
          gone (prepare_dma-Balanced reply addr size flags r a),
      total-append (takes r a) m.calls [],
      total-append (gives r a) m.calls [],
    )
