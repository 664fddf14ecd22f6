-- ===== src/Virtqueue/Owned.antt =====
-- Who owns the descriptors of a virtqueue: the driver's free list, or a request in flight. This is
-- the invariant that VirtQueue_AddBuf and VirtQueue_GetBuf of src/virtio/virtqueue.c keep.
use virtual_scsidevice.Base.{
  ℕ, ◌+◌, ◌≤◌, ◌<◌, ◌≡◌, ◌≢◌, sym, subst, ◌∙◌, ◌⊎◌, inl, inr, List, [], ◌∷◌, ◌++◌, Bool, true,
  false, none, length, length-append, get_or, arith,
}
use virtual_scsidevice.Word.{vr16}
use virtual_scsidevice.Chain.{count, count_head, count-append, Linked}
use virtual_scsidevice.Virtqueue.{Virtqueue, Desc, desc_at, link, has_next}

-- The NEXT flags and links of the table lead through the descriptors of a request and end there.
abbrev pub IsChain : Bool → List Desc → List ℕ → Type 0
IsChain m d [] = ⊥
IsChain m d (i ∷ []) = has_next m (desc_at d i) ≡ false
IsChain m d (i ∷ j ∷ c) =
    (has_next m (desc_at d i) ≡ true) × (vr16 m (desc_at d i).next ≡ j) × IsChain m d (j ∷ c)

-- A request in flight: its cookie, its head and the other descriptors that it holds.
pub record Pending : Type 0 where
  pub cookie : ℕ
  pub head : ℕ
  pub rest : List ℕ

abbrev pub held : Pending → List ℕ
held p = p.head ∷ p.rest

-- How the queue remembers a request: the cookie at its head, and a chain of direct descriptors or
-- one descriptor with an indirect table.
pub record IsRequest (vq : Virtqueue) (p : Pending) : Type 0 where
  pub cookie_kept : get_or vq.cookies p.head 0 ≡ p.cookie
  pub shape :
      ((get_or vq.indirect_tables p.head none ≡ none) × IsChain vq.modern vq.desc (held p))
      ⊎ ((get_or vq.indirect_tables p.head none ≢ none) × (p.rest ≡ []))

abbrev pub AreRequests : Virtqueue → List Pending → Type 0
AreRequests vq [] = Unit {0}
AreRequests vq (p ∷ ps) = IsRequest vq p × AreRequests vq ps

-- all the descriptors that requests hold
abbrev pub all_held : List Pending → List ℕ
all_held [] = []
all_held (p ∷ ps) = held p ++ all_held ps

abbrev pub id_link : ℕ → ℕ
id_link i = i

-- The free list `free` starts at `free_head` and has `num_free` entries, the requests `ps` are in
-- flight, and every descriptor below `num` is in one of them exactly once.
pub record Owns (vq : Virtqueue) (free : List ℕ) (ps : List Pending) : Type 0 where
  pub last : ℕ
  pub linked : Linked id_link (link vq.desc) vq.free_head free last
  pub free_count : vq.num_free ≡ length free
  pub requests : AreRequests vq ps
  pub once : (j : ℕ) → count j free + count j (all_held ps) ≤ 1
  pub below : (j : ℕ) → count j free + count j (all_held ps) ≢ 0 → j < vq.num
  pub total : length free + length (all_held ps) ≡ vq.num

-- The sizes of the arrays, and the limits of the device: at most 32768 entries.
pub record IsSized (vq : Virtqueue) : Type 0 where
  pub descs : length vq.desc ≡ vq.num
  pub cookie_slots : length vq.cookies ≡ vq.num
  pub table_slots : length vq.indirect_tables ≡ vq.num
  pub ring_slots : length vq.avail_ring ≡ vq.num + 1
  pub used_slots : length vq.used_ring ≡ vq.num
  pub some_entry : 0 < vq.num
  pub small : vq.num ≤ 32768
  pub last_used_small : vq.last_used_idx < 65536

-- A chain is unchanged where its descriptors are.
pub IsChain-frame :
    (m : Bool) (d d' : List Desc) (c : List ℕ)
    → ((j : ℕ) → count j c ≢ 0 → desc_at d' j ≡ desc_at d j)
    → IsChain m d c
    → IsChain m d' c
IsChain-frame m d d' [] same k = k
IsChain-frame m d d' (i ∷ []) same k = rw (same i (λ e. omega (arith, count_head i []))) k
IsChain-frame m d d' (i ∷ j ∷ c) same k =
    rw (same i (λ e. omega (arith, count_head i (j ∷ c))))
      (k.0, k.1, IsChain-frame m d d' (j ∷ c) (λ x p. same x (λ e. p (omega arith))) k.2)

-- A request is unchanged where its descriptors and the entries of its head are.
pub AreRequests-frame :
    (vq vq' : Virtqueue) (ps : List Pending)
    → vq'.modern ≡ vq.modern
    → ((j : ℕ) → count j (all_held ps) ≢ 0 → desc_at vq'.desc j ≡ desc_at vq.desc j)
    → ((j : ℕ)
        → count j (all_held ps) ≢ 0
        → (get_or vq'.cookies j 0 ≡ get_or vq.cookies j 0)
          × (get_or vq'.indirect_tables j none ≡ get_or vq.indirect_tables j none))
    → AreRequests vq ps
    → AreRequests vq' ps
AreRequests-frame vq vq' [] same_mode same_desc same_entry k = tt
AreRequests-frame vq vq' (p ∷ ps) same_mode same_desc same_entry k = (
  record { cookie_kept = entry.0 ∙ k.0.cookie_kept; shape = shape' k.0.shape },
  AreRequests-frame vq vq' ps same_mode
      (λ j n. same_desc j (λ e. n (omega (arith, count-append j (held p) (all_held ps)))))
      (λ j n. same_entry j (λ e. n (omega (arith, count-append j (held p) (all_held ps))))) k.1,
)
  where
    entry :
        (get_or vq'.cookies p.head 0 ≡ get_or vq.cookies p.head 0)
        × (get_or vq'.indirect_tables p.head none ≡ get_or vq.indirect_tables p.head none)
    entry =
        same_entry p.head
          (λ e. omega (arith, count-append p.head (held p) (all_held ps), count_head p.head p.rest))

    shape' :
        ((get_or vq.indirect_tables p.head none ≡ none) × IsChain vq.modern vq.desc (held p))
          ⊎ ((get_or vq.indirect_tables p.head none ≢ none) × (p.rest ≡ []))
        → ((get_or vq'.indirect_tables p.head none ≡ none) × IsChain vq'.modern vq'.desc (held p))
          ⊎ ((get_or vq'.indirect_tables p.head none ≢ none) × (p.rest ≡ []))
    shape' (inl (a, b)) = inl (
      entry.1 ∙ a,
      subst (λ m. IsChain m vq'.desc (held p)) (sym same_mode)
          (IsChain-frame vq.modern vq.desc vq'.desc (held p)
            (λ j n. same_desc j (λ e. n (omega (arith, count-append j (held p) (all_held ps))))) b),
    )
    shape' (inr (a, b)) = inr (λ e. a (sym entry.1 ∙ e), b)

pub count-all_held :
    (j : ℕ) (ps qs : List Pending)
    → count j (all_held (ps ++ qs)) ≡ count j (all_held ps) + count j (all_held qs)
count-all_held j [] qs = omega arith
count-all_held j (p ∷ ps) qs = omega (
  arith,
  count-append j (held p) (all_held (ps ++ qs)),
  count-append j (held p) (all_held ps),
  count-all_held j ps qs,
)

pub length-all_held :
    (ps qs : List Pending)
    → length (all_held (ps ++ qs)) ≡ length (all_held ps) + length (all_held qs)
length-all_held [] qs = omega arith
length-all_held (p ∷ ps) qs = omega (
  arith,
  length-append {0} (held p) (all_held (ps ++ qs)),
  length-append {0} (held p) (all_held ps),
  length-all_held ps qs,
)

pub AreRequests-split :
    (vq : Virtqueue) (ps qs : List Pending)
    → AreRequests vq (ps ++ qs)
    → AreRequests vq ps × AreRequests vq qs
AreRequests-split vq [] qs k = (tt, k)
AreRequests-split vq (p ∷ ps) qs k = let (a, b) = AreRequests-split vq ps qs k.1 in ((k.0, a), b)

pub AreRequests-append :
    (vq : Virtqueue) (ps qs : List Pending)
    → AreRequests vq ps
    → AreRequests vq qs
    → AreRequests vq (ps ++ qs)
AreRequests-append vq [] qs a b = b
AreRequests-append vq (p ∷ ps) qs a b = (a.0, AreRequests-append vq ps qs a.1 b)
