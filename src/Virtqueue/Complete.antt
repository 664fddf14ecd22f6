-- ===== src/Virtqueue/Complete.antt =====
-- VirtQueue_GetBuf of src/virtio/virtqueue.c: a completed request gives its descriptors back.
use virtual_scsidevice.Base.{
  ℕ, zero, suc, ◌+◌, ◌≤◌, ◌<◌, ◌≡◌, ◌≢◌, refl, sym, ap, subst, ◌∙◌, inl, inr, List, [], ◌∷◌, ◌++◌,
  Bool, true, false, Option-cases, some, none, length, get_or, set, length-append, get_or-set_ne,
  length-set, if◌then◌else◌, arith,
}
use virtual_scsidevice.Word.{vr16, vr32, u16}
use virtual_scsidevice.Chain.{
  count, count_head, ne_of_count, count_of_eq, count-append, rev_onto, count-rev_onto,
  length-rev_onto, Linked, Linked_frame,
}
use virtual_scsidevice.Virtqueue.{
  Virtqueue, UsedElem, Desc, desc_at, link, cleared, free_chain, give_back, take_back, get_buf,
  used_entry, write_used_event,
}
use virtual_scsidevice.Virtqueue.Owned.{
  IsChain, IsChain-frame, Pending, held, all_held, id_link, Owns, IsSized, IsRequest, AreRequests,
  AreRequests-frame, AreRequests-split, AreRequests-append, count-all_held, length-all_held,
}
use virtual_scsidevice.Virtqueue.Fill.{desc_at-set_self, desc_at-set_ne}

-- A cleared descriptor goes before the free list.
push_linked :
    (d : List Desc) (i head : ℕ) (free : List ℕ) (last : ℕ)
    → count i free ≡ 0
    → i < length d
    → Linked id_link (link d) head free last
    → Linked id_link (link (set d i (cleared head))) i (i ∷ free) last
push_linked d i head free last fresh inside linked =
    let d' = set d i (cleared head) in
    let here : link d' i ≡ head =
      ap (λ (x : Desc). x.next) (desc_at-set_self d i (cleared head) inside) in
    (
      refl,
      subst (λ k. Linked id_link (link d') k free last) (sym here)
          (Linked_frame id_link (link d) (link d') head free last
            (λ j n.
              ap (λ (x : Desc). x.next)
                (desc_at-set_ne d i j (cleared head)
                  (λ e. n (subst (λ k. count k free ≡ 0) e fresh))))
            linked),
    )

-- What the walk leaves: the chain `c` is put in reverse before the free list, nothing else changes.
record Freed (d : List Desc) (c free : List ℕ) (last freed : ℕ) (out : List Desc × ℕ × ℕ)
    : Type 0 where
  linked : Linked id_link (link out.0) out.1 (rev_onto c free) last
  frame : (j : ℕ) → count j c ≡ 0 → desc_at out.0 j ≡ desc_at d j
  size : length out.0 ≡ length d
  counted : out.2 ≡ freed + length c

-- Giving back one descriptor.
Freed-one :
    (d : List Desc) (i head freed : ℕ) (free : List ℕ) (last : ℕ)
    → count i free ≡ 0
    → i < length d
    → Linked id_link (link d) head free last
    → Freed d (i ∷ []) free last freed (set d i (cleared head), i, freed + 1)
Freed-one d i head freed free last fresh inside linked = record {
  linked = push_linked d i head free last fresh inside linked;
  frame = λ j z. desc_at-set_ne d i j (cleared head) (ne_of_count j i [] z);
  size = length-set d i (cleared head);
  counted = omega arith;
}

-- The walk ends, given as much fuel as the chain is long.
free_chain-Freed :
    (c : List ℕ) (fuel : ℕ) (m : Bool) (i : ℕ) (d : List Desc) (head freed : ℕ) (free : List ℕ)
    (last : ℕ)
    → length (i ∷ c) ≤ fuel
    → IsChain m d (i ∷ c)
    → ((j : ℕ) → count j (i ∷ c) + count j free ≤ 1)
    → ((j : ℕ) → count j (i ∷ c) ≢ 0 → j < length d)
    → Linked id_link (link d) head free last
    → (out : List Desc × ℕ × ℕ) × (free_chain fuel m i d head freed ≡ some out)
      × Freed d (i ∷ c) free last freed out
unfolding free_chain
free_chain-Freed c zero m i d head freed free last long chain once inside linked =
    absurd (omega arith)
free_chain-Freed [] (suc fuel) m i d head freed free last long chain once inside linked = (
  (set d i (cleared head), i, freed + 1),
  rw chain,
  Freed-one d i head freed free last (omega (arith, once i, count_head i []))
      (inside i (count_of_eq i i [] refl)) linked,
)
free_chain-Freed (k ∷ c) (suc fuel) m i d head freed free last long chain once inside linked =
    let fresh : count i (k ∷ c) ≡ 0 = omega (arith, once i, count_head i (k ∷ c)) in
    let unfree : count i free ≡ 0 = omega (arith, once i, count_head i (k ∷ c)) in
    let here : i < length d = inside i (count_of_eq i i (k ∷ c) refl) in
    let other : (j : ℕ) → count j (k ∷ c) ≢ 0 → desc_at (set d i (cleared head)) j ≡ desc_at d j =
      λ j n.
        desc_at-set_ne d i j (cleared head) (λ e. n (subst (λ x. count x (k ∷ c) ≡ 0) e fresh)) in
    let (out, done, freed') =
      free_chain-Freed c fuel m k (set d i (cleared head)) i (freed + 1) (i ∷ free) last
        (omega arith) (IsChain-frame m d (set d i (cleared head)) (k ∷ c) other chain.2)
        (λ j. omega (arith, once j)) (λ j n. rw length-set (inside j (λ e. n (omega arith))))
        (push_linked d i head free last unfree here linked) in
    (
      out,
      rw (chain.0, chain.1) done,
      record {
        linked = freed'.linked;
        frame = λ j z.
            freed'.frame j (omega arith)
            ∙ desc_at-set_ne d i j (cleared head) (ne_of_count j i (k ∷ c) z);
        size = freed'.size ∙ length-set d i (cleared head);
        counted = omega (arith, freed'.counted);
      },
    )

-- Both shapes of a request give back all that it holds.
give_back-Freed :
    (vq : Virtqueue) (p : Pending) (free : List ℕ) (last : ℕ)
    → IsRequest vq p
    → length (held p) ≤ vq.num
    → ((j : ℕ) → count j (held p) + count j free ≤ 1)
    → ((j : ℕ) → count j (held p) ≢ 0 → j < length vq.desc)
    → Linked id_link (link vq.desc) vq.free_head free last
    → (out : List Desc × ℕ × ℕ) × (give_back vq p.head (get_or vq.indirect_tables p.head none)
        ≡ some out)
      × Freed vq.desc (held p) free last 0 out
unfolding give_back
give_back-Freed vq p free last is long once inside linked = elim is.shape [
  | inl (direct, chain) ↦ rw direct (
      free_chain-Freed p.rest (suc vq.num) vq.modern p.head vq.desc vq.free_head 0 free last
        (omega (arith, long)) chain once inside linked)
  | inr (indirect, alone) ↦ elim (Option-cases (get_or vq.indirect_tables p.head none)) [
    | inl missing ↦ absurd (indirect missing)
    | inr (table, found) ↦ rw found (
      (set vq.desc p.head (cleared vq.free_head), p.head, 1),
      refl,
      subst
          (λ r.
            Freed vq.desc (p.head ∷ r) free last 0
              (set vq.desc p.head (cleared vq.free_head), p.head, 1))
          (sym alone)
          (Freed-one vq.desc p.head vq.free_head 0 free last
            (omega (arith, once p.head, count_head p.head p.rest))
            (inside p.head (count_of_eq p.head p.head p.rest refl)) linked),
    )
  ]
]

take_back-some :
    (vq : Virtqueue) (id written : ℕ) (out : List Desc × ℕ × ℕ)
    → give_back vq (u16 id) (get_or vq.indirect_tables id none) ≡ some out
    → take_back vq id written ≡ (
        let next_used = u16 (vq.last_used_idx + 1) in
        let vq' = record vq {
          desc = out.0;
          free_head = out.1;
          num_free = u16 (vq.num_free + u16 out.2);
          cookies = set vq.cookies id 0;
          indirect_tables = set vq.indirect_tables id none;
          last_used_idx = next_used;
        } in
        some (
          get_or vq.cookies id 0,
          some written,
          if vq.use_event_idx then write_used_event next_used vq' else vq',
        ))
unfolding take_back
take_back-some vq id written out e = rw (e, take_back)

-- The index that the device wrote into the used ring.
abbrev pub completed_id : Virtqueue → ℕ
completed_id vq = vr32 vq.modern (used_entry vq).id

module _ (vq : Virtqueue) (free : List ℕ) (ps : List Pending) (p : Pending) (qs : List Pending)
    (sized : IsSized vq) (owns : Owns vq free (ps ++ (p ∷ qs))) where
  others : List ℕ
  others = all_held (ps ++ qs)

  all_counts :
      (j : ℕ)
      → count j (all_held (ps ++ (p ∷ qs))) ≡ count j (held p) + count j (all_held (ps ++ qs))
  all_counts j = omega (
    arith,
    count-all_held j ps (p ∷ qs),
    count-append j (held p) (all_held qs),
    count-all_held j ps qs,
  )

  all_lengths : length (all_held (ps ++ (p ∷ qs))) ≡ length (held p) + length (all_held (ps ++ qs))
  all_lengths = omega (
    arith,
    length-all_held ps (p ∷ qs),
    length-append {0} (held p) (all_held qs),
    length-all_held ps qs,
  )

  inside : (j : ℕ) → count j (held p) ≢ 0 → j < vq.num
  inside j n = owns.below j (λ e. n (omega (arith, all_counts j)))

  requests : IsRequest vq p × AreRequests vq (ps ++ qs)
  requests =
      let (a, b) = AreRequests-split vq ps (p ∷ qs) owns.requests in
      (b.0, AreRequests-append vq ps qs a b.1)

  given :
      (out : List Desc × ℕ × ℕ) × (give_back vq p.head (get_or vq.indirect_tables p.head none)
        ≡ some out)
      × Freed vq.desc (held p) free owns.last 0 out
  given =
      give_back-Freed vq p free owns.last requests.0 (omega (arith, owns.total, all_lengths))
        (λ j. omega (arith, owns.once j, all_counts j))
        (λ j n. omega (arith, inside j n, sized.descs)) owns.linked

  -- the queue after the completion, before `used_event` is written
  after : Virtqueue
  after = record vq {
    desc = given.0.0;
    free_head = given.0.1;
    num_free = u16 (vq.num_free + u16 given.0.2);
    cookies = set vq.cookies p.head 0;
    indirect_tables = set vq.indirect_tables p.head none;
    last_used_idx = u16 (vq.last_used_idx + 1);
  }

  apart : (j : ℕ) → count j (all_held (ps ++ qs)) ≢ 0 → count j (held p) ≡ 0
  apart j n = omega (arith, owns.once j, all_counts j)

  head_apart :
      {A : Type 0} (l : List A) (v x : A) (j : ℕ)
      → count j (all_held (ps ++ qs)) ≢ 0
      → get_or (set l p.head v) j x ≡ get_or l j x
  head_apart l v x j n = get_or-set_ne l p.head j v x (ne_of_count j p.head p.rest (apart j n))

  after-Owns : Owns after (rev_onto (held p) free) (ps ++ qs)
  unfolding after
  after-Owns = record {
    last = owns.last;
    linked = given.2.linked;
    free_count = omega (
      arith,
      given.2.counted,
      owns.free_count,
      owns.total,
      all_lengths,
      length-rev_onto (held p) free,
      sized.small,
    );
    requests =
        AreRequests-frame vq after (ps ++ qs) refl (λ j n. given.2.frame j (apart j n))
          (λ j n. (head_apart vq.cookies 0 0 j n, head_apart vq.indirect_tables none none j n))
          requests.1;
    once = λ j. omega (arith, owns.once j, all_counts j, count-rev_onto j (held p) free);
    below =
        λ j n. owns.below j (λ e. n (omega (arith, all_counts j, count-rev_onto j (held p) free)));
    total = omega (arith, owns.total, all_lengths, length-rev_onto (held p) free);
  }

  after_last : after.last_used_idx ≡ u16 (vq.last_used_idx + 1)
  unfolding after
  after_last = refl

  take_back_eq :
      (written : ℕ)
      → take_back vq p.head written
        ≡ some (
          p.cookie,
          some written,
          if vq.use_event_idx then write_used_event (u16 (vq.last_used_idx + 1)) after else after,
        )
  unfolding after
  take_back_eq written =
      let small : u16 p.head ≡ p.head =
        omega (arith, inside p.head (count_of_eq p.head p.head p.rest refl), sized.small) in
      let back : give_back vq (u16 p.head) (get_or vq.indirect_tables p.head none) ≡ some given.0 =
        rw small given.1 in
      take_back-some vq p.head written given.0 back
      ∙ ap
          (λ k. some (
            k,
            some written,
            if vq.use_event_idx then write_used_event (u16 (vq.last_used_idx + 1)) after else after,
          ))
          requests.0.cookie_kept

-- With a new entry in range GetBuf takes it back.
get_buf_ready :
    (vq : Virtqueue)
    → vq.last_used_idx ≢ vr16 vq.modern vq.used_idx
    → completed_id vq < vq.num
    → get_buf vq ≡ take_back vq (completed_id vq) (vr32 vq.modern (used_entry vq).len)
unfolding get_buf
get_buf_ready vq ready inside = ground arith

last_used-event :
    (event_idx : Bool) (event : ℕ) (vq : Virtqueue)
    → (if event_idx then write_used_event event vq else vq).last_used_idx ≡ vq.last_used_idx
last_used-event true event vq = refl
last_used-event false event vq = refl

-- Writing `used_event` changes nothing that the ownership speaks of.
Owns-event :
    (event_idx : Bool) (event : ℕ) (vq : Virtqueue) (free : List ℕ) (ps : List Pending)
    → Owns vq free ps
    → Owns (if event_idx then write_used_event event vq else vq) free ps
Owns-event false event vq free ps o = o
Owns-event true event vq free ps o = record {
  last = o.last;
  linked = o.linked;
  free_count = o.free_count;
  requests =
      AreRequests-frame vq (write_used_event event vq) ps refl (λ j n. refl) (λ j n. (refl, refl))
        o.requests;
  once = o.once;
  below = o.below;
  total = o.total;
}

-- The device's writes to the used ring change nothing that the ownership speaks of.
pub Owns-used :
    (idx : ℕ) (ring : List UsedElem) (vq : Virtqueue) (free : List ℕ) (ps : List Pending)
    → Owns vq free ps
    → Owns (record vq { used_idx = idx; used_ring = ring }) free ps
Owns-used idx ring vq free ps o = record {
  last = o.last;
  linked = o.linked;
  free_count = o.free_count;
  requests =
      AreRequests-frame vq (record vq { used_idx = idx; used_ring = ring }) ps refl (λ j n. refl)
        (λ j n. (refl, refl)) o.requests;
  once = o.once;
  below = o.below;
  total = o.total;
}

-- GetBuf gives the request `p` back: its cookie and the length that the device wrote, its
-- descriptors to the free list, and one used entry taken.
abbrev pub GivesBack : Virtqueue → List ℕ → List Pending → Pending → List Pending → Type 0
GivesBack vq free ps p qs =
    (vq' : Virtqueue) × (get_buf vq
      ≡ some (p.cookie, some (vr32 vq.modern (used_entry vq).len), vq'))
    × Owns vq' (rev_onto (held p) free) (ps ++ qs)
    × (vq'.last_used_idx ≡ u16 (vq.last_used_idx + 1))

-- When `p` is in flight in a queue whose descriptors are all accounted for, and the unread used
-- entry names its head, GetBuf ends and returns the cookie of `p` with the length that the
-- device wrote; the descriptors of `p` go to the front of the free list, and all descriptors
-- are accounted for again.
pub get_buf-Owns :
    (vq : Virtqueue) (free : List ℕ) (ps : List Pending) (p : Pending) (qs : List Pending)
    → IsSized vq
    → Owns vq free (ps ++ (p ∷ qs))
    → vq.last_used_idx ≢ vr16 vq.modern vq.used_idx
    → completed_id vq ≡ p.head
    → GivesBack vq free ps p qs
get_buf-Owns vq free ps p qs sized owns ready same =
    let written = vr32 vq.modern (used_entry vq).len in
    let event = u16 (vq.last_used_idx + 1) in
    let vq' = after vq free ps p qs sized owns in
    let inside' : p.head < vq.num =
      inside vq free ps p qs sized owns p.head (count_of_eq p.head p.head p.rest refl) in
    (
      if vq.use_event_idx then write_used_event event vq' else vq',
      get_buf_ready vq ready (subst (λ k. k < vq.num) (sym same) inside')
          ∙ (subst (λ k. take_back vq k written ≡ take_back vq p.head written) (sym same) refl
              ∙ take_back_eq vq free ps p qs sized owns written),
      Owns-event vq.use_event_idx event vq' (rev_onto (held p) free) (ps ++ qs)
          (after-Owns vq free ps p qs sized owns),
      last_used-event vq.use_event_idx event vq' ∙ after_last vq free ps p qs sized owns,
    )
