-- ===== src/Virtqueue/Ends.antt =====
-- VirtQueue_GetBuf of src/virtio/virtqueue.c ends, whatever the device has written.
use virtual_scsidevice.Base.{
  ℕ, zero, suc, ◌+◌, ◌≤◌, ◌<◌, ◌≡◌, ◌≢◌, ◌⊎◌, inl, inr, refl, ◌∙◌, ◌==◌, leb, Bool, true, false,
  if◌then◌else◌, if_ind, Option, none, some, List, [], ◌∷◌, length, get_or, set, length-set, arith,
}
use virtual_scsidevice.Word.{vr16, vr32, u16, bswap16}
use virtual_scsidevice.Virtqueue.{
  Virtqueue, Desc, desc_at, has_next, cleared, free_chain, give_back, take_back, get_buf,
  used_entry, write_used_event,
}

-- the number of descriptors with a next one
abbrev chained : Bool → List Desc → ℕ
chained m [] = 0
chained m (x ∷ d) = (if has_next m x then 1 else 0) + chained m d

chained_bound : (m : Bool) (d : List Desc) → chained m d ≤ length d
chained_bound m [] = omega arith
chained_bound m (x ∷ d) = ground (arith, chained_bound m d)

cleared-last : (m : Bool) (head : ℕ) → has_next m (cleared head) ≡ false
unfolding vr16 bswap16
cleared-last true head = refl
cleared-last false head = refl

-- Clearing a descriptor that has a next one leaves fewer of them.
chained-cleared :
    (m : Bool) (d : List Desc) (i head : ℕ)
    → has_next m (desc_at d i) ≡ true
    → suc (chained m (set d i (cleared head))) ≤ chained m d
chained-cleared m [] i head h = absurd (cc (h, cleared-last m 0))
chained-cleared m (x ∷ d) zero head h = rw (h, cleared-last m head) (omega arith)
chained-cleared m (x ∷ d) (suc i) head h = omega (arith, chained-cleared m d i head h)

-- The walk ends: it clears what it visits.
free_chain-ends :
    (fuel : ℕ) (m : Bool) (i : ℕ) (d : List Desc) (head freed : ℕ)
    → chained m d < fuel
    → (out : List Desc × ℕ × ℕ) × (free_chain fuel m i d head freed ≡ some out)
      × (length out.0 ≡ length d)
unfolding free_chain
free_chain-ends zero m i d head freed h = absurd (omega (arith, h))
free_chain-ends (suc fuel) m i d head freed h =
    let next = vr16 m (desc_at d i).next in
    let d' = set d i (cleared head) in
    if_ind
      (λ (o : Option (List Desc × ℕ × ℕ)).
        (out : List Desc × ℕ × ℕ) × (o ≡ some out) × (length out.0 ≡ length d))
      (has_next m (desc_at d i)) (free_chain fuel m next d' i (freed + 1)) (some (d', i, freed + 1))
      (λ e.
        let (out, eq, size) =
          free_chain-ends fuel m next d' i (freed + 1)
            (omega (arith, h, chained-cleared m d i head e)) in
        (out, eq, size ∙ length-set d i (cleared head)))
      (λ e. ((d', i, freed + 1), refl, length-set d i (cleared head)))

give_back-ends :
    (vq : Virtqueue) (idx : ℕ) (table : Option (List Desc))
    → length vq.desc ≤ vq.num
    → (out : List Desc × ℕ × ℕ) × (give_back vq idx table ≡ some out)
      × (length out.0 ≡ length vq.desc)
unfolding give_back
give_back-ends vq idx (some table) h = (
  (set vq.desc idx (cleared vq.free_head), idx, 1),
  refl,
  length-set vq.desc idx (cleared vq.free_head),
)
give_back-ends vq idx none h =
    free_chain-ends (suc vq.num) vq.modern idx vq.desc vq.free_head 0
      (omega (arith, h, chained_bound vq.modern vq.desc))

-- What GetBuf returns, and how far it got: with a cookie it took one entry of the used ring.
pub record Pops (vq : Virtqueue) (got : Option (ℕ × Option ℕ × Virtqueue)) : Type 0 where
  pub cookie : ℕ
  pub written : Option ℕ
  pub after : Virtqueue
  pub gives : got ≡ some (cookie, written, after)
  pub size : length after.desc ≡ length vq.desc
  pub same_num : after.num ≡ vq.num
  pub same_used : vr16 after.modern after.used_idx ≡ vr16 vq.modern vq.used_idx
  pub moves :
      (cookie ≡ 0)
      ⊎ ((vq.last_used_idx ≢ vr16 vq.modern vq.used_idx)
          × (after.last_used_idx ≡ u16 (vq.last_used_idx + 1)))

taken_back-Pops :
    (vq after : Virtqueue) (cookie written event : ℕ)
    → vq.last_used_idx ≢ vr16 vq.modern vq.used_idx
    → length after.desc ≡ length vq.desc
    → after.num ≡ vq.num
    → vr16 after.modern after.used_idx ≡ vr16 vq.modern vq.used_idx
    → after.last_used_idx ≡ u16 (vq.last_used_idx + 1)
    → Pops vq (
        some
          (cookie, some written, if vq.use_event_idx then write_used_event event after else after))
taken_back-Pops vq after cookie written event ready size num used last =
    if_ind (λ v. Pops vq (some (cookie, some written, v))) vq.use_event_idx
      (write_used_event event after) after
      (λ _. record {
        cookie = cookie;
        written = some written;
        after = write_used_event event after;
        gives = refl;
        size = size;
        same_num = num;
        same_used = used;
        moves = inr (ready, last);
      })
      (λ _. record {
        cookie = cookie;
        written = some written;
        after = after;
        gives = refl;
        size = size;
        same_num = num;
        same_used = used;
        moves = inr (ready, last);
      })

take_back-Pops :
    (vq : Virtqueue) (desc_id written : ℕ)
    → length vq.desc ≤ vq.num
    → vq.last_used_idx ≢ vr16 vq.modern vq.used_idx
    → Pops vq (take_back vq desc_id written)
unfolding take_back
take_back-Pops vq desc_id written h ready =
    let (out, given, size) =
      give_back-ends vq (u16 desc_id) (get_or vq.indirect_tables desc_id none) h in
    rw (given, take_back) (taken_back-Pops vq _ _ written _ ready size refl refl refl)

-- GetBuf ends for any contents of the rings and of the descriptor table, whose length is at most the
-- queue's size. When it returns a cookie it has read one entry that the device had put into the used
-- ring.
pub get_buf-Pops : (vq : Virtqueue) → length vq.desc ≤ vq.num → Pops vq (get_buf vq)
unfolding get_buf
get_buf-Pops vq h =
    if_ind (Pops vq) (vq.last_used_idx == vr16 vq.modern vq.used_idx) (some (0, none, vq)) _
      (λ _. record {
        cookie = 0;
        written = none;
        after = vq;
        gives = refl;
        size = refl;
        same_num = refl;
        same_used = refl;
        moves = inl refl;
      })
      (λ e.
        if_ind (Pops vq) (leb vq.num (vr32 vq.modern (used_entry vq).id))
          (some (0, none, record vq { last_used_idx = u16 (vq.last_used_idx + 1) })) _
          (λ _. record {
            cookie = 0;
            written = none;
            after = record vq { last_used_idx = u16 (vq.last_used_idx + 1) };
            gives = refl;
            size = refl;
            same_num = refl;
            same_used = refl;
            moves = inl refl;
          })
          (λ _. take_back-Pops vq _ _ h (λ f. ground (arith, e, f))))
