-- ===== src/Virtqueue/Add.antt =====
-- VirtQueue_AddBuf of src/virtio/virtqueue.c: a request takes its descriptors from the free list.
use virtual_scsidevice.Base.{
  ℕ, ◌+◌, ◌-◌, ◌≤◌, ◌<◌, ◌≡◌, ◌≢◌, refl, sym, ap, subst, ◌∙◌, ◌⊎◌, ◌↔◌, inl, inr, List, [], ◌∷◌,
  ◌++◌, true, false, ◌&&◌, ltb, Bool-cases, some, none, length, get_or, set, take, drop,
  take-append-drop, length-take, length_pos, length-append, get_or-set_self, get_or-set_ne,
  take_all, arith,
}
use virtual_scsidevice.Chain.{
  count, count_of_eq, ne_of_count, count-append, Linked, Linked_frame, Linked_split,
}
use virtual_scsidevice.Virtqueue.{
  Virtqueue, TableSetup, Desc, Sg, desc_at, link, fill_chain, fill_table, add_direct, add_indirect,
  add_buf,
}
use virtual_scsidevice.Virtqueue.Owned.{
  IsChain, Pending, all_held, id_link, Owns, IsSized, AreRequests-frame,
}
use virtual_scsidevice.Virtqueue.Fill.{
  Route, fill_chain_frame, fill_chain_head, fill_chain-IsChain, desc_at-set_ne,
}

module _ (vq : Virtqueue) (h : ℕ) (t rest : List ℕ) (ps : List Pending) (sized : IsSized vq)
    (owns : Owns vq (h ∷ (t ++ rest)) ps) where
  -- The first descriptors of the free list, `h ∷ t`, and the link behind them.
  cut :
      (u : ℕ) × Linked id_link (link vq.desc) vq.free_head (h ∷ t) u
      × Linked id_link (link vq.desc) u rest owns.last
  cut = Linked_split id_link (link vq.desc) vq.free_head (h ∷ t) rest owns.last owns.linked

  apart : (j : ℕ) → count j (h ∷ t) + count j rest + count j (all_held ps) ≤ 1
  apart j = omega (arith, owns.once j, count-append j t rest)

  taken_inside : (j : ℕ) → count j (h ∷ t) ≢ 0 → j < vq.num
  taken_inside j n = owns.below j (λ e. n (omega (arith, count-append j t rest)))

  route : Route vq.desc vq.free_head (h ∷ t) cut.0
  route = record {
    linked = cut.1;
    distinct = λ j. omega (arith, apart j);
    inside = λ j n. omega (arith, taken_inside j n, sized.descs);
    short = λ j n. omega (arith, taken_inside j n, sized.small);
  }

  -- The counts of the new state.
  once' : (j : ℕ) → count j rest + count j (h ∷ t ++ all_held ps) ≤ 1
  once' j = omega (arith, apart j, count-append j (h ∷ t) (all_held ps))

  below' : (j : ℕ) → count j rest + count j ((h ∷ t) ++ all_held ps) ≢ 0 → j < vq.num
  below' j n =
      owns.below j
        (λ e. n (omega (arith, count-append j (h ∷ t) (all_held ps), count-append j t rest)))

  total' : length rest + length ((h ∷ t) ++ all_held ps) ≡ vq.num
  total' = omega (arith, owns.total, length-append {0} t rest, length-append {0} t (all_held ps))

  -- The entries of the other requests are not at the new head.
  other_entry :
      {A : Type 0} (l : List A) (v x : A) (j : ℕ)
      → count j (all_held ps) ≢ 0
      → get_or (set l vq.free_head v) j x ≡ get_or l j x
  other_entry l v x j n =
      get_or-set_ne l vq.free_head j v x
        (λ e. n (omega (arith, apart j, count_of_eq j h t (sym cut.1.0 ∙ e))))

  head_inside : vq.free_head < vq.num
  head_inside = subst (λ k. k < vq.num) (sym cut.1.0) (taken_inside h (count_of_eq h h t refl))

  -- The direct path takes `h ∷ t` for the request.
  module _ (sg : List Sg) (out in_num cookie : ℕ) (ne : sg ≢ []) (e : length sg ≡ out + in_num)
      (e' : length (h ∷ t) ≡ out + in_num) where
    used : List Sg
    used = take (out + in_num) sg

    used_all : used ≡ sg
    unfolding used
    used_all = take_all (out + in_num) sg (omega arith)

    used-length : length (h ∷ t) ≡ length used
    used-length = omega (arith, ap (length {0}) used_all)

    filled : List Desc × ℕ
    filled = fill_chain vq.modern out 0 used vq.free_head vq.desc

    filled_frame : (j : ℕ) → count j (h ∷ t) ≡ 0 → desc_at filled.0 j ≡ desc_at vq.desc j
    unfolding filled
    filled_frame j z =
        fill_chain_frame vq.modern out used 0 vq.free_head vq.desc (h ∷ t) cut.0 j used-length route
          z

    filled_head : filled.1 ≡ cut.0
    unfolding filled
    filled_head =
        fill_chain_head vq.modern out used 0 vq.free_head vq.desc (h ∷ t) cut.0 used-length route

    filled_links : Linked id_link (link filled.0) filled.1 rest owns.last
    filled_links =
        subst (λ k. Linked id_link (link filled.0) k rest owns.last) (sym filled_head)
          (Linked_frame id_link (link vq.desc) (link filled.0) cut.0 rest owns.last
            (λ j n. ap (λ (x : Desc). x.next) (filled_frame j (omega (arith, apart j)))) cut.2)

    filled-IsChain : IsChain vq.modern filled.0 (h ∷ t)
    unfolding filled
    filled-IsChain =
        fill_chain-IsChain vq.modern out used 0 vq.free_head vq.desc (h ∷ t) cut.0
          (λ q. ne (sym used_all ∙ q)) used-length route

    pub direct_Owns :
        Owns
          (add_direct vq sg out in_num cookie)
          rest
          (record { cookie = cookie; head = h; rest = t } ∷ ps)
    unfolding add_direct filled used
    direct_Owns = record {
      last = owns.last;
      linked = filled_links;
      free_count =
          omega (arith, owns.free_count, owns.total, length-append {0} t rest, sized.small);
      requests = (
        record {
          cookie_kept =
              subst (λ k. get_or (set vq.cookies vq.free_head cookie) k 0 ≡ cookie) cut.1.0
                (get_or-set_self vq.cookies vq.free_head cookie 0
                  (omega (arith, head_inside, sized.cookie_slots)));
          shape = inl (
            subst (λ k. get_or (set vq.indirect_tables vq.free_head none) k none ≡ none) cut.1.0
                (get_or-set_self vq.indirect_tables vq.free_head none none
                  (omega (arith, head_inside, sized.table_slots))),
            filled-IsChain,
          );
        },
        AreRequests-frame vq _ ps refl (λ j n. filled_frame j (omega (arith, apart j)))
            (λ j n. (other_entry vq.cookies _ _ j n, other_entry vq.indirect_tables _ _ j n))
            owns.requests,
      );
      once = once';
      below = below';
      total = total';
    }

-- The indirect path takes the first free descriptor.
pub indirect_Owns :
    (vq : Virtqueue) (h : ℕ) (rest : List ℕ) (ps : List Pending)
    → IsSized vq
    → Owns vq (h ∷ rest) ps
    → (sg : List Sg) (out in_num cookie phys : ℕ)
    → Owns
        (add_indirect vq sg out in_num cookie phys)
        rest
        (record { cookie = cookie; head = h; rest = [] } ∷ ps)
unfolding add_indirect
indirect_Owns vq h rest ps sized owns sg out in_num cookie phys =
    let head : vq.free_head ≡ h = owns.linked.0 in
    let vq' = add_indirect vq sg out in_num cookie phys in
    let entries = some (fill_table vq.modern out 0 (take (out + in_num) sg)) in
    let table : get_or vq'.indirect_tables h none ≡ entries =
      subst (λ k. get_or (set vq.indirect_tables vq.free_head entries) k none ≡ entries) head
        (get_or-set_self vq.indirect_tables vq.free_head entries none
          (omega (arith, head_inside vq h [] rest ps sized owns, sized.table_slots))) in
    let same : (j : ℕ)
        → count j (h ∷ []) ≡ 0
        → desc_at (add_indirect vq sg out in_num cookie phys).desc j ≡ desc_at vq.desc j =
      λ j z. desc_at-set_ne vq.desc vq.free_head j _ (λ e. ne_of_count j h [] z (sym head ∙ e)) in
    record {
      last = owns.last;
      linked =
          subst (λ k. Linked id_link (link vq'.desc) (link vq.desc k) rest owns.last) (sym head)
            (Linked_frame id_link (link vq.desc) (link vq'.desc) (link vq.desc h) rest owns.last
              (λ j n.
                ap (λ (x : Desc). x.next)
                  (same j (omega (arith, apart vq h [] rest ps sized owns j))))
              owns.linked.1);
      free_count = omega (arith, owns.free_count, owns.total, sized.small);
      requests = (
        record {
          cookie_kept =
              subst (λ k. get_or (set vq.cookies vq.free_head cookie) k 0 ≡ cookie) head
                (get_or-set_self vq.cookies vq.free_head cookie 0
                  (omega (arith, head_inside vq h [] rest ps sized owns, sized.cookie_slots)));
          shape = inr (λ z. cc (sym z ∙ table), refl);
        },
        AreRequests-frame vq _ ps refl
            (λ j n. same j (omega (arith, apart vq h [] rest ps sized owns j)))
            (λ j n. (
              other_entry vq h [] rest ps sized owns vq.cookies _ _ j n,
              other_entry vq h [] rest ps sized owns vq.indirect_tables _ _ j n,
            ))
            owns.requests,
      );
      once = once' vq h [] rest ps sized owns;
      below = below' vq h [] rest ps sized owns;
      total = total' vq h [] rest ps sized owns;
    }

-- A free list of at least `n` descriptors, `0 < n`, cut behind its first `n`.
free_prefix :
    (n : ℕ) (free : List ℕ)
    → n < length free
    → (h : ℕ) × (t : List ℕ) × (rest : List ℕ) × (free ≡ h ∷ (t ++ rest)) × (length t ≡ n)
free_prefix n [] k = absurd (omega arith)
free_prefix n (h ∷ free) k = (
  h,
  take n free,
  drop n free,
  ap (λ l. h ∷ l) (sym (take-append-drop n free)),
  omega (arith, length-take {0} n free),
)

-- What a successful AddBuf leaves: the request `p` is in flight under its cookie, at the descriptor
-- that was the first free one, and the rest of the free list is left.
pub record Added (vq vq' : Virtqueue) (ps : List Pending) (cookie : ℕ) : Type 0 where
  pub request : Pending
  pub free : List ℕ
  pub same_cookie : request.cookie ≡ cookie
  pub at_head : request.head ≡ vq.free_head
  pub owns : Owns vq' free (request ∷ ps)

add_direct-Added :
    (vq : Virtqueue) (free : List ℕ) (ps : List Pending) (sg : List Sg) (out in_num cookie : ℕ)
    → IsSized vq
    → Owns vq free ps
    → sg ≢ []
    → length sg ≡ out + in_num
    → out + in_num ≤ length free
    → Added vq (add_direct vq sg out in_num cookie) ps cookie
add_direct-Added vq free ps sg out in_num cookie sized owns ne e k =
    let (h, t, rest, cut, long) =
      free_prefix (out + in_num - 1) free (omega (arith, length_pos {0} sg ne)) in
    let owns' : Owns vq (h ∷ (t ++ rest)) ps = subst (λ l. Owns vq l ps) cut owns in
    record {
      request = record { cookie = cookie; head = h; rest = t };
      free = rest;
      same_cookie = refl;
      at_head = sym owns'.linked.0;
      owns =
          direct_Owns vq h t rest ps sized owns' sg out in_num cookie ne e
            (omega (arith, length_pos {0} sg ne));
    }

add_indirect-Added :
    (vq : Virtqueue) (free : List ℕ) (ps : List Pending) (sg : List Sg) (out in_num cookie phys : ℕ)
    → IsSized vq
    → Owns vq free ps
    → 0 < length free
    → Added vq (add_indirect vq sg out in_num cookie phys) ps cookie
add_indirect-Added vq [] ps sg out in_num cookie phys sized owns k = absurd (omega arith)
add_indirect-Added vq (h ∷ rest) ps sg out in_num cookie phys sized owns k = record {
  request = record { cookie = cookie; head = h; rest = [] };
  free = rest;
  same_cookie = refl;
  at_head = sym owns.linked.0;
  owns = indirect_Owns vq h rest ps sized owns sg out in_num cookie phys;
}

-- There is room for a request of `total` entries.
abbrev pub HasRoom : TableSetup → Virtqueue → ℕ → Type 0
HasRoom os vq total =
    (total ≤ vq.num_free)
    ⊎ ((vq.use_indirect ≡ true)
        × (1 < total)
        × (0 < vq.num_free)
        × (os.table_ok ≡ true)
        × (0 < os.dma_entries)
        × (os.list_ok ≡ true))

-- AddBuf returns 0 exactly when the free descriptors suffice: one for each entry on the direct
-- path, or one for an indirect table that the system lets it set up.
add_buf_iff :
    (os : TableSetup) (vq : Virtqueue) (sg : List Sg) (out in_num cookie : ℕ)
    → ((add_buf os vq sg out in_num cookie).0 ≡ true) ↔ HasRoom os vq (out + in_num)
unfolding add_buf
add_buf_iff os vq sg out in_num cookie = (λ h. ground arith, λ h. ground arith)

-- When AddBuf returns -1 the queue is as before.
add_buf_full :
    (os : TableSetup) (vq : Virtqueue) (sg : List Sg) (out in_num cookie : ℕ)
    → (add_buf os vq sg out in_num cookie).0 ≡ false
    → (add_buf os vq sg out in_num cookie).1 ≡ vq
unfolding add_buf
add_buf_full os vq sg out in_num cookie h = ground arith

-- The two ways in which AddBuf succeeds.
add_buf-cases :
    (os : TableSetup) (vq : Virtqueue) (sg : List Sg) (out in_num cookie : ℕ)
    → (add_buf os vq sg out in_num cookie).0 ≡ true
    → ((out + in_num ≤ vq.num_free)
        × ((add_buf os vq sg out in_num cookie).1 ≡ add_direct vq sg out in_num cookie))
      ⊎ ((0 < vq.num_free)
          × ((add_buf os vq sg out in_num cookie).1
              ≡ add_indirect vq sg out in_num cookie os.itbl_phys))
unfolding add_buf
add_buf-cases os vq sg out in_num cookie h =
    elim (Bool-cases (vq.use_indirect && ltb 1 (out + in_num))) [
      | inl i ↦ elim (Bool-cases (os.table_ok && (ltb 0 os.dma_entries && os.list_ok))) [
        | inl mapped ↦ inr (ground arith, ground arith)
        | inr unmapped ↦ inl (ground arith, ground arith)
      ]
      | inr d ↦ inl (ground arith, ground arith)
    ]

-- When AddBuf returns 0 for a non-empty request of as many entries as it announces, the request
-- is in flight with its cookie, headed by the first free descriptor, and every descriptor is in
-- the new free list or in one request exactly once, as before.
pub add_buf-Added :
    (os : TableSetup) (vq : Virtqueue) (free : List ℕ) (ps : List Pending) (sg : List Sg)
    (out in_num cookie : ℕ)
    → IsSized vq
    → Owns vq free ps
    → sg ≢ []
    → length sg ≡ out + in_num
    → (add_buf os vq sg out in_num cookie).0 ≡ true
    → Added vq (add_buf os vq sg out in_num cookie).1 ps cookie
add_buf-Added os vq free ps sg out in_num cookie sized owns ne e k =
    elim (add_buf-cases os vq sg out in_num cookie k) [
      | inl (room, same) ↦
          subst (λ v. Added vq v ps cookie) (sym same)
            (add_direct-Added vq free ps sg out in_num cookie sized owns ne e
              (omega (arith, owns.free_count)))
      | inr (room, same) ↦
          subst (λ v. Added vq v ps cookie) (sym same)
            (add_indirect-Added vq free ps sg out in_num cookie os.itbl_phys sized owns
              (omega (arith, owns.free_count)))
    ]
