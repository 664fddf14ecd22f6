-- ===== src/Virtqueue/Fill.antt =====
-- The loop of VirtQueue_AddBuf that writes a request over the first descriptors of the free list.
use virtual_scsidevice.Base.{
  ℕ, ◌+◌, ◌<◌, ◌≡◌, ◌≢◌, refl, sym, ap, subst, ◌∙◌, List, [], ◌∷◌, Bool, true, false, length, set,
  leb, Bool-cases, inl, inr, get_or-set_self, get_or-set_ne, length-set, arith,
}
use virtual_scsidevice.Word.{vr16, vr16-vr16}
use virtual_scsidevice.Chain.{count, count_head, ne_of_count, Distinct, Linked, Linked_frame}
use virtual_scsidevice.Virtqueue.{Desc, no_desc, Sg, desc_at, link, fill_chain, has_next, entry}
use virtual_scsidevice.Virtqueue.Owned.{IsChain, id_link}

pub desc_at-set_self : (d : List Desc) (i : ℕ) (v : Desc) → i < length d → desc_at (set d i v) i ≡ v
desc_at-set_self d i v h = get_or-set_self d i v no_desc h

pub desc_at-set_ne :
    (d : List Desc) (i j : ℕ) (v : Desc) → i ≢ j → desc_at (set d i v) j ≡ desc_at d j
desc_at-set_ne d i j v h = get_or-set_ne d i j v no_desc h

-- The links lead from `idx` through `c` to `u`, within the table and with no index twice.
pub record Route (d : List Desc) (idx : ℕ) (c : List ℕ) (u : ℕ) : Type 0 where
  pub linked : Linked id_link (link d) idx c u
  pub distinct : Distinct c
  pub inside : (j : ℕ) → count j c ≢ 0 → j < length d
  pub short : (j : ℕ) → count j c ≢ 0 → j < 65536

pub not_twice :
    (d : List Desc) (idx i : ℕ) (c : List ℕ) (u : ℕ) → Route d idx (i ∷ c) u → count i c ≡ 0
not_twice d idx i c u r = omega (arith, r.distinct i, count_head i c)

-- Writing the first descriptor leaves the route of the others.
pub Route_step :
    (d : List Desc) (idx i : ℕ) (c : List ℕ) (u : ℕ) (v : Desc)
    → Route d idx (i ∷ c) u
    → Route (set d i v) (link d i) c u
Route_step d idx i c u v r = record {
  linked =
      Linked_frame id_link (link d) (link (set d i v)) (link d i) c u
        (λ j n.
          ap (λ (x : Desc). x.next)
            (desc_at-set_ne d i j v
              (λ e. n (subst (λ k. count k c ≡ 0) e (not_twice d idx i c u r)))))
        r.linked.1;
  distinct = λ j. omega (arith, r.distinct j);
  inside = λ j n. rw length-set (r.inside j (λ e. n (omega arith)));
  short = λ j n. r.short j (λ e. n (omega arith));
}

-- The same, as the code writes it: at `idx`.
pub Route_next :
    (d : List Desc) (idx i : ℕ) (c : List ℕ) (u : ℕ) (v : Desc)
    → Route d idx (i ∷ c) u
    → Route (set d idx v) (link d idx) c u
Route_next d idx i c u v r =
    subst (λ k. Route (set d k v) (link d k) c u) (sym r.linked.0) (Route_step d idx i c u v r)

pub first_inside :
    (d : List Desc) (idx i : ℕ) (c : List ℕ) (u : ℕ) → Route d idx (i ∷ c) u → idx < length d
first_inside d idx i c u r =
    subst (λ k. k < length d) (sym r.linked.0) (r.inside i (λ e. omega (arith, count_head i c)))

pub first_short :
    (d : List Desc) (idx i : ℕ) (c : List ℕ) (u : ℕ) → Route d idx (i ∷ c) u → i < 65536
first_short d idx i c u r = r.short i (λ e. omega (arith, count_head i c))

pub has_next-entry :
    (m : Bool) (out n : ℕ) (more : Bool) (s : Sg) (next : ℕ)
    → has_next m (entry m out n more s next) ≡ more
has_next-entry m out n true s next = elim (Bool-cases (leb out n)) [
  | inl w ↦ rw (w, vr16-vr16 m 3 (omega arith))
  | inr w ↦ rw (w, vr16-vr16 m 1 (omega arith))
]
has_next-entry m out n false s next = elim (Bool-cases (leb out n)) [
  | inl w ↦ rw (w, vr16-vr16 m 2 (omega arith))
  | inr w ↦ rw (w, vr16-vr16 m 0 (omega arith))
]

module _ (m : Bool) (out : ℕ) where
  -- The loop writes nothing but the descriptors of the request.
  pub fill_chain_frame :
      (sg : List Sg) (n idx : ℕ) (d : List Desc) (c : List ℕ) (u j : ℕ)
      → length c ≡ length sg
      → Route d idx c u
      → count j c ≡ 0
      → desc_at (fill_chain m out n sg idx d).0 j ≡ desc_at d j
  unfolding fill_chain
  fill_chain_frame [] n idx d c u j e r z = refl
  fill_chain_frame (s ∷ sg) n idx d [] u j e r z = absurd (omega arith)
  fill_chain_frame (s ∷ []) n idx d (i ∷ c) u j e r z =
      desc_at-set_ne d idx j _ (λ q. ne_of_count j i c z (sym r.linked.0 ∙ q))
  fill_chain_frame (s ∷ t ∷ sg) n idx d (i ∷ c) u j e r z =
      fill_chain_frame (t ∷ sg) (n + 1) (link d idx) _ c u j (omega arith)
        (Route_next d idx i c u _ r) (omega arith)
      ∙ desc_at-set_ne d idx j _ (λ q. ne_of_count j i c z (sym r.linked.0 ∙ q))

  -- `free_head` ends behind the request.
  pub fill_chain_head :
      (sg : List Sg) (n idx : ℕ) (d : List Desc) (c : List ℕ) (u : ℕ)
      → length c ≡ length sg
      → Route d idx c u
      → (fill_chain m out n sg idx d).1 ≡ u
  unfolding fill_chain
  fill_chain_head [] n idx d [] u e r = r.linked
  fill_chain_head [] n idx d (i ∷ c) u e r = absurd (omega arith)
  fill_chain_head (s ∷ sg) n idx d [] u e r = absurd (omega arith)
  fill_chain_head (s ∷ []) n idx d (i ∷ []) u e r = rw r.linked.0 r.linked.1
  fill_chain_head (s ∷ []) n idx d (i ∷ k ∷ c) u e r = absurd (omega arith)
  fill_chain_head (s ∷ t ∷ sg) n idx d (i ∷ c) u e r =
      fill_chain_head (t ∷ sg) (n + 1) (link d idx) _ c u (omega arith) (Route_next d idx i c u _ r)

  pub length-fill_chain :
      (sg : List Sg) (n idx : ℕ) (d : List Desc) → length (fill_chain m out n sg idx d).0 ≡ length d
  unfolding fill_chain
  length-fill_chain [] n idx d = refl
  length-fill_chain (s ∷ []) n idx d = length-set d idx _
  length-fill_chain (s ∷ t ∷ sg) n idx d =
      length-fill_chain (t ∷ sg) (n + 1) (link d idx) _ ∙ length-set d idx _

  -- one round of the loop
  pub fill_chain_cons :
      (s t : Sg) (sg : List Sg) (n idx : ℕ) (d : List Desc)
      → fill_chain m out n (s ∷ t ∷ sg) idx d
        ≡ fill_chain m out
            (n + 1)
            (t ∷ sg)
            (link d idx)
            (set d idx (entry m out n true s (vr16 m (link d idx))))
  unfolding fill_chain
  fill_chain_cons s t sg n idx d = refl

  -- The first descriptor keeps what the loop wrote in it.
  pub fill_chain_first :
      (s t : Sg) (sg : List Sg) (n idx : ℕ) (d : List Desc) (i : ℕ) (c : List ℕ) (u : ℕ)
      → length c ≡ length (t ∷ sg)
      → Route d idx (i ∷ c) u
      → desc_at (fill_chain m out n (s ∷ t ∷ sg) idx d).0 idx
        ≡ entry m out n true s (vr16 m (link d idx))
  unfolding fill_chain
  fill_chain_first s t sg n idx d i c u e r =
      let v = entry m out n true s (vr16 m (link d idx)) in
      fill_chain_frame (t ∷ sg) (n + 1) (link d idx) (set d idx v) c u idx e
        (Route_next d idx i c u v r)
        (subst (λ k. count k c ≡ 0) (sym r.linked.0) (not_twice d idx i c u r))
      ∙ desc_at-set_self d idx v (first_inside d idx i c u r)

  pub fill_chain_last :
      (s : Sg) (n idx : ℕ) (d : List Desc) (i u : ℕ)
      → Route d idx (i ∷ []) u
      → desc_at (fill_chain m out n (s ∷ []) idx d).0 idx ≡ entry m out n false s (link d idx)
  unfolding fill_chain
  fill_chain_last s n idx d i u r =
      desc_at-set_self d idx (entry m out n false s (link d idx)) (first_inside d idx i [] u r)

  -- The request that is written: its flags and links lead through `c`.
  pub fill_chain-IsChain :
      (sg : List Sg) (n idx : ℕ) (d : List Desc) (c : List ℕ) (u : ℕ)
      → sg ≢ []
      → length c ≡ length sg
      → Route d idx c u
      → IsChain m (fill_chain m out n sg idx d).0 c
  fill_chain-IsChain [] n idx d c u ne e r = absurd (ne refl)
  fill_chain-IsChain (s ∷ sg) n idx d [] u ne e r = absurd (omega arith)
  fill_chain-IsChain (s ∷ []) n idx d (i ∷ []) u ne e r =
      subst (λ k. has_next m (desc_at (fill_chain m out n (s ∷ []) idx d).0 k) ≡ false) r.linked.0
        (rw (fill_chain_last s n idx d i u r) (has_next-entry m out n false s (link d idx)))
  fill_chain-IsChain (s ∷ []) n idx d (i ∷ j ∷ c) u ne e r = absurd (omega arith)
  fill_chain-IsChain (s ∷ t ∷ sg) n idx d (i ∷ []) u ne e r = absurd (omega arith)
  fill_chain-IsChain (s ∷ t ∷ sg) n idx d (i ∷ j ∷ c) u ne e r =
      let d' = (fill_chain m out n (s ∷ t ∷ sg) idx d).0 in
      let v = entry m out n true s (vr16 m (link d idx)) in
      let first : desc_at d' i ≡ v =
        subst (λ k. desc_at d' k ≡ v) r.linked.0
          (fill_chain_first s t sg n idx d i (j ∷ c) u (omega arith) r) in
      let r' = Route_next d idx i (j ∷ c) u v r in
      let second : link d idx ≡ j = ap (link d) r.linked.0 ∙ r.linked.1.0 in
      (
        rw first (has_next-entry m out n true s (vr16 m (link d idx))),
        rw first (rw second (vr16-vr16 m j (first_short (set d idx v) (link d idx) j c u r'))),
        subst (λ (x : List Desc × ℕ). IsChain m x.0 (j ∷ c)) (sym (fill_chain_cons s t sg n idx d))
            (fill_chain-IsChain (t ∷ sg) (n + 1) (link d idx) (set d idx v) (j ∷ c) u (λ q. cc)
              (omega arith) r'),
      )
