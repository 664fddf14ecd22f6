-- ===== src/Virtqueue/Device.antt =====
-- What the device reads from the descriptors that VirtQueue_AddBuf publishes: it follows the NEXT
-- flags from the head, as the VirtIO specification says, and reads every field in the byte order
-- of the mode.
use virtual_scsidevice.Base.{
  ℕ, zero, suc, ◌+◌, ◌<◌, ◌≡◌, ◌^◌, sym, ap, subst, ◌∙◌, List, [], ◌∷◌, Bool, true, false, not,
  length, Option, none, some, set, leb, ◌==◌, Bool-cases, inl, inr, if◌then◌else◌, bit_and, arith,
}
use virtual_scsidevice.Word.{vr16, vr32, vr64, vr16-vr16, vr32-vr32, vr64-vr64}
use virtual_scsidevice.Virtqueue.{
  Desc, Sg, desc_at, link, fill_chain, has_next, entry, desc_f_write,
}
use virtual_scsidevice.Virtqueue.Fill.{
  Route, Route_next, fill_chain_first, fill_chain_last, fill_chain_cons, has_next-entry,
  first_short,
}

pub record Buffer : Type 0 where
  pub addr : ℕ
  pub len : ℕ
  pub writable : Bool

-- the buffer that one descriptor describes
abbrev pub read_desc : Bool → Desc → Buffer
read_desc m d = record {
  addr = vr64 m d.addr;
  len = vr32 m d.len;
  writable = not (bit_and (vr16 m d.flags) desc_f_write == 0);
}

-- what the device has read before the rest of a chain
abbrev pub and_then : Buffer → Option (List Buffer) → Option (List Buffer)
and_then b none = none
and_then b (some rest) = some (b ∷ rest)

-- The buffers of the chain at `idx`: `none` says that a descriptor still has the NEXT flag when the fuel,
-- the number of descriptors that the device follows, is used up.
unfoldable pub read_chain : ℕ → Bool → List Desc → ℕ → Option (List Buffer)
read_chain zero m d idx = none
read_chain (suc fuel) m d idx =
    let b = read_desc m (desc_at d idx) in
    let rest = read_chain fuel m d (vr16 m (link d idx)) in
    if has_next m (desc_at d idx) then and_then b rest else some (b ∷ [])

-- The buffers that a request asks for: entries before `out` are read by the device, the others are
-- written by it.
abbrev pub buffers : ℕ → ℕ → List Sg → List Buffer
buffers out n [] = []
buffers out n (s ∷ sg) =
    record { addr = s.addr; len = s.len; writable = leb out n } ∷ buffers out (n + 1) sg

-- The fields of `struct vring_sg` are 32-bit.
abbrev pub AreWords : List Sg → Type 0
AreWords [] = Unit {0}
AreWords (s ∷ sg) = (s.addr < 2 ^ 32) × (s.len < 2 ^ 32) × AreWords sg

pub read_desc-entry :
    (m : Bool) (out n : ℕ) (more : Bool) (s : Sg) (next : ℕ)
    → s.addr < 2 ^ 32
    → s.len < 2 ^ 32
    → read_desc m (entry m out n more s next)
      ≡ record { addr = s.addr; len = s.len; writable = leb out n }
read_desc-entry m out n more s next h k =
    let a : vr64 m (vr64 m s.addr) ≡ s.addr = vr64-vr64 m s.addr (omega arith) in
    let l : vr32 m (vr32 m s.len) ≡ s.len = vr32-vr32 m s.len k in rw (a, l) (flag more)
  where
    flag :
        (more : Bool)
        → ◌≡◌ {A = Buffer}
            (record {
              addr = s.addr;
              len = s.len;
              writable = (read_desc m (entry m out n more s next)).writable;
            })
            (record { addr = s.addr; len = s.len; writable = leb out n })
    flag true = elim (Bool-cases (leb out n)) [
      | inl w ↦ rw (w, vr16-vr16 m 3 (omega arith))
      | inr w ↦ rw (w, vr16-vr16 m 1 (omega arith))
    ]
    flag false = elim (Bool-cases (leb out n)) [
      | inl w ↦ rw (w, vr16-vr16 m 2 (omega arith))
      | inr w ↦ rw (w, vr16-vr16 m 0 (omega arith))
    ]

pub read_chain_step :
    (fuel : ℕ) (m : Bool) (d : List Desc) (idx j : ℕ) (b : Buffer) (rest : List Buffer)
    → read_desc m (desc_at d idx) ≡ b
    → has_next m (desc_at d idx) ≡ true
    → vr16 m (link d idx) ≡ j
    → read_chain fuel m d j ≡ some rest
    → read_chain (suc fuel) m d idx ≡ some (b ∷ rest)
unfolding read_chain
read_chain_step fuel m d idx j b rest e1 e2 e3 e4 = rw (e2, e3, e4) (ap (λ x. some (x ∷ rest)) e1)

-- When the free list from `idx` has a descriptor for each entry, of which there is one at least, and
-- the entries are of 32 bits, the device that follows the direct chain from `idx` reads the buffers of
-- the request, in their order and with their direction, and finds the end of the chain, no NEXT flag,
-- at the last one and not before.
pub read_chain-fill_chain :
    (m : Bool) (out : ℕ) (sg : List Sg) (n idx : ℕ) (d : List Desc) (c : List ℕ) (u : ℕ)
    → 0 < length sg
    → AreWords sg
    → length c ≡ length sg
    → Route d idx c u
    → read_chain (length sg) m (fill_chain m out n sg idx d).0 idx ≡ some (buffers out n sg)
unfolding read_chain
read_chain-fill_chain m out [] n idx d c u some_entry w e r = absurd (omega arith)
read_chain-fill_chain m out (s ∷ sg) n idx d [] u some_entry w e r = absurd (omega arith)
read_chain-fill_chain m out (s ∷ []) n idx d (i ∷ []) u some_entry w e r =
    rw (fill_chain_last m out s n idx d i u r) (
      rw (has_next-entry m out n false s (link d idx))
        (rw (read_desc-entry m out n false s (link d idx) w.0 w.1)))
read_chain-fill_chain m out (s ∷ []) n idx d (i ∷ j ∷ c) u some_entry w e r = absurd (omega arith)
read_chain-fill_chain m out (s ∷ t ∷ sg) n idx d (i ∷ []) u some_entry w e r = absurd (omega arith)
read_chain-fill_chain m out (s ∷ t ∷ sg) n idx d (i ∷ j ∷ c) u some_entry w e r =
    let nx = vr16 m (link d idx) in
    let second : link d idx ≡ j = ap (link d) r.linked.0 ∙ r.linked.1.0 in
    let r' = Route_next d idx i (j ∷ c) u (entry m out n true s nx) r in
    let back : vr16 m nx ≡ link d idx = vr16-vr16 m (link d idx) (
      subst (λ k. k < 65536) (sym second)
        (first_short (set d idx (entry m out n true s nx)) (link d idx) j c u r')) in
    let later =
      read_chain-fill_chain m out (t ∷ sg) (n + 1) (link d idx)
        (set d idx (entry m out n true s nx)) (j ∷ c) u (omega arith) w.2 (omega arith) r' in
    let first = fill_chain_first m out s t sg n idx d i (j ∷ c) u (omega arith) r in
    let d' = (fill_chain m out n (s ∷ t ∷ sg) idx d).0 in
    read_chain_step (length (t ∷ sg)) m d' idx (link d idx) _ _
      (rw first (read_desc-entry m out n true s nx w.0 w.1))
      (rw first (has_next-entry m out n true s nx)) (rw (first, link) back)
      (rw (fill_chain_cons m out s t sg n idx d) later)
