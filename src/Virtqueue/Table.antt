-- ===== src/Virtqueue/Table.antt =====
-- What the device reads from the indirect table that VirtQueue_AddBuf of src/virtio/virtqueue.c
-- fills.
use mathlib.Core.List.{append_assoc}
use virtual_scsidevice.Base.{
  ℕ, ◌+◌, ◌<◌, ◌≡◌, refl, subst, ◌∙◌, List, [], ◌∷◌, ◌++◌, Bool, true, false, length, length-append,
  some, get_or, arith,
}
use virtual_scsidevice.Word.{u16, vr16, vr16-vr16}
use virtual_scsidevice.Virtqueue.{Desc, Sg, no_desc, desc_at, link, fill_table, entry}
use virtual_scsidevice.Virtqueue.Fill.{has_next-entry}
use virtual_scsidevice.Virtqueue.Device.{
  read_chain, buffers, AreWords, read_desc-entry, read_chain_step,
}

get_or-length {ℓ} :
    {A : Type ℓ} (pre : List A) (x : A) (post : List A) (d : A)
    → get_or (pre ++ (x ∷ post)) (length pre) d ≡ x
get_or-length [] x post d = refl
get_or-length (y ∷ pre) x post d = get_or-length pre x post d

-- Entry `n` stands at the end of the entries before it.
desc_at-end :
    (pre : List Desc) (x : Desc) (post : List Desc) (n : ℕ)
    → length pre ≡ n
    → desc_at (pre ++ (x ∷ post)) n ≡ x
desc_at-end pre x post n e =
    subst (λ k. desc_at (pre ++ (x ∷ post)) k ≡ x) e (get_or-length pre x post no_desc)

-- The rest of the table, behind the entries `pre`, holds the rest of the buffers.
read_chain-rest :
    (m : Bool) (out n : ℕ) (sg : List Sg) (pre : List Desc)
    → 0 < length sg
    → AreWords sg
    → length pre ≡ n
    → n + length sg < 65536
    → read_chain (length sg) m (pre ++ fill_table m out n sg) n ≡ some (buffers out n sg)
unfolding read_chain fill_table
read_chain-rest m out n [] pre some_entry w e small = absurd (omega arith)
read_chain-rest m out n (s ∷ []) pre some_entry w e small =
    let nx = vr16 m (u16 (n + 1)) in
    rw (desc_at-end pre (entry m out n false s nx) [] n e)
      (rw (has_next-entry m out n false s nx) (rw (read_desc-entry m out n false s nx w.0 w.1)))
read_chain-rest m out n (s ∷ t ∷ sg) pre some_entry w e small =
    let nx = vr16 m (u16 (n + 1)) in
    let x = entry m out n true s nx in
    let post = fill_table m out (n + 1) (t ∷ sg) in
    let here = desc_at-end pre x post n e in
    let back : vr16 m nx ≡ n + 1 = vr16-vr16 m (u16 (n + 1)) (omega arith) ∙ omega arith in
    let later =
      read_chain-rest m out (n + 1) (t ∷ sg) (pre ++ (x ∷ [])) (omega arith) w.2
        (omega (arith, length-append {0} pre (x ∷ []), e)) (omega arith) in
    read_chain_step (length (t ∷ sg)) m (pre ++ (x ∷ post)) n (n + 1) _ _
      (rw here (read_desc-entry m out n true s nx w.0 w.1))
      (rw here (has_next-entry m out n true s nx)) (rw (here, link) back)
      (subst (λ d. read_chain (length (t ∷ sg)) m d (n + 1) ≡ some (buffers out (n + 1) (t ∷ sg)))
        (append_assoc pre (x ∷ []) post) later)

-- For a request of at least one and less than 65536 entries of 32 bits, the device that follows the
-- indirect table from its first entry reads the buffers of the request, in their order and with their
-- direction, and finds the end of the chain, no NEXT flag, at the last one and not before.
pub read_chain-fill_table :
    (m : Bool) (out : ℕ) (sg : List Sg)
    → 0 < length sg
    → AreWords sg
    → length sg < 65536
    → read_chain (length sg) m (fill_table m out 0 sg) 0 ≡ some (buffers out 0 sg)
read_chain-fill_table m out sg some_entry w small =
    read_chain-rest m out 0 sg [] some_entry w refl (omega arith)
