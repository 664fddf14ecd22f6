-- ===== src/Chain.antt =====
-- Linked lists that are threaded through an array, as the free descriptor list of
-- src/virtio/virtqueue.c and the free slot list of `struct VirtIOUSCSIDevUnit`, and how often an
-- index stands in such a list.
use virtual_scsidevice.Base.{
  ℕ, zero, suc, ◌<◌, ltb, leb, ◌&&◌, Bool-cases, ==_iff, inl, inr, ◌+◌, ◌≤◌, ◌≡◌, ◌≢◌, refl, subst,
  List, [], ◌∷◌, ◌++◌, ◌==◌, if◌then◌else◌, length, arith,
}

abbrev pub count : ℕ → List ℕ → ℕ
count j [] = 0
count j (i ∷ l) = (if j == i then 1 else 0) + count j l

-- no index stands twice
abbrev pub Distinct : List ℕ → Type 0
Distinct l = (j : ℕ) → count j l ≤ 1

pub count-append : (j : ℕ) (l m : List ℕ) → count j (l ++ m) ≡ count j l + count j m
count-append j [] m = omega arith
count-append j (i ∷ l) m = omega (arith, count-append j l m)

pub count_head : (i : ℕ) (l : List ℕ) → count i (i ∷ l) ≡ suc (count i l)
count_head i l = ground arith

pub ne_of_count : (j i : ℕ) (l : List ℕ) → count j (i ∷ l) ≡ 0 → i ≢ j
ne_of_count j i l h e = omega (arith, count_head j l, subst (λ k. count j (k ∷ l) ≡ 0) e h)

pub count_of_eq : (j i : ℕ) (l : List ℕ) → i ≡ j → count j (i ∷ l) ≢ 0
count_of_eq j i l e z = ne_of_count j i l z e

-- `l` reversed, and then `m`
abbrev pub rev_onto : List ℕ → List ℕ → List ℕ
rev_onto [] m = m
rev_onto (i ∷ l) m = rev_onto l (i ∷ m)

pub count-rev_onto : (j : ℕ) (l m : List ℕ) → count j (rev_onto l m) ≡ count j l + count j m
count-rev_onto j [] m = omega arith
count-rev_onto j (i ∷ l) m = omega (arith, count-rev_onto j l (i ∷ m))

pub length-rev_onto : (l m : List ℕ) → length (rev_onto l m) ≡ length l + length m
length-rev_onto [] m = omega arith
length-rev_onto (i ∷ l) m = omega (arith, length-rev_onto l (i ∷ m))

-- how many entries of the list are below `n`
abbrev pub total_below : ℕ → List ℕ → ℕ
total_below zero l = 0
total_below (suc n) l = count n l + total_below n l

total_below-cons :
    (n i : ℕ) (l : List ℕ) → total_below n (i ∷ l) ≡ (if ltb i n then 1 else 0) + total_below n l
total_below-cons zero i l = ground arith
total_below-cons (suc n) i l = ground (arith, total_below-cons n i l)

total_below_all :
    (n : ℕ) (l : List ℕ) → ((j : ℕ) → count j l ≢ 0 → j < n) → total_below n l ≡ length l
total_below_all zero [] b = refl
total_below_all (suc n) [] b = omega (arith, total_below_all n [] (λ j h. absurd (h refl)))
total_below_all n (i ∷ l) b =
    let lt : i < n = b i (λ e. omega (arith, count_head i l)) in
    let here : total_below n (i ∷ l) ≡ 1 + total_below n l =
      ground (arith, total_below-cons n i l) in
    omega (arith, here, total_below_all n l (λ j h. b j (λ e. h (omega (arith, e)))))

total_below_bound : (n : ℕ) (l : List ℕ) → Distinct l → total_below n l ≤ n
total_below_bound zero l d = omega arith
total_below_bound (suc n) l d = omega (arith, d n, total_below_bound n l d)

total_below_missing :
    (n i : ℕ) (l : List ℕ) → Distinct l → i < n → count i l ≡ 0 → total_below n l < n
total_below_missing zero i l d lt z = absurd (omega arith)
total_below_missing (suc n) i l d lt z = elim (Bool-cases (i == n)) [
  | inl e ↦
      let same : i ≡ n = (==_iff i n).0 e in
      omega (arith, subst (λ k. count k l ≡ 0) same z, total_below_bound n l d)
  | inr e ↦ omega (arith, d n, total_below_missing n i l d (ground (arith, e)) z)
]

-- A list without repetition below `n` that misses an index below `n` is shorter than `n`.
pub length_missing :
    (n i : ℕ) (l : List ℕ)
    → Distinct l
    → ((j : ℕ) → count j l ≢ 0 → j < n)
    → i < n
    → count i l ≡ 0
    → length l < n
length_missing n i l d b lt z =
    omega (arith, total_below_all n l b, total_below_missing n i l d lt z)

-- the numbers from `j` on
abbrev pub range : ℕ → ℕ → List ℕ
range j zero = []
range j (suc k) = j ∷ range (j + 1) k

pub count-range : (i j k : ℕ) → count i (range j k) ≡ (if leb j i && ltb i (j + k) then 1 else 0)
count-range i j zero = ground arith
count-range i j (suc k) = ground (arith, count-range i (j + 1) k)

pub range_once : (i j k : ℕ) → count i (range j k) ≤ 1
range_once i j k = ground (arith, count-range i j k)

pub range_inside : (i j k : ℕ) → count i (range j k) ≢ 0 → i < j + k
range_inside i j k h = ground (arith, count-range i j k, h)

pub range_misses : (i k : ℕ) → count i (range 0 k) ≡ 0 → k ≤ i
range_misses i k h = ground (arith, count-range i 0 k, h)

pub length-range : (j k : ℕ) → length (range j k) ≡ k
length-range j zero = refl
length-range j (suc k) = omega (arith, length-range (j + 1) k)

module _ {X : Type 0} (ptr : ℕ → X) where
  -- From the link `h` the links lead through the indices `l` to the link `t`.
  abbrev pub Linked : (ℕ → X) → X → List ℕ → X → Type 0
  Linked next h [] t = h ≡ t
  Linked next h (i ∷ l) t = (h ≡ ptr i) × Linked next (next i) l t

  -- Only the links of the indices on the way matter.
  pub Linked_frame :
      (next next' : ℕ → X) (h : X) (l : List ℕ) (t : X)
      → ((j : ℕ) → count j l ≢ 0 → next' j ≡ next j)
      → Linked next h l t
      → Linked next' h l t
  Linked_frame next next' h [] t same k = k
  Linked_frame next next' h (i ∷ l) t same k =
      let here : next' i ≡ next i = same i (λ e. omega (arith, count_head i l)) in
      (
        k.0,
        rw here (Linked_frame next next' (next i) l t (λ j p. same j (λ e. p (omega arith))) k.1),
      )

  -- A list of links can be cut in two.
  pub Linked_split :
      (next : ℕ → X) (h : X) (l m : List ℕ) (t : X)
      → Linked next h (l ++ m) t
      → (u : X) × Linked next h l u × Linked next u m t
  Linked_split next h [] m t k = (h, refl, k)
  Linked_split next h (i ∷ l) m t k =
      let r : (u : X) × Linked next (next i) l u × Linked next u m t =
        Linked_split next (next i) l m t k.1 in
      (r.0, (k.0, r.1), r.2)
