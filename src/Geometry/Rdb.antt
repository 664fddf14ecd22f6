-- ===== src/Geometry/Rdb.antt =====
-- The rigid disk block: ensure_rdb_geometry_cached of src/scsi_cdb_helpers.c.
use virtual_scsidevice.Base.{
  ℕ, zero, suc, ◌+◌, ◌*◌, ◌<◌, ◌≤◌, ◌≡◌, ◌↔◌, ◌⊎◌, inl, inr, refl, sym, ap, ◌∙◌, subst, Bool, true,
  false, ◌||◌, not, ◌==◌, ltb, if◌then◌else◌, if_ind, Bool-cases, Option, none, some, arith,
}
use mathlib.Core.Path.{fun_ext}
use virtual_scsidevice.Word.{u32}
use virtual_scsidevice.Transport.{long}
use virtual_scsidevice.Geometry.{
  Chs, header_chs, chs_product, has_signature, sum_longs, accept_rdb, parse_rdb,
}

-- the sum of the first `n` words
abbrev pub plain_sum : ℕ → (ℕ → ℕ) → ℕ
plain_sum zero buf = 0
plain_sum (suc n) buf = plain_sum n buf + long buf (n * 4)

sum_longs-plain_sum : (n : ℕ) (buf : ℕ → ℕ) → sum_longs n buf ≡ u32 (plain_sum n buf)
unfolding sum_longs
sum_longs-plain_sum zero buf = refl
sum_longs-plain_sum (suc n) buf = omega (arith, sum_longs-plain_sum n buf)

-- A block that starts with "RDSK", whose length field is in range, whose words add up to 0, and whose
-- CHS values are not 0 and multiply, in 64 bits, to no more than the number of blocks.
abbrev pub IsRdb : ℕ → (ℕ → ℕ) → Type 0
IsRdb total_blocks buf =
    (has_signature 0x52 0x44 0x53 0x4B buf ≡ true)
    × (0 < long buf 0x04)
    × (long buf 0x04 ≤ 128)
    × (u32 (plain_sum (long buf 0x04) buf) ≡ 0)
    × (0 < long buf 0x40)
    × (0 < long buf 0x44)
    × (0 < long buf 0x48)
    × (chs_product (header_chs buf) ≤ total_blocks)

-- the tests of `accept_rdb` on the values that they read
abbrev gate {ℓ} : {A : Type ℓ} → Bool → (len cksum c s h product total : ℕ) → A → Option A
gate sig len cksum c s h product total x =
    if not sig
    then none
    else if len == 0 || ltb 128 len
    then none
    else if not (cksum == 0)
    then none
    else if (c == 0 || s == 0) || (h == 0 || ltb total product)
    then none
    else some x

abbrev Passes : Bool → (len cksum c s h product total : ℕ) → Type 0
Passes sig len cksum c s h product total =
    (sig ≡ true)
    × (0 < len)
    × (len ≤ 128)
    × (cksum ≡ 0)
    × (0 < c)
    × (0 < s)
    × (0 < h)
    × (product ≤ total)

gate-Passes {ℓ} :
    {A : Type ℓ} (sig : Bool) (len cksum c s h product total : ℕ) (x : A)
    → Passes sig len cksum c s h product total
    → gate sig len cksum c s h product total x ≡ some x
gate-Passes true len cksum c s h product total x ok = ground arith
gate-Passes false len cksum c s h product total x ok = absurd (cc ok.0)

gate-cases {ℓ} :
    {A : Type ℓ} (sig : Bool) (len cksum c s h product total : ℕ) (x : A)
    → (gate sig len cksum c s h product total x ≡ none)
      ⊎ (Passes sig len cksum c s h product total
          × (gate sig len cksum c s h product total x ≡ some x))
gate-cases true len cksum c s h product total x = ground arith
gate-cases false len cksum c s h product total x = inl refl

module _ (total_blocks : ℕ) (buf : ℕ → ℕ) where
  pub parse_rdb-cases :
      (parse_rdb total_blocks buf ≡ none)
      ⊎ (IsRdb total_blocks buf × (parse_rdb total_blocks buf ≡ some (header_chs buf)))
  unfolding parse_rdb accept_rdb
  parse_rdb-cases =
      subst
        (λ k.
          (accept_rdb total_blocks buf k ≡ none)
          ⊎ (IsRdb total_blocks buf × (accept_rdb total_blocks buf k ≡ some (header_chs buf))))
        (sym (sum_longs-plain_sum (long buf 0x04) buf))
        (gate-cases (has_signature 0x52 0x44 0x53 0x4B buf) (long buf 0x04)
          (u32 (plain_sum (long buf 0x04) buf)) (long buf 0x40) (long buf 0x44) (long buf 0x48)
          (chs_product (header_chs buf)) total_blocks (header_chs buf))

  parse_rdb-IsRdb : IsRdb total_blocks buf → parse_rdb total_blocks buf ≡ some (header_chs buf)
  unfolding parse_rdb accept_rdb
  parse_rdb-IsRdb ok =
      subst (λ k. accept_rdb total_blocks buf k ≡ some (header_chs buf))
        (sym (sum_longs-plain_sum (long buf 0x04) buf))
        (gate-Passes (has_signature 0x52 0x44 0x53 0x4B buf) (long buf 0x04)
          (u32 (plain_sum (long buf 0x04) buf)) (long buf 0x40) (long buf 0x44) (long buf 0x48)
          (chs_product (header_chs buf)) total_blocks (header_chs buf) ok)

  -- Block 0 is accepted with the CHS values `chs` exactly when it is a rigid disk block and `chs` is
  -- what it declares.
  pub parse_rdb_iff :
      (chs : Chs)
      → (parse_rdb total_blocks buf ≡ some chs) ↔ (IsRdb total_blocks buf × (chs ≡ header_chs buf))
  parse_rdb_iff chs = (
    λ e. elim parse_rdb-cases [ inl n ↦ absurd (cc (e, n)) | inr ok ↦ (ok.0, cc (e, ok.1)) ],
    λ ok. parse_rdb-IsRdb ok.0 ∙ ap some (sym ok.1),
  )

-- the first 512 bytes
abbrev cut : (ℕ → ℕ) → ℕ → ℕ
cut buf i = if ltb i 512 then buf i else 0

cut_below : (buf : ℕ → ℕ) (i : ℕ) → i < 512 → cut buf i ≡ buf i
cut_below buf i h = ground arith

long-cut : (buf : ℕ → ℕ) (i : ℕ) → i < 509 → long (cut buf) i ≡ long buf i
long-cut buf i h = omega (
  arith,
  cut_below buf i (omega arith),
  cut_below buf (i + 1) (omega arith),
  cut_below buf (i + 2) (omega arith),
  cut_below buf (i + 3) (omega arith),
)

sum_longs-cut : (n : ℕ) (buf : ℕ → ℕ) → n ≤ 128 → sum_longs n (cut buf) ≡ sum_longs n buf
unfolding sum_longs
sum_longs-cut zero buf h = refl
sum_longs-cut (suc n) buf h =
    omega (arith, sum_longs-cut n buf (omega arith), long-cut buf (n * 4) (omega arith))

either_none {ℓ} :
    {A : Type ℓ} (sig empty : Bool) (o p : Option A)
    → (if not sig then none else if empty || true then none else o)
      ≡ (if not sig then none else if empty || true then none else p)
either_none true true o p = refl
either_none true false o p = refl
either_none false empty o p = refl

accept_rdb-long :
    (total_blocks : ℕ) (buf : ℕ → ℕ) (k l : ℕ)
    → (ltb 128 (long buf 0x04) ≡ true)
    → accept_rdb total_blocks buf k ≡ accept_rdb total_blocks buf l
unfolding accept_rdb
accept_rdb-long total_blocks buf k l h =
    rw h (either_none (has_signature 0x52 0x44 0x53 0x4B buf) (long buf 4 == 0) _ _)

parse_rdb-cut :
    (total_blocks : ℕ) (buf : ℕ → ℕ) → parse_rdb total_blocks (cut buf) ≡ parse_rdb total_blocks buf
unfolding parse_rdb accept_rdb
parse_rdb-cut total_blocks buf = elim (Bool-cases (ltb 128 (long buf 0x04))) [
  | inl big ↦ accept_rdb-long total_blocks buf _ _ big
  | inr ok ↦ ap (accept_rdb total_blocks buf) (sum_longs-cut (long buf 0x04) buf (ground arith))
]

cut_eq : (f g : ℕ → ℕ) → ((i : ℕ) → i < 512 → f i ≡ g i) → (i : ℕ) → cut f i ≡ cut g i
cut_eq f g agree i =
    if_ind (λ a. a ≡ cut g i) (ltb i 512) (f i) 0
      (λ h. agree i (ground arith) ∙ sym (cut_below g i (ground arith))) (λ h. ground arith)

-- The check of block 0 reads nothing behind its first 512 bytes: it gives the same result for two
-- buffers that agree on them.
parse_rdb-local :
    (total_blocks : ℕ) (f g : ℕ → ℕ)
    → ((i : ℕ) → i < 512 → f i ≡ g i)
    → parse_rdb total_blocks f ≡ parse_rdb total_blocks g
parse_rdb-local total_blocks f g agree =
    sym (parse_rdb-cut total_blocks f)
    ∙ ap (parse_rdb total_blocks) (fun_ext (cut_eq f g agree))
    ∙ parse_rdb-cut total_blocks g
