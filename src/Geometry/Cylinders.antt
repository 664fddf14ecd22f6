-- ===== src/Geometry/Cylinders.antt =====
-- The logical CHS of Handle_TD_GetGeometry (src/exec_cmds/cmd_td_getgeometry.c).
use virtual_scsidevice.Base.{
  ℕ, zero, suc, ◌*◌, ◌/◌, ◌%◌, ◌≤◌, ◌<◌, ◌≡◌, ◌≢◌, ◌⊎◌, inr, refl, ap, ◌∙◌, subst, true, false,
  ◌&&◌, ◌==◌, ltb, if◌then◌else◌, if_ind, arith,
}
use virtual_scsidevice.Geometry.{Geometry}
use virtual_scsidevice.Geometry.Commands.{split_cylinders, drive_geometry, clamp32, at_least_one}

-- The product that the loop keeps, and that its condition is false at the end.
abbrev pub Split : ℕ → ℕ × ℕ → Type 0
Split product r = (r.0 * r.1 ≡ product) × ((r.0 % 2 ≡ 1) ⊎ (r.1 ≡ 256))

regroup : (q c : ℕ) → q * (c * 2) ≡ q * 2 * c
regroup q c = omega arith

halved : (t c : ℕ) → t % 2 ≡ 0 → t / 2 * (c * 2) ≡ t * c
halved t c e = regroup (t / 2) c ∙ ap (λ x. x * c) (omega arith)

-- `c` doubled `n` times is 256
abbrev Doubles : ℕ → ℕ → Type 0
Doubles zero c = c ≡ 256
Doubles (suc n) c = Doubles n (c * 2)

bound_256 : (n c : ℕ) → Doubles n c → c ≤ 256
bound_256 zero c e = omega arith
bound_256 (suc n) c e = omega (arith, bound_256 n (c * 2) e)

stopped : (t c : ℕ) → c ≤ 256 → (t % 2 == 0 && ltb c 256) ≡ false → (t % 2 ≡ 1) ⊎ (c ≡ 256)
stopped t c h e = ground arith

split_cylinders-Split : (n t c : ℕ) → Doubles n c → Split (t * c) (split_cylinders n t c)
unfolding split_cylinders
split_cylinders-Split zero t c e = (refl, inr e)
split_cylinders-Split (suc n) t c e =
    if_ind (Split (t * c)) (t % 2 == 0 && ltb c 256) (split_cylinders n (t / 2) (c * 2)) (t, c)
      (λ go.
        subst (λ p. Split p (split_cylinders n (t / 2) (c * 2))) (halved t c (ground arith))
          (split_cylinders-Split n (t / 2) (c * 2) e))
      (λ stop. (refl, stopped t c (bound_256 (suc n) c e) stop))

over : (t c : ℕ) → c ≡ 256 → (t % 2 == 0 && ltb c 256) ≢ true
over t c e go = ground arith

split_cylinders-more :
    (n m t c : ℕ) → Doubles n c → n ≤ m → split_cylinders m t c ≡ split_cylinders n t c
unfolding split_cylinders
split_cylinders-more zero zero t c e h = refl
split_cylinders-more zero (suc m) t c e h =
    if_ind (λ r. r ≡ (t, c)) (t % 2 == 0 && ltb c 256) (split_cylinders m (t / 2) (c * 2)) (t, c)
      (λ go. absurd (over t c e go)) (λ stop. refl)
split_cylinders-more (suc n) zero t c e h = absurd (omega arith)
split_cylinders-more (suc n) (suc m) t c e h =
    ap (λ r. if t % 2 == 0 && ltb c 256 then r else (t, c))
      (split_cylinders-more n m (t / 2) (c * 2) e (omega arith))

-- The loop that takes factors of 2 from `total` ends within 8 rounds: a bound of 8 or more rounds
-- gives the same result, in which the loop's condition is false and the product is still `total`.
split_cylinders-ends :
    (total rounds : ℕ)
    → 8 ≤ rounds
    → (split_cylinders rounds total 1 ≡ split_cylinders 8 total 1)
      × Split total (split_cylinders 8 total 1)
split_cylinders-ends total rounds enough = (
  split_cylinders-more 8 rounds total 1 refl enough,
  subst (λ p. Split p (split_cylinders 8 total 1)) (omega arith)
      (split_cylinders-Split 8 total 1 refl),
)

mul_le : (a b c : ℕ) → a ≤ b → a * c ≤ b * c
mul_le a b zero h = omega arith
mul_le a b (suc c) h = omega (arith, mul_le a b c h)

cylinders_fit : (t : ℕ) → 0 < t → at_least_one (clamp32 t) ≤ t
cylinders_fit t h = ground arith

cylinders_exact : (t : ℕ) → 0 < t → t ≤ 0xFFFFFFFF → at_least_one (clamp32 t) ≡ t
cylinders_exact t h b = ground arith

quotient_pos : (t c total : ℕ) → t * c ≡ total → 0 < total → 0 < t
quotient_pos zero c total e h = absurd (omega arith)
quotient_pos (suc t) c total e h = omega arith

module _ (unit : Geometry) (some_blocks : 0 < unit.total_blocks) where
  split : Split unit.total_blocks (split_cylinders 8 unit.total_blocks 1)
  split = (split_cylinders-ends unit.total_blocks 8 (omega arith)).1

  t_pos : 0 < (split_cylinders 8 unit.total_blocks 1).0
  t_pos = quotient_pos _ (split_cylinders 8 unit.total_blocks 1).1 _ split.0 some_blocks

  -- For a unit with blocks, the CHS that TD_GETGEOMETRY reports never covers more than the unit has:
  -- cylinders times sectors per cylinder is at most the number of blocks, and heads times sectors per
  -- track is the sectors per cylinder.
  drive_geometry_within :
      ((drive_geometry unit).dg_cylinders * (drive_geometry unit).dg_cyl_sectors
        ≤ unit.total_blocks)
      × ((drive_geometry unit).dg_heads * (drive_geometry unit).dg_track_sectors
          ≡ (drive_geometry unit).dg_cyl_sectors)
  unfolding drive_geometry
  drive_geometry_within = (
    subst
        (λ p.
          at_least_one (clamp32 (split_cylinders 8 unit.total_blocks 1).0)
            * (split_cylinders 8 unit.total_blocks 1).1
          ≤ p)
        split.0 (mul_le _ _ (split_cylinders 8 unit.total_blocks 1).1 (cylinders_fit _ t_pos)),
    omega arith,
  )

  -- When the number of blocks, less its factors of 2 up to 256, fits into 32 bits, the CHS of a unit
  -- with blocks multiplies to exactly that number.
  drive_geometry_exact :
      (split_cylinders 8 unit.total_blocks 1).0 ≤ 0xFFFFFFFF
      → (drive_geometry unit).dg_cylinders * (drive_geometry unit).dg_cyl_sectors
        ≡ unit.total_blocks
  unfolding drive_geometry
  drive_geometry_exact fits =
      ap (λ c. c * (split_cylinders 8 unit.total_blocks 1).1) (cylinders_exact _ t_pos fits)
      ∙ split.0
