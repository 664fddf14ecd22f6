-- ===== src/Geometry/Capacity.antt =====
-- ensure_geometry_cached of src/scsi_cdb_helpers.c: what it finds out, and when it asks again.
use virtual_scsidevice.Base.{
  ℕ, ◌+◌, ◌-◌, ◌<◌, ◌≡◌, ◌≢◌, refl, sym, subst, Bool, true, false, min, ◌==◌, if_ind, arith,
}
use virtual_scsidevice.Word.{be64}
use virtual_scsidevice.Errors.{no_error}
use virtual_scsidevice.Cdb.{make_read_capacity16_cdb}
use virtual_scsidevice.Transport.{Transport, Answer, long}
use virtual_scsidevice.Geometry.{
  Geometry, Outcome, checked, from_capacity16, cap10_cdb, good, read_capacity16, read_capacity,
  ensure_geometry_cached,
}

-- The answer of a target with `n` blocks of `size` bytes to READ CAPACITY (10) and (16): the last
-- block and the block size, where the short form says 0xFFFFFFFF for a number that does not fit.
abbrev pub Capacity10 : ℕ → ℕ → Answer → Type 0
Capacity10 n size a =
    (good a ≡ true) × (long a.buffer 0 ≡ min (n - 1) 0xFFFFFFFF) × (long a.buffer 4 ≡ size)

abbrev pub Capacity16 : ℕ → ℕ → Answer → Type 0
Capacity16 n size a =
    (good a ≡ true) × (be64 (long a.buffer 0) (long a.buffer 4) ≡ n - 1) × (long a.buffer 8 ≡ size)

abbrev pub HasCapacity {ℓ} : {W : Type ℓ} → Transport W → ℕ → ℕ → Type ℓ
HasCapacity t n size =
    (w : _)
    → Capacity10 n size (t.do_io w cap10_cdb 8 false).0
      × Capacity16 n size (t.do_io w make_read_capacity16_cdb 32 false).0

-- what the geometry says of the capacity
abbrev pub Reports : ℕ → ℕ → Geometry → Type 0
Reports n size unit =
    (unit.geometry_valid ≡ true) × (unit.total_blocks ≡ n) × (unit.block_size ≡ size)

checked-good {ℓ} :
    {W : Type ℓ} (a : Answer) (unit : Geometry) (world : W) (next : Outcome W)
    → good a ≡ true
    → checked a unit world next ≡ next
unfolding checked
checked-good a unit world next h = ground arith

below :
    (last n : ℕ)
    → last ≡ min (n - 1) 0xFFFFFFFF
    → (last == 0xFFFFFFFF) ≡ false
    → 0 < n
    → last + 1 ≡ n
below last n e f pos = ground arith

true_ne_false : {b : Bool} → b ≡ true → b ≢ false
true_ne_false t f = ground arith

module _ {ℓ} {W : Type ℓ} (t : Transport W) where
  read_capacity16-Reports :
      (unit : Geometry) (world : W) (n size : ℕ)
      → 0 < n
      → n < 18446744073709551616
      → Capacity16 n size (t.do_io world make_read_capacity16_cdb 32 false).0
      → ((read_capacity16 t unit world).rc ≡ no_error)
        × Reports n size (read_capacity16 t unit world).unit
  unfolding read_capacity16
  read_capacity16-Reports unit world n size pos small h =
      let a = (t.do_io world make_read_capacity16_cdb 32 false).0 in
      let next = (t.do_io world make_read_capacity16_cdb 32 false).1 in
      subst (λ (o : Outcome W). (o.rc ≡ no_error) × Reports n size o.unit)
        (sym (
          checked-good a unit next
            (record { rc = no_error; unit = from_capacity16 unit a.buffer; world = next }) h.0))
        (refl, (refl, omega (arith, h.1), h.2))

  read_capacity-Reports :
      (unit : Geometry) (world : W) (n size : ℕ)
      → HasCapacity t n size
      → 0 < n
      → n < 18446744073709551616
      → ((read_capacity t unit world).rc ≡ no_error)
        × Reports n size (read_capacity t unit world).unit
  unfolding read_capacity
  read_capacity-Reports unit world n size has pos small =
      let a = (t.do_io world cap10_cdb 8 false).0 in
      let next = (t.do_io world cap10_cdb 8 false).1 in
      let h = (has world).0 in
      subst (λ (o : Outcome W). (o.rc ≡ no_error) × Reports n size o.unit)
        (sym (checked-good a unit next _ h.0))
        (if_ind (λ (o : Outcome W). (o.rc ≡ no_error) × Reports n size o.unit)
          (long a.buffer 0 == 0xFFFFFFFF) (read_capacity16 t unit next) _
          (λ e. read_capacity16-Reports unit next n size pos small (has next).1)
          (λ e. (refl, (refl, below (long a.buffer 0) n h.1 e pos, h.2))))

  -- A unit whose geometry is not known yet, on a target with `n` blocks of `size` bytes that answers
  -- READ CAPACITY, has after ensure_geometry_cached exactly that geometry, and 0 is returned, for
  -- 0 < n < 2^64: also where `n` does not fit into the short form's 32 bits.
  pub ensure_geometry_cached-Reports :
      (unit : Geometry) (world : W) (n size : ℕ)
      → HasCapacity t n size
      → unit.geometry_valid ≡ false
      → 0 < n
      → n < 18446744073709551616
      → ((ensure_geometry_cached t unit world).rc ≡ no_error)
        × Reports n size (ensure_geometry_cached t unit world).unit
  unfolding ensure_geometry_cached
  ensure_geometry_cached-Reports unit world n size has new pos small =
      if_ind (λ (o : Outcome W). (o.rc ≡ no_error) × Reports n size o.unit) unit.geometry_valid _
        (read_capacity t unit world) (λ valid. absurd (true_ne_false valid new))
        (λ e. read_capacity-Reports unit world n size has pos small)
