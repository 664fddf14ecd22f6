-- ===== src/Geometry/Cached.antt =====
-- The geometry cache of a unit: ensure_geometry_cached of src/scsi_cdb_helpers.c.
use virtual_scsidevice.Base.{◌≡◌, ◌⊎◌, inl, inr, refl, true, false, not, ◌==◌, if_ind}
use virtual_scsidevice.Errors.{no_error, is_error}
use virtual_scsidevice.Cdb.{make_read_capacity16_cdb}
use virtual_scsidevice.Transport.{Transport, Answer, long}
use virtual_scsidevice.Geometry.{
  Geometry, Outcome, checked, cap10_cdb, read_capacity16, read_capacity, ensure_geometry_cached,
}

-- A call either returned 0 with a valid geometry, or an error with the unit as it was.
abbrev pub Settled {ℓ} : {W : Type ℓ} → Geometry → Outcome W → Type 0
Settled unit o =
    ((o.rc ≡ no_error) × (o.unit.geometry_valid ≡ true))
    ⊎ ((is_error o.rc ≡ true) × (o.unit ≡ unit))

checked-Settled {ℓ} :
    {W : Type ℓ} (a : Answer) (unit : Geometry) (world : W) (next : Outcome W)
    → Settled unit next
    → Settled unit (checked a unit world next)
unfolding checked
checked-Settled a unit world next h =
    if_ind (Settled unit) (is_error a.rc) _ _ (λ e. inr (e, refl))
      (λ e.
        if_ind (Settled unit) (not (a.scsi_status == 0)) _ next (λ f. inr (refl, refl)) (λ f. h))

module _ {ℓ} {W : Type ℓ} (t : Transport W) where
  read_capacity-Settled : (unit : Geometry) (world : W) → Settled unit (read_capacity t unit world)
  unfolding read_capacity read_capacity16
  read_capacity-Settled unit world =
      let next = (t.do_io world cap10_cdb 8 false).1 in
      let big = (t.do_io next make_read_capacity16_cdb 32 false).0 in
      checked-Settled (t.do_io world cap10_cdb 8 false).0 unit next _ (
        if_ind (Settled unit) (long (t.do_io world cap10_cdb 8 false).0.buffer 0 == 0xFFFFFFFF)
          (read_capacity16 t unit next) _
          (λ e.
            checked-Settled big unit (t.do_io next make_read_capacity16_cdb 32 false).1 _
              (inl (refl, refl)))
          (λ e. inl (refl, refl)))

  ensured : (unit : Geometry) (world : W) → Settled unit (ensure_geometry_cached t unit world)
  unfolding ensure_geometry_cached
  ensured unit world =
      if_ind (Settled unit) unit.geometry_valid _ (read_capacity t unit world)
        (λ valid. inl (refl, valid)) (λ e. read_capacity-Settled unit world)

  again :
      (unit : Geometry) (later : W)
      → unit.geometry_valid ≡ true
      → ensure_geometry_cached t unit later ≡ record { rc = no_error; unit = unit; world = later }
  unfolding ensure_geometry_cached
  again unit later valid = rw valid refl

  -- A call of ensure_geometry_cached either returns an error and leaves the unit as it was, or
  -- returns 0 with a valid geometry, and then another call at any later time returns 0 with the same
  -- unit and without a call into the system.
  pub ensure_geometry_cached-Settled :
      (unit : Geometry) (world later : W)
      → ((is_error (ensure_geometry_cached t unit world).rc ≡ true)
          × ((ensure_geometry_cached t unit world).unit ≡ unit))
        ⊎ ((((ensure_geometry_cached t unit world).rc ≡ no_error)
              × ((ensure_geometry_cached t unit world).unit.geometry_valid ≡ true))
            × (ensure_geometry_cached t (ensure_geometry_cached t unit world).unit later ≡ record {
              rc = no_error;
              unit = (ensure_geometry_cached t unit world).unit;
              world = later;
            }))
  ensure_geometry_cached-Settled unit world later = elim (ensured unit world) [
    | inr bad ↦ inl bad
    | inl ok ↦ inr (ok, again (ensure_geometry_cached t unit world).unit later ok.1)
  ]
