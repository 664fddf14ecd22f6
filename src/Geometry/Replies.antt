-- ===== src/Geometry/Replies.antt =====
-- What TD_GETGEOMETRY and TD_GETNUMTRACKS leave in the request and in the caller's buffer
-- (src/exec_cmds/cmd_td_getgeometry.c, cmd_td_getnumtracks.c).
use virtual_scsidevice.Base.{
  ℕ, ◌<◌, ◌≤◌, ◌≡◌, ◌≢◌, ◌⊎◌, inl, inr, refl, sym, subst, Bool, true, false, min, ◌==◌, ltb, ==_iff,
  if◌then◌else◌, if_ind, Option, none, some, arith,
}
use virtual_scsidevice.Errors.{IoError, no_error, is_error, ioerr_badlength, hferr_bad_status}
use virtual_scsidevice.Request.{IoRequest}
use virtual_scsidevice.Transport.{Answer, Transport}
use virtual_scsidevice.Geometry.{Geometry, ensure_geometry_cached, ensure_rdb_geometry_cached}
use virtual_scsidevice.Geometry.Capacity.{HasCapacity, Reports, ensure_geometry_cached-Reports}
use virtual_scsidevice.Geometry.Shape.{ChsOk, block0, at_block0, ensure_rdb_geometry_cached-ChsOk}
use virtual_scsidevice.Geometry.Commands.{
  DriveGeometry, zero_geometry, Handled, drive_geometry, zeroed, ensure_unit, reply_geometry,
  answer_geometry, handle_td_get_geometry, clamp32, at_least_one, capacity_first, track_count,
  num_tracks, handle_td_get_num_tracks,
}

-- Success with the geometry of the unit in the buffer, or an error with nothing but zeros in it.
abbrev pub Reached {ℓ} : {W : Type ℓ} → ℕ → Handled W DriveGeometry → Type 0
Reached size o =
    ((o.request.io_error ≡ no_error)
      × (o.request.io_actual ≡ size)
      × ((unit : Geometry) × (o.unit ≡ some unit)
          × (unit.geometry_valid ≡ true)
          × (o.geom ≡ some (drive_geometry unit))))
    ⊎ ((is_error o.request.io_error ≡ true) × (o.geom ≡ some zero_geometry))

-- for a buffer of `len` bytes: nothing is written when it is too short
abbrev pub Answered {ℓ} : {W : Type ℓ} → ℕ → ℕ → Handled W DriveGeometry → Type 0
Answered size len o =
    ((len < size) × (o.request.io_error ≡ ioerr_badlength) × (o.geom ≡ none))
    ⊎ ((size ≤ len) × Reached size o)

zeroed-buffer : (req : IoRequest) → req.io_data ≢ 0 → zeroed req zero_geometry ≡ some zero_geometry
zeroed-buffer req there =
    if_ind (λ (g : Option DriveGeometry). g ≡ some zero_geometry) (req.io_data == 0) none
      (some zero_geometry) (λ e. absurd (there ((==_iff req.io_data 0).0 e))) (λ e. refl)

-- the same, for the parts that a reply sets
abbrev Reply : ℕ → Option Geometry → IoRequest × Option DriveGeometry → Type 0
Reply size after r =
    ((r.0.io_error ≡ no_error)
      × (r.0.io_actual ≡ size)
      × ((unit : Geometry) × (after ≡ some unit)
          × (unit.geometry_valid ≡ true)
          × (r.1 ≡ some (drive_geometry unit))))
    ⊎ ((is_error r.0.io_error ≡ true) × (r.1 ≡ some zero_geometry))

reply_geometry-Reply :
    (size : ℕ) (req : IoRequest) (unit : Option Geometry)
    → req.io_data ≢ 0
    → Reply size unit (reply_geometry size unit req (zeroed req zero_geometry))
unfolding reply_geometry
reply_geometry-Reply size req none there = inr (refl, zeroed-buffer req there)
reply_geometry-Reply size req (some unit) there =
    if_ind (Reply size (some unit)) unit.geometry_valid
      (record req { io_error = no_error; io_actual = size }, some (drive_geometry unit))
      (record req { io_error = hferr_bad_status }, zeroed req zero_geometry)
      (λ valid. inl (refl, refl, (unit, refl, valid, refl)))
      (λ e. inr (refl, zeroed-buffer req there))

clamped : (m n : ℕ) → m ≡ n → clamp32 m ≡ min n 0xFFFFFFFF
clamped m n e = ground arith

positive : (n : ℕ) → 0 < at_least_one (clamp32 n)
positive n = ground arith

valid_and_not : {b : Bool} → b ≡ true → b ≢ false
valid_and_not t f = cc (t, f)

not_short : (l size : ℕ) → size ≤ l → ltb l size ≢ true
not_short l size h e = ground arith

no_error_is_fine : (e : IoError) → e ≡ no_error → is_error e ≢ true
no_error_is_fine e h bad = cc (h, bad)

-- the caller's view of `n` blocks of `block` bytes
abbrev pub Sees {ℓ} : {W : Type ℓ} → ℕ → ℕ → Handled W DriveGeometry → Type 0
Sees n block o =
    (o.request.io_error ≡ no_error)
    × ((g : DriveGeometry) × (o.geom ≡ some g)
        × (g.dg_sector_size ≡ block)
        × (g.dg_total_sectors ≡ min n 0xFFFFFFFF))

abbrev SeesReply : ℕ → ℕ → IoRequest × Option DriveGeometry → Type 0
SeesReply n block r =
    (r.0.io_error ≡ no_error)
    × ((g : DriveGeometry) × (r.1 ≡ some g)
        × (g.dg_sector_size ≡ block)
        × (g.dg_total_sectors ≡ min n 0xFFFFFFFF))

reply_geometry-Sees :
    (n block size : ℕ) (req : IoRequest) (unit : Geometry)
    → Reports n block unit
    → SeesReply n block (reply_geometry size (some unit) req (zeroed req zero_geometry))
unfolding reply_geometry drive_geometry
reply_geometry-Sees n block size req unit h =
    if_ind (SeesReply n block) unit.geometry_valid
      (record req { io_error = no_error; io_actual = size }, some (drive_geometry unit)) _
      (λ valid. (refl, (drive_geometry unit, refl, h.2, clamped unit.total_blocks n h.1)))
      (λ e. absurd (valid_and_not h.0 e))

module _ {ℓ} {W : Type ℓ} (t : Transport W) (size : ℕ) where
  -- TD_GETGEOMETRY with a data buffer: when the buffer is too short it answers IOERR_BADLENGTH and does
  -- not write to it; else it answers with 0, io_Actual the size of the structure, and in the buffer the
  -- geometry of a unit whose capacity is known; or with an error, and the buffer is all zeros.
  pub handle_td_get_geometry-Answered :
      (unit : Option Geometry) (req : IoRequest) (world : W)
      → req.io_data ≢ 0
      → Answered size req.io_length (handle_td_get_geometry t size unit req world)
  unfolding handle_td_get_geometry answer_geometry
  handle_td_get_geometry-Answered unit req world there =
      let ensured = ensure_unit t unit world in
      let reply = reply_geometry size ensured.1 req (zeroed req zero_geometry) in
      if_ind (Answered size req.io_length) (ltb req.io_length size)
        (record {
          request = record req { io_error = ioerr_badlength };
          unit = unit;
          geom = none;
          world = world;
        })
        (if is_error ensured.0
          then record {
            request = record req { io_error = ensured.0; io_actual = 0 };
            unit = ensured.1;
            geom = zeroed req zero_geometry;
            world = ensured.2;
          }
          else record { request = reply.0; unit = ensured.1; geom = reply.1; world = ensured.2 })
        (λ short. inl (ground arith, refl, refl))
        (λ long. inr (
          ground arith,
          if_ind (Reached size) (is_error ensured.0) _ _ (λ bad. inr (bad, zeroed-buffer req there))
              (λ fine. reply_geometry-Reply size req ensured.1 there),
        ))

  -- TD_GETGEOMETRY with a buffer that is large enough, for a unit whose geometry is not known yet, on
  -- a target with `n` blocks of `block` bytes that answers READ CAPACITY, for 0 < n < 2^64: the
  -- caller reads that block size, and the number of blocks, or 0xFFFFFFFF where it is larger.
  pub handle_td_get_geometry-HasCapacity :
      (unit : Geometry) (req : IoRequest) (world : W) (n block : ℕ)
      → HasCapacity t n block
      → unit.geometry_valid ≡ false
      → 0 < n
      → n < 18446744073709551616
      → size ≤ req.io_length
      → Sees n block (handle_td_get_geometry t size (some unit) req world)
  unfolding handle_td_get_geometry answer_geometry ensure_unit
  handle_td_get_geometry-HasCapacity unit req world n block has new pos small room =
      let o = ensure_geometry_cached t unit world in
      let known = ensure_geometry_cached-Reports t unit world n block has new pos small in
      let reply = reply_geometry size (some o.unit) req (zeroed req zero_geometry) in
      if_ind (Sees n block) (ltb req.io_length size) _
        (if is_error o.rc
          then record {
            request = record req { io_error = o.rc; io_actual = 0 };
            unit = some o.unit;
            geom = zeroed req zero_geometry;
            world = o.world;
          }
          else record { request = reply.0; unit = some o.unit; geom = reply.1; world = o.world })
        (λ short. absurd (not_short req.io_length size room short))
        (λ e.
          if_ind (Sees n block) (is_error o.rc) _ _
            (λ bad. absurd (no_error_is_fine o.rc known.0 bad))
            (λ fine. reply_geometry-Sees n block size req o.unit known.1))

  capacity_known_positive :
      (block : Answer) (unit : Geometry) → ChsOk block unit → 0 < track_count unit
  capacity_known_positive block unit ok = elim ok [
    | inl empty ↦ rw empty.0 (positive unit.total_blocks)
    | inr (valid, _, declared) ↦
        let rdb = declared.0 in rw valid (subst (λ c. 0 < c) (sym declared.1) rdb.4)
  ]

  -- TD_GETNUMTRACKS always answers with 0 and a count that is not 0.
  handle_td_get_num_tracks_positive :
      (unit : Option Geometry) (req : IoRequest) (world : W)
      → ((handle_td_get_num_tracks t unit req world).0.io_error ≡ no_error)
        × (0 < (handle_td_get_num_tracks t unit req world).0.io_actual)
  unfolding handle_td_get_num_tracks num_tracks
  handle_td_get_num_tracks_positive none req world = (refl, omega arith)
  handle_td_get_num_tracks_positive (some unit) req world =
      let start = capacity_first t unit world in
      let o = ensure_rdb_geometry_cached t start.0 start.1 in
      let at = at_block0 t start.0 start.1 in
      (
        refl,
        if_ind (λ (r : ℕ × Option Geometry × W). 0 < r.0) start.0.geometry_valid
            (track_count o.unit, some o.unit, o.world) (32768, some start.0, start.1)
            (λ e.
              capacity_known_positive (block0 t at.0 at.1) o.unit
                (ensure_rdb_geometry_cached-ChsOk t start.0 start.1))
            (λ e. omega arith),
      )
