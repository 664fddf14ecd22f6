-- ===== src/Pipeline/Harvest.antt =====
-- VirtIOSCSI_Harvest of src/virtio/virtio_scsi_io.c. A cookie is the address of a request header; the
-- calling unit is one of `units`, so that one lookup serves for it and the others.
use virtual_scsidevice.Base.{
  ℕ, zero, suc, ◌+◌, ◌-◌, ◌/◌, ◌%◌, ◌==◌, ltb, leb, Bool, true, false, ◌&&◌, if◌then◌else◌, Option,
  none, some, List, [], ◌∷◌, ◌++◌, get_or, set,
}
use virtual_scsidevice.Word.{u16, u32}
use virtual_scsidevice.Virtqueue.{Virtqueue, get_buf, write_used_event}
use virtual_scsidevice.Pipeline.{
  Slot, PipeUnit, Shared, Effect, signal_doio, max_inflight, max_units, slot_at,
}
use virtual_scsidevice.Pipeline.Complete.{complete_inflight_slot}

-- The driver's base with `units[]`.
pub record Driver : Type 0 where
  pub shared : Shared
  pub units : List (Option PipeUnit)

-- where a cookie goes
pub data Target : Type 0 where
  to_slot : (unit_num slot : ℕ) → Target
  to_doio : (index : ℕ) → Target
  unmatched : Target

-- `target->inflight[slot]` holds the cookie, and a request
abbrev pub has_request : Slot → Bool
has_request s = elim s.ioreq [ none ↦ false | some r ↦ true ]

abbrev pub matches : Option PipeUnit → ℕ → ℕ → Bool
matches none slot cookie = false
matches (some target) slot cookie =
    (slot_at target slot).cookie == cookie && has_request (slot_at target slot)

-- the search for the unit whose `req_buf` is the cookie
unfoldable pub find_doio : ℕ → List (Option PipeUnit) → ℕ → Target
find_doio u [] cookie = unmatched
find_doio u (none ∷ units) cookie = find_doio (u + 1) units cookie
find_doio u (some other ∷ units) cookie =
    let rest = find_doio (u + 1) units cookie in
    if get_or other.req_bufs 0 0 == cookie then to_doio u else rest

-- the routing of a cookie by the id in its request header
unfoldable pub route : Driver → ℕ → Target
unfolding find_doio
route driver cookie =
    let id = (driver.shared.req_mem cookie).id in
    let unit_num = u32 (id / 65536) in
    let slot = id % 65536 in
    if (ltb slot max_inflight && ltb unit_num max_units)
      && matches (get_or driver.units unit_num none) slot cookie
    then to_slot unit_num slot
    else find_doio 0 driver.units cookie

abbrev pub put_unit : Driver → ℕ → PipeUnit → Driver
put_unit driver u unit = record driver { units = set driver.units u (some unit) }

-- the cookie is stashed for a DoIO call, whose task is signalled
abbrev pub stash : Driver → ℕ → ℕ → ℕ → Driver × List Effect
stash driver u cookie written = elim (get_or driver.units u none) [
  | none ↦ (driver, [])
  | some owner ↦ (
    put_unit driver u
        (record owner { doio_pending_cookie = cookie; doio_pending_written = written }),
    if owner.io_wait_task then signal_doio u ∷ [] else [],
  )
]

unfoldable pub complete_at : Driver → ℕ → ℕ → Driver × List Effect
unfolding complete_inflight_slot
complete_at driver u slot = elim (get_or driver.units u none) [
  | none ↦ (driver, [])
  | some target ↦
      let (shared, unit, effects) = complete_inflight_slot driver.shared target slot in
      (record (put_unit driver u unit) { shared = shared }, effects)
]

-- the body of the drain loop, for a cookie
unfoldable pub deliver : Driver → ℕ → ℕ → Driver × List Effect
unfolding route complete_at
deliver driver cookie written = elim (route driver cookie) [
  | to_slot u slot ↦ complete_at driver u slot
  | to_doio u ↦ stash driver u cookie written
  | unmatched ↦ (driver, [])
]

-- The interrupt threshold that is set when the loop is done.
unfoldable pub coalesce : Driver → Driver
coalesce driver =
    let vq = driver.shared.vq in
    let occupied = u16 driver.shared.occupied_count in
    if vq.use_event_idx && leb 2 occupied
    then record driver {
      shared = record driver.shared {
        vq = write_used_event (u16 (vq.last_used_idx + (occupied - 1))) vq;
      };
    }
    else driver

abbrev pub with_vq : Driver → Virtqueue → Driver
with_vq driver vq = record driver { shared = record driver.shared { vq = vq } }

-- what GetBuf left in `written`
abbrev pub stored : Option ℕ → ℕ
stored none = 0
stored (some n) = n

-- VirtIOSCSI_Harvest on fuel: `none` says that the fuel or a descriptor walk ran out.
unfoldable pub harvest : ℕ → Driver → Option (Driver × List Effect)
unfolding get_buf deliver coalesce
harvest zero driver = none
harvest (suc fuel) driver = elim (get_buf driver.shared.vq) [
  | none ↦ none
  | some (cookie, written, vq) ↦
      let (next, effects) = deliver (with_vq driver vq) cookie (stored written) in
      if cookie == 0 then some (coalesce (with_vq driver vq), []) else elim (harvest fuel next) [
        | none ↦ none
        | some (last, more) ↦ some (last, effects ++ more)
      ]
]
