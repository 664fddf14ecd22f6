-- ===== src/Pipeline/Start.antt =====
-- The free list of a unit when its task starts: `preallocate_unit_dma` of src/unit_task.c.
use virtual_scsidevice.Base.{
  ℕ, zero, suc, ◌+◌, ◌≡◌, refl, sym, ap, subst, Option, none, some, List, [], ◌∷◌, length, get_or,
  replicate, arith,
}
use virtual_scsidevice.Chain.{range, range_once, range_inside, range_misses}
use virtual_scsidevice.Pipeline.{PipeUnit, idle_slot, max_inflight}
use virtual_scsidevice.Pipeline.Slots.{table, SlotsOk, IsIdle}

-- `inflight_next`: slot `j` points to `j + 1`, the last one to -1. The array is built from slot `j`
-- on, for the count left.
unfoldable pub slot_links : ℕ → ℕ → List (Option ℕ)
slot_links j zero = []
slot_links j (suc zero) = none ∷ []
slot_links j (suc (suc k)) = some (j + 1) ∷ slot_links (j + 1) (suc k)

unfoldable pub preallocate_free_list : PipeUnit → PipeUnit
unfolding slot_links
preallocate_free_list unit = record unit {
  inflight_next = slot_links 0 max_inflight;
  free_head = some 0;
}

get_or-replicate {ℓ} : {A : Type ℓ} (n i : ℕ) (a : A) → get_or (replicate n a) i a ≡ a
get_or-replicate zero i a = refl
get_or-replicate (suc n) zero a = refl
get_or-replicate (suc n) (suc i) a = get_or-replicate n i a

-- A unit whose slots are cleared and whose count of requests is 0 starts with all sixteen slots
-- free, in their order.
pub preallocate_free_list-SlotsOk :
    (unit : PipeUnit)
    → unit.inflight ≡ replicate max_inflight idle_slot
    → unit.inflight_count ≡ 0
    → SlotsOk (table (preallocate_free_list unit)) (range 0 max_inflight)
unfolding preallocate_free_list slot_links
preallocate_free_list-SlotsOk unit cleared unused = record {
  linked = (
    refl,
    (
      refl,
      (
        refl,
        (
          refl,
          (
            refl,
            (
              refl,
              (refl, (refl, (refl, (refl, (refl, (refl, (refl, (refl, (refl, (refl, refl)))))))))),
            ),
          ),
        ),
      ),
    ),
  );
  distinct = λ j. range_once j 0 max_inflight;
  below = λ j h. range_inside j 0 max_inflight h;
  next_size = refl;
  slot_size = ap length cleared;
  idle = λ j h.
      subst (λ l. IsIdle (get_or l j idle_slot)) (sym cleared)
        (subst IsIdle (sym (get_or-replicate max_inflight j idle_slot))
          (record { no_request = refl; no_cookie = refl; no_mapping = refl }));
  busy = λ j lt z. absurd (omega (arith, range_misses j max_inflight z));
  counted = omega (arith, unused);
}
