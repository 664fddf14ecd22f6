-- ===== src/Interrupt.antt =====
-- VirtIOSCSI_InterruptHandler of src/virtio/virtio_irq.c. The value of the ISR register is an argument:
-- reading it acknowledges the interrupt.
use virtual_scsidevice.Base.{
  ℕ, zero, suc, ◌+◌, ◌^◌, ◌%◌, ◌<◌, ◌≤◌, ◌≡◌, Bool-cases, ==_iff, subst, sym, ap, ◌∙◌, inl, inr,
  refl, ◌==◌, ◌&&◌, Bool, true, false, not, if◌then◌else◌, if_ind, Option, none, some, List, [],
  ◌∷◌, get_or, bit_and, arith,
}
use virtual_scsidevice.Chain.{count, count_head}
use virtual_scsidevice.Pipeline.{PipeUnit, max_units}
use virtual_scsidevice.Pipeline.Harvest.{Driver}

-- `unit && unit->io_wait_task`
abbrev pub waits : Option PipeUnit → Bool
waits none = false
waits (some unit) = unit.io_wait_task

-- whether the unit `i` is signalled
abbrev pub wakes : Driver → ℕ → Bool
wakes driver i =
    not (bit_and (driver.shared.active_units_mask % 256) (2 ^ i) == 0)
    && waits (get_or driver.units i none)

-- The loop over the units, for the `n` units from `i` on: those whose tasks are signalled.
unfoldable pub signal_units : ℕ → ℕ → Driver → List ℕ
signal_units zero i driver = []
signal_units (suc n) i driver =
    let rest = signal_units n (i + 1) driver in if wakes driver i then i ∷ rest else rest

-- the handler: whether the interrupt is claimed, and the signals
unfoldable pub interrupt : ℕ → Driver → Bool × List ℕ
unfolding signal_units
interrupt isr driver =
    if isr == 0
    then (false, [])
    else (true, if bit_and isr 1 == 0 then [] else signal_units max_units 0 driver)

later_units : (n i j : ℕ) (driver : Driver) → j < i → count j (signal_units n i driver) ≡ 0
unfolding signal_units
later_units zero i j driver h = refl
later_units (suc n) i j driver h =
    if_ind (λ l. count j l ≡ 0) (wakes driver i) (i ∷ signal_units n (i + 1) driver) _
      (λ e. ground (arith, later_units n (i + 1) j driver (omega arith)))
      (λ e. later_units n (i + 1) j driver (omega arith))

-- how often a unit among the `n` from `i` on is signalled
abbrev pub times : Bool → ℕ
times b = if b then 1 else 0

signal_units_lem :
    (n i j : ℕ) (driver : Driver)
    → i ≤ j
    → j < i + n
    → count j (signal_units n i driver) ≡ times (wakes driver j)
unfolding signal_units
signal_units_lem zero i j driver h k = absurd (omega arith)
signal_units_lem (suc n) i j driver h k = elim (Bool-cases (i == j)) [
  | inl same ↦
      subst (λ m. count m (signal_units (suc n) i driver) ≡ times (wakes driver m))
        ((==_iff i j).0 same)
        (first (wakes driver i) (signal_units n (i + 1) driver)
          (later_units n (i + 1) i driver (omega arith)))
  | inr other ↦
      skip (wakes driver i) (signal_units n (i + 1) driver) other
        (signal_units_lem n (i + 1) j driver (beyond i j h other) (omega arith))
]
  where
    first : (b : Bool) (l : List ℕ) → count i l ≡ 0 → count i (if b then i ∷ l else l) ≡ times b
    first true l e = omega (arith, e, count_head i l)
    first false l e = e

    skip :
        {m : ℕ} (b : Bool) (l : List ℕ)
        → (i == j) ≡ false
        → count j l ≡ m
        → count j (if b then i ∷ l else l) ≡ m
    skip true l e f = ground (arith, f)
    skip false l e f = f

    beyond : (i j : ℕ) → i ≤ j → (i == j) ≡ false → i + 1 ≤ j
    beyond i j h e = ground arith

-- For an interrupt with any value of the ISR register and a unit `j` that exists: the interrupt is
-- claimed when the value is not 0, and the unit is signalled once when the value has the queue bit, the
-- unit's bit is set in `active_units_mask` and its task waits, else not at all.
pub interrupt-wakes :
    (isr : ℕ) (driver : Driver) (j : ℕ) (unit : PipeUnit)
    → j < max_units
    → get_or driver.units j none ≡ some unit
    → ((interrupt isr driver).0 ≡ not (isr == 0))
      × (count j (interrupt isr driver).1 ≡ (
          if not (bit_and isr 1 == 0)
            && (not (bit_and (driver.shared.active_units_mask % 256) (2 ^ j) == 0)
                && unit.io_wait_task)
          then 1
          else 0))
unfolding interrupt
interrupt-wakes isr driver j unit small there =
    let due = λ (queue : Bool). times (
      queue
      && (not (bit_and (driver.shared.active_units_mask % 256) (2 ^ j) == 0)
          && unit.io_wait_task)) in
    let wanted : times (wakes driver j) ≡ due true =
      ap
        (λ o. times (not (bit_and (driver.shared.active_units_mask % 256) (2 ^ j) == 0) && waits o))
        there in
    let P = λ (r : Bool × List ℕ).
      (r.0 ≡ not (isr == 0)) × (count j r.1 ≡ due (not (bit_and isr 1 == 0))) in
    if_ind P (isr == 0) (false, []) _
      (λ e.
        (rw e refl, subst (λ k. 0 ≡ due (not (bit_and k 1 == 0))) (sym ((==_iff isr 0).0 e)) refl))
      (λ e. (
        rw e refl,
        if_ind (λ l. count j l ≡ due (not (bit_and isr 1 == 0))) (bit_and isr 1 == 0) []
            (signal_units max_units 0 driver) (λ f. rw f refl)
            (λ f. rw f (signal_units_lem max_units 0 j driver (omega arith) small ∙ wanted)),
      ))
