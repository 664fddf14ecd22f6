-- ===== src/Lifecycle/Steps.antt =====
-- Openers, counts and running tasks over any sequence of Open, Close and Expunge (src/Open.c,
-- src/Close.c, src/Expunge.c).
use virtual_scsidevice.Base.{
  ℕ, ◌<◌, ◌≡◌, ◌∙◌, ==_iff, inl, inr, refl, sym, ap, subst, ◌==◌, leb, ◌&&◌, Bool, true, false, not,
  if_ind, Option, none, some, get_or, arith,
}
use virtual_scsidevice.Pipeline.{max_units}
use virtual_scsidevice.Lifecycle.{
  LifeUnit, Life, count_up, count_down, opened_unit, open_unit, open_device, expunge, closed_unit,
  close_found, close_count, close_device,
}
use virtual_scsidevice.Lifecycle.Counts.{
  openers, UnitOk, LifeOk, total-set, AllOk-set, AllOk-get_or, openers_at_most, all_freed,
  opened_unit-UnitOk, closed_unit-UnitOk, there_or_freed, closed_count,
}

-- One call: Open with room in the 16-bit count, Close of a unit that has an opener, Expunge.
pub data Step : Life → Life → Type 0 where
  open_step :
      (start_ok : Bool) (life : Life) (unit_num : ℕ)
      → life.lib_open_cnt < 65535
      → Step life (open_device start_ok life unit_num).1
  close_step :
      (life : Life) (unit_num : ℕ)
      → 0 < openers (get_or life.units unit_num none)
      → Step life (close_device life unit_num)
  expunge_step : (life : Life) → Step life (expunge life)

pub data Reach : Life → Life → Type 0 where
  here : (life : Life) → Reach life life
  then_step : {a b c : Life} → Reach a b → Step b c → Reach a c

expunge-LifeOk : (life : Life) → LifeOk life → LifeOk (expunge life)
unfolding expunge
expunge-LifeOk life ok =
    let freed = all_freed life.units in
    if_ind LifeOk (life.lib_open_cnt == 0) _ (record life { delexp = true })
      (λ e. (freed.0 ∙ sym ((==_iff life.lib_open_cnt 0).0 e), ok.1, freed.1, inr freed.2))
      (λ e. ok)

count_down-LifeOk :
    (life : Life) → life.lib_open_cnt < 65535 → LifeOk life → LifeOk (count_down (count_up life))
count_down-LifeOk life room ok = (omega (arith, ok.0), omega arith, ok.2, ok.3)

open_unit-LifeOk :
    (start_ok : Bool) (life : Life) (i : ℕ) (u : Option LifeUnit)
    → life.lib_open_cnt < 65535
    → LifeOk life
    → get_or life.units i none ≡ u
    → LifeOk (open_unit start_ok (count_up life) i u).1
unfolding open_unit
open_unit-LifeOk start_ok life i none room ok h = count_down-LifeOk life room ok
open_unit-LifeOk start_ok life i (some unit) room ok h =
    let few : unit.open_count < 65535 =
      omega (arith, openers_at_most life.units i, ap openers h, ok.0) in
    if_ind (λ (r : Bool × Life). LifeOk r.1) (unit.open_count == 0 && not start_ok)
      (false, count_down (count_up life)) _ (λ e. count_down-LifeOk life room ok)
      (λ e. (
        omega (arith, total-set life.units i unit (opened_unit unit) h, ok.0),
        omega arith,
        AllOk-set life.units i (opened_unit unit) ok.2
            (opened_unit-UnitOk unit few (subst UnitOk h (AllOk-get_or life.units i ok.2))),
        inl (there_or_freed life i unit ok.3 h),
      ))

open_device-LifeOk :
    (start_ok : Bool) (life : Life) (i : ℕ)
    → life.lib_open_cnt < 65535
    → LifeOk life
    → LifeOk (open_device start_ok life i).1
unfolding open_device
open_device-LifeOk start_ok life i room ok =
    if_ind (λ (r : Bool × Life). LifeOk r.1) (leb max_units i) (false, count_down (count_up life)) _
      (λ e. count_down-LifeOk life room ok)
      (λ e. open_unit-LifeOk start_ok life i (get_or life.units i none) room ok refl)

close_found-LifeOk :
    (life : Life) (i : ℕ) (u : Option LifeUnit)
    → LifeOk life
    → get_or life.units i none ≡ u
    → 0 < openers u
    → LifeOk (count_down (close_found life i u))
close_found-LifeOk life i none ok h some_opener = absurd (omega arith)
close_found-LifeOk life i (some unit) ok h some_opener =
    let closed = closed_count unit some_opener in
    let total = total-set life.units i unit (closed_unit unit) h in
    (
      omega (arith, total, closed, ok.0, ok.1, openers_at_most life.units i, ap openers h),
      omega arith,
      AllOk-set life.units i (closed_unit unit) ok.2
          (closed_unit-UnitOk unit (subst UnitOk h (AllOk-get_or life.units i ok.2))),
      inl (there_or_freed life i unit ok.3 h),
    )

close_device-LifeOk :
    (life : Life) (i : ℕ)
    → 0 < openers (get_or life.units i none)
    → LifeOk life
    → LifeOk (close_device life i)
unfolding close_device close_count
close_device-LifeOk life i some_opener ok =
    let left = count_down (close_found life i (get_or life.units i none)) in
    let left_ok = close_found-LifeOk life i (get_or life.units i none) ok refl some_opener in
    if_ind LifeOk (left.lib_open_cnt == 0 && left.delexp) (expunge left) left
      (λ e. expunge-LifeOk left left_ok) (λ e. left_ok)

-- Over any sequence of Open, Close and Expunge, where Open finds room in the 16-bit count and Close
-- is called for a unit that has an opener: the device counts the openers of all its units, the task
-- of a unit runs exactly while the unit has openers, and the device goes only with all units freed.
pub Reach-LifeOk : {a b : Life} → Reach a b → LifeOk a → LifeOk b
Reach-LifeOk (here life) ok = ok
Reach-LifeOk (then_step before (open_step start_ok life i room)) ok =
    open_device-LifeOk start_ok life i room (Reach-LifeOk before ok)
Reach-LifeOk (then_step before (close_step life i some_opener)) ok =
    close_device-LifeOk life i some_opener (Reach-LifeOk before ok)
Reach-LifeOk (then_step before (expunge_step life)) ok =
    expunge-LifeOk life (Reach-LifeOk before ok)
