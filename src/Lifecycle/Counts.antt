-- ===== src/Lifecycle/Counts.antt =====
-- Openers, counts and running tasks of the units (src/Open.c, src/Close.c, src/Expunge.c).
use virtual_scsidevice.Base.{
  ℕ, zero, suc, ◌+◌, ◌-◌, ◌<◌, ◌≤◌, ◌≡◌, ◌≢◌, ◌⊎◌, inl, inr, refl, ap, ◌==◌, ltb, Bool, true, false,
  if◌then◌else◌, if_ind, Option, none, some, List, [], ◌∷◌, map, get_or, set, arith,
}
use virtual_scsidevice.Word.{u32}
use virtual_scsidevice.Lifecycle.{LifeUnit, Life, opened_unit, closed_unit}

abbrev pub openers : Option LifeUnit → ℕ
openers none = 0
openers (some unit) = unit.open_count

abbrev pub total_openers : List (Option LifeUnit) → ℕ
total_openers [] = 0
total_openers (u ∷ units) = openers u + total_openers units

-- A unit's task runs exactly while the unit has openers, and its two counts agree.
abbrev pub UnitOk : Option LifeUnit → Type 0
UnitOk none = Unit
UnitOk (some unit) = (unit.task ≡ ltb 0 unit.open_count) × (unit.unit_open_cnt ≡ unit.open_count)

abbrev pub AllOk : List (Option LifeUnit) → Type 0
AllOk [] = Unit
AllOk (u ∷ units) = UnitOk u × AllOk units

abbrev pub AllFreed : List (Option LifeUnit) → Type 0
AllFreed [] = Unit
AllFreed (u ∷ units) = (u ≡ none) × AllFreed units

-- The device counts the openers of all units, and all units are freed when it is gone.
abbrev pub LifeOk : Life → Type 0
LifeOk life =
    (total_openers life.units ≡ life.lib_open_cnt)
    × (life.lib_open_cnt < 65536)
    × AllOk life.units
    × ((life.present ≡ true) ⊎ AllFreed life.units)

pub total-set :
    (units : List (Option LifeUnit)) (i : ℕ) (u v : LifeUnit)
    → get_or units i none ≡ some u
    → total_openers (set units i (some v)) + u.open_count ≡ total_openers units + v.open_count
total-set [] i u v h = absurd (cc h)
total-set (x ∷ units) zero u v h = omega (arith, ap openers h)
total-set (x ∷ units) (suc i) u v h = omega (arith, total-set units i u v h)

pub AllOk-set :
    (units : List (Option LifeUnit)) (i : ℕ) (v : LifeUnit)
    → AllOk units
    → UnitOk (some v)
    → AllOk (set units i (some v))
AllOk-set [] i v h k = tt
AllOk-set (x ∷ units) zero v h k = (k, h.1)
AllOk-set (x ∷ units) (suc i) v h k = (h.0, AllOk-set units i v h.1 k)

pub AllOk-get_or :
    (units : List (Option LifeUnit)) (i : ℕ) → AllOk units → UnitOk (get_or units i none)
AllOk-get_or [] i h = tt
AllOk-get_or (x ∷ units) zero h = h.0
AllOk-get_or (x ∷ units) (suc i) h = AllOk-get_or units i h.1

pub get_or-AllFreed :
    (units : List (Option LifeUnit)) (i : ℕ) → AllFreed units → get_or units i none ≡ none
get_or-AllFreed [] i h = refl
get_or-AllFreed (x ∷ units) zero h = h.0
get_or-AllFreed (x ∷ units) (suc i) h = get_or-AllFreed units i h.1

pub openers_at_most :
    (units : List (Option LifeUnit)) (i : ℕ) → openers (get_or units i none) ≤ total_openers units
openers_at_most [] i = omega arith
openers_at_most (x ∷ units) zero = omega arith
openers_at_most (x ∷ units) (suc i) = omega (arith, openers_at_most units i)

pub all_freed :
    (units : List (Option LifeUnit))
    → (total_openers (map (λ u. none) units) ≡ 0)
      × AllOk (map (λ u. none) units)
      × AllFreed (map (λ u. none) units)
all_freed [] = (refl, tt, tt)
all_freed (x ∷ units) =
    let rest = all_freed units in (omega (arith, rest.0), (tt, rest.1), (refl, rest.2))

pub opened_unit-UnitOk :
    (unit : LifeUnit)
    → unit.open_count < 65535
    → UnitOk (some unit)
    → UnitOk (some (opened_unit unit))
opened_unit-UnitOk unit h ok = (opened_task unit.open_count unit.task h ok.0, omega (arith, ok.1))
  where
    opened_task :
        (n : ℕ) (task : Bool)
        → n < 65535
        → task ≡ ltb 0 n
        → (if n == 0 then true else task) ≡ ltb 0 (u32 (n + 1))
    opened_task n task h e = ground arith

pub closed_unit-UnitOk : (unit : LifeUnit) → UnitOk (some unit) → UnitOk (some (closed_unit unit))
closed_unit-UnitOk unit ok =
    if_ind (λ u. UnitOk (some u)) (ltb 0 unit.open_count) _ unit
      (λ e. (
        closed_task unit.open_count unit.task ok.0 e,
        closed_cnt unit.open_count unit.unit_open_cnt ok.1 e,
      ))
      (λ e. ok)
  where
    closed_task :
        (n : ℕ) (task : Bool)
        → task ≡ ltb 0 n
        → ltb 0 n ≡ true
        → (if n - 1 == 0 then false else task) ≡ ltb 0 (n - 1)
    closed_task n task e f = ground arith

    closed_cnt : (n cnt : ℕ) → cnt ≡ n → ltb 0 n ≡ true → (if ltb 0 cnt then cnt - 1 else 0) ≡ n - 1
    closed_cnt n cnt e f = ground arith

pub there_or_freed :
    (life : Life) (i : ℕ) (unit : LifeUnit)
    → (life.present ≡ true) ⊎ AllFreed life.units
    → get_or life.units i none ≡ some unit
    → life.present ≡ true
there_or_freed life i unit (inl p) h = p
there_or_freed life i unit (inr gone) h = absurd (cc (get_or-AllFreed life.units i gone, h))

pub closed_count :
    (unit : LifeUnit) → 0 < unit.open_count → (closed_unit unit).open_count + 1 ≡ unit.open_count
closed_count unit h =
    if_ind (λ (u : LifeUnit). u.open_count + 1 ≡ unit.open_count) (ltb 0 unit.open_count) _ unit
      (λ e. omega arith) (λ e. absurd (not_positive unit.open_count h e))
  where
    not_positive : (n : ℕ) → 0 < n → ltb 0 n ≢ false
    not_positive n h e = ground arith
