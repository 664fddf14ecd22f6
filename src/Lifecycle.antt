-- ===== src/Lifecycle.antt =====
-- The life cycle of the device and its unit tasks: _manager_Open (src/Open.c), _manager_Close
-- (src/Close.c) and _manager_Expunge (src/Expunge.c). Of UnitTask_Start and UnitTask_Shutdown
-- (src/unit_task.c) this file has whether the task runs afterwards; whether it starts is an argument.
pub mod Counts
pub mod Steps
use virtual_scsidevice.Base.{
  ℕ, ◌+◌, ◌-◌, ◌==◌, ltb, leb, ◌&&◌, Bool, true, false, not, if◌then◌else◌, Option, none, some,
  List, map, get_or, set,
}
use virtual_scsidevice.Word.{u16, u32}
use virtual_scsidevice.Pipeline.{max_units}

-- The fields of struct VirtIOUSCSIDevUnit that count openers: `task` says that the unit task runs.
pub record LifeUnit : Type 0 where
  pub open_count : ℕ
  pub unit_open_cnt : ℕ
  pub task : Bool

-- The fields of struct VirtIOSCSIBase: `delexp` is LIBF_DELEXP, and `present` ends with the library.
pub record Life : Type 0 where
  pub units : List (Option LifeUnit)
  pub lib_open_cnt : ℕ
  pub delexp : Bool
  pub present : Bool

-- `lib_OpenCnt++` and `lib_OpenCnt--` on 16 bits
abbrev pub count_up : Life → Life
count_up life = record life { lib_open_cnt = u16 (life.lib_open_cnt + 1) }

abbrev pub count_down : Life → Life
count_down life = record life { lib_open_cnt = u16 (life.lib_open_cnt + 65535) }

-- UnitTask_Start on the first open
abbrev pub opened_unit : LifeUnit → LifeUnit
opened_unit unit = record {
  open_count = u32 (unit.open_count + 1);
  unit_open_cnt = u16 (unit.unit_open_cnt + 1);
  task = if unit.open_count == 0 then true else unit.task;
}

-- Open, once the count is up, for the unit that was found: whether it is open, and the device.
unfoldable pub open_unit : Bool → Life → ℕ → Option LifeUnit → Bool × Life
open_unit start_ok life unit_num none = (false, count_down life)
open_unit start_ok life unit_num (some unit) =
    if unit.open_count == 0 && not start_ok then (false, count_down life) else (
      true,
      record life { units = set life.units unit_num (some (opened_unit unit)); delexp = false },
    )

unfoldable pub open_device : Bool → Life → ℕ → Bool × Life
unfolding open_unit
open_device start_ok life unit_num =
    if leb max_units unit_num
    then (false, count_down (count_up life))
    else open_unit start_ok (count_up life) unit_num (get_or life.units unit_num none)

-- Expunge: the units are freed, or LIBF_DELEXP is set while the device is open.
unfoldable pub expunge : Life → Life
expunge life =
    if life.lib_open_cnt == 0
    then record life { units = map (λ u. none) life.units; present = false }
    else record life { delexp = true }

-- UnitTask_Shutdown after the last close
abbrev pub closed_unit : LifeUnit → LifeUnit
closed_unit unit =
    if ltb 0 unit.open_count
    then record {
      open_count = unit.open_count - 1;
      unit_open_cnt = if ltb 0 unit.unit_open_cnt then unit.unit_open_cnt - 1 else 0;
      task = if unit.open_count - 1 == 0 then false else unit.task;
    }
    else unit

abbrev pub close_found : Life → ℕ → Option LifeUnit → Life
close_found life unit_num none = life
close_found life unit_num (some unit) = record life {
  units = set life.units unit_num (some (closed_unit unit));
}

-- the end of Close: the count, and the deferred Expunge
unfoldable pub close_count : Life → Life
unfolding expunge
close_count life =
    let left = count_down life in
    if left.lib_open_cnt == 0 && left.delexp then expunge left else left

-- Close, for a request of the unit `unit_num`
unfoldable pub close_device : Life → ℕ → Life
unfolding close_count
close_device life unit_num =
    close_count (close_found life unit_num (get_or life.units unit_num none))
