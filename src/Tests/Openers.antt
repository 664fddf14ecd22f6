-- ===== src/Tests/Openers.antt =====
-- A unit that is opened and closed, for src/Open.c and src/Close.c.
use virtual_scsidevice.Base.{◌<◌, refl, true, false, inl, none, some, [], ◌∷◌, get_or, arith}
use virtual_scsidevice.Lifecycle.{Life, open_device, open_unit, close_device}
use virtual_scsidevice.Lifecycle.Counts.{openers, LifeOk}
use virtual_scsidevice.Lifecycle.Steps.{Reach, here, then_step, open_step, close_step, Reach-LifeOk}

abbrev closed_device : Life
closed_device = record {
  units = some (record { open_count = 0; unit_open_cnt = 0; task = false }) ∷ none ∷ [];
  lib_open_cnt = 0;
  delexp = true;
  present = true;
}

abbrev opened : Life
opened = (open_device true closed_device 0).1

one_opener : 0 < openers (get_or opened.units 0 none)
unfolding open_device open_unit
one_opener = omega arith

open_and_close : Reach closed_device (close_device opened 0)
open_and_close =
    then_step (then_step (here closed_device) (open_step true closed_device 0 (omega arith)))
      (close_step opened 0 one_opener)

Reach-LifeOk_example : LifeOk (close_device opened 0)
Reach-LifeOk_example =
    Reach-LifeOk open_and_close (refl, omega arith, ((refl, refl), (tt, tt)), inl refl)
