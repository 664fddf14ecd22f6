-- ===== src/BeginIo/Commands.antt =====
-- The commands that BeginIO accepts against the list that NSCMD_DEVICEQUERY publishes.
use native.Mathlib.Decide.{ℕ_discrete}
use virtual_scsidevice.Base.{Bool, true, false, List, [], ◌∷◌, ite}
use virtual_scsidevice.Request.{Command}
use virtual_scsidevice.BeginIo.{Group, unknown}

unfoldable Command-discrete : Discrete Command
Command-discrete = hlevel ℕ_discrete

-- the command stands in the list
unfoldable pub listed : Command → List Command → Bool
unfolding Command-discrete
listed c [] = false
listed c (d ∷ l) = ite (Command-discrete c d) true (listed c l)

-- BeginIO does not answer IOERR_NOCMD for its group
unfoldable pub accepted : Group → Bool
accepted unknown = false
accepted _ = true
