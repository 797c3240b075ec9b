-- ===== src/Program/Modes/Ends.antt =====
-- How main ends.
use collector_service.Task.Worker.{World}
use collector_service.Task.Control.Idle.{IsIdle}
use collector_service.Prelude.Result.{Result}
use collector_service.Program.Modes.Codes.{IsEnding}
use collector_service.Prelude.{◌≤◌}
use collector_service.Prelude.Exec.{Exec, Outcome, returned, thrown}
use collector_service.Program.Modes.{Ending, Host}

-- What main returns, with the world that it leaves.
abbrev pub Ends : Host → Outcome World Ending → Type 0
Ends host (returned (Ending.exited code) v) = (code ≤ 1) × IsIdle v.store
Ends host (returned e v) = IsEnding host e
Ends host (thrown what v) = ⊥
