-- ===== src/Task/Steps.antt =====
-- The process as a sequence of steps: each call of DataTask, each pass of a worker's loop and each
-- call of SQLiteManager that another caller makes is one step, up to its return, its exception or a
-- join that waits for a worker whose flag is not up. So calls of DataTask follow one another: it has
-- no mutex, and what a step that overlaps another makes of the store in between is taken apart in
-- Task/Race. Two things are no step: a stopAll that waits in a join, and what a start that waits in
-- one does once the worker has ended.
pub mod Invariant
use collector_service.Db.{Database}
use collector_service.Task.Cycle.{RoundInput, worker_step}
use collector_service.Models.{CommandResult}
use collector_service.Task.Control.{start_all, start_device_collect, stop_all, stop_device_collect}
use collector_service.Prelude.Exec.{Exec, after, returned}
use collector_service.Task.Worker.{Environment, World, on_db}
use collector_service.Prelude.{Bytes, some, true, ℕ, ◌≡◌}

module _ (env : Environment) where
  pub data Step (w : World) : World → Type 0 where
    start : (name mid : Bytes) → Step w (after (start_device_collect env name mid w))
    stop : (name mid : Bytes) → Step w (after (stop_device_collect env name mid w))
    start_everyone : Step w (after (start_all env w))
    stop_everyone : {v : World} → stop_all w ≡ returned true v → Step w v
    pass : (input : RoundInput) (thread : ℕ) → Step w (worker_step env input thread w)
    use_db : (m : Exec Database (Unit {0})) → Step w (after (on_db m w))

  -- The worlds that such steps come to from `w`, one behind the other.
  pub data Reachable (w : World) : World → Type 0 where
    here : Reachable w w
    then_step : {u v : World} → Reachable w u → Step u v → Reachable w v
