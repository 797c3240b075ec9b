-- ===== src/Tests/Collection.antt =====
-- The theorems on the collection at the process of Tests/Data.
use collector_service.Task.Control.Blocked.{GoesOn, Waits, start-stop_all-Waits}
use collector_service.Http.Router.Get.{OnlyRead, route-OnlyRead}
use collector_service.Http.Router.{Method, is_get, route}
use collector_service.Task.Steps.Invariant.{Reachable-IsRegistered}
use collector_service.Task.Sleep.{interval_of, sleep_until_next_cycle}
use collector_service.Task.Control.{start_device_collect, stop_all}
use collector_service.Task.Steps.{Reachable, Step}
use collector_service.Tests.Data.{dev_a, env_a, round_a, worker_a, world_a}
use collector_service.Task.Status.{is_active, values}
use collector_service.Prelude.Dict.{erase, lookup}
use collector_service.Task.Sleep.Bounds.{IsSleep, sleep_until_next_cycle-ends}
use collector_service.Task.Cycle.Effect.{IsBelow, IsRoundOf, round-IsRound, worker_step-IsBelow}
use collector_service.Task.Cycle.{find_worker, round, worker_step}
use collector_service.Prelude.Exec.{after}
use collector_service.Task.Control.Stop.{IsRegistered}
use collector_service.Task.Control.Start.{RefusedAndDetached, start_device_collect-detaches}
use collector_service.Task.Worker.{World}
use collector_service.Prelude.{equal, All, [], arith, false, pos, refl, some, text, ℕ, ◌≡◌}

start_device_collect-detaches_example :
    RefusedAndDetached dev_a world_a (start_device_collect env_a dev_a [] world_a)
unfolding is_active lookup equal text
start_device_collect-detaches_example = start_device_collect-detaches env_a dev_a [] world_a refl

start-stop_all-Waits_example :
    (u : World) × Waits 0 (stop_all (after (start_device_collect env_a dev_a [] world_a))) u
    × GoesOn env_a round_a 0 u
unfolding is_active lookup find_worker values erase equal text
start-stop_all-Waits_example =
    start-stop_all-Waits env_a round_a dev_a [] 0 world_a refl refl ((worker_a, refl), refl) refl

world_a-IsRegistered : IsRegistered world_a
unfolding is_active lookup equal text
world_a-IsRegistered = record { at_name = λ name on. (0, ground arith, ground arith) }

round-IsRound_example : IsRoundOf worker_a world_a (round env_a round_a worker_a world_a)
round-IsRound_example = round-IsRound env_a round_a worker_a world_a

worker_step-IsBelow_example : All IsBelow (worker_step env_a round_a 0 world_a).workers
worker_step-IsBelow_example = worker_step-IsBelow env_a round_a 0 world_a (omega arith, tt)

-- A start that is refused, and a pass of the worker.
Reachable-IsRegistered_example :
    IsRegistered (worker_step env_a round_a 0 (after (start_device_collect env_a dev_a [] world_a)))
Reachable-IsRegistered_example =
    Reachable-IsRegistered env_a world_a
      (worker_step env_a round_a 0 (after (start_device_collect env_a dev_a [] world_a)))
      (Reachable.then_step (Reachable.then_step Reachable.here (Step.start dev_a []))
        (Step.pass round_a 0))
      world_a-IsRegistered

sleep_until_next_cycle-ends_example :
    (r : ℕ × ℕ) × (sleep_until_next_cycle (λ n. false) (pos 1050) ≡ some r)
    × IsSleep (λ n. false) (interval_of (pos 1050)) r
sleep_until_next_cycle-ends_example = sleep_until_next_cycle-ends (λ n. false) (pos 1050)

route-OnlyRead_example : OnlyRead world_a (
    after (
      route env_a
        (λ d. [])
        (record { method = Method.get_method; target = text "/latest?device=devA"; body = [] })
        world_a))
unfolding is_get
route-OnlyRead_example =
    route-OnlyRead env_a (λ d. [])
      (record { method = Method.get_method; target = text "/latest?device=devA"; body = [] })
      world_a refl
