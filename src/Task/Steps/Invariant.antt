-- ===== src/Task/Steps/Invariant.antt =====
-- Active devices stay registered, whatever the process does.
use collector_service.Models.{CommandResult}
use collector_service.Prelude.Exec.{Outcome, after, returned, thrown}
use collector_service.Task.Control.Stop.{IsRegistered, IsStopped, stop_device_collect-IsStopped}
use collector_service.Task.Cycle.Effect.{round-IsRound}
use collector_service.Task.Worker.{Environment, Worker, World}
use collector_service.Task.Status.{is_active, mark_stopped}
use collector_service.Task.Cycle.{
  RoundInput, find_worker, finish, go_on, max_failures, round, worker_step,
}
use collector_service.Task.Steps.{Reachable, Step}
use collector_service.Task.Control.{join_everyone, stop_all, stop_device_collect}
use collector_service.Task.Frame.{SameThreads-refl, on_db-Same}
use collector_service.Prelude.{
  Bool-cases, Option-cases, inl, inr, leb, refl, true, ℕ, ◌≡◌, Bytes, Option, none, some,
}
use collector_service.Task.Control.Registered.{
  IsRegistered-But, IsRegistered-same, mark_stopped-IsRegistered,
}
use collector_service.Task.Control.Kept.{
  cleared-Registered, start-Registered, start_all-Registered, stop-Registered, RegisteredIfBack,
}

go_on-Registered : (k : Worker) (v : World) → IsRegistered v → IsRegistered (go_on (k, v))
unfolding go_on finish
go_on-Registered k v h = elim (Bool-cases (leb max_failures k.fail_count)) [
  | inl yes_it_is ↦ rw yes_it_is (
      IsRegistered-same (record v { store = mark_stopped k.device.name v.store }) _ refl
        (mark_stopped-IsRegistered k.device.name v (IsRegistered-But k.device.name v h)))
  | inr no_it_is ↦ rw no_it_is (IsRegistered-same v _ refl h)
]

round-Registered :
    (env : Environment) (input : RoundInput) (k : Worker) (w : World)
    → IsRegistered w
    → IsRegistered (round env input k w).1
unfolding is_active
round-Registered env input k w h =
    let r = round-IsRound env input k w in
    record {
      at_name = λ n on.
          let on' : is_active n w.store ≡ true = rw (← r.active) on in
          let (i, fl, th) = h.at_name n on' in (i, rw r.stop_flags fl, rw r.threads th);
    }

worker_step-Registered :
    (env : Environment) (input : RoundInput) (thread : ℕ) (w : World)
    → IsRegistered w
    → IsRegistered (worker_step env input thread w)
unfolding worker_step finish
worker_step-Registered env input thread w h = elim (Option-cases (find_worker thread w.workers)) [
  | inl missing ↦ rw (missing, worker_step) h
  | inr (k, found) ↦ elim (Bool-cases (w.flags thread)) [
    | inl up ↦
        rw (found, worker_step)
          (rw up (
            IsRegistered-same (record w { store = mark_stopped k.device.name w.store }) _ refl
              (mark_stopped-IsRegistered k.device.name w (IsRegistered-But k.device.name w h))))
    | inr down ↦
        rw (found, worker_step)
          (rw down (
            go_on-Registered (round env input k w).0 (round env input k w).1
              (round-Registered env input k w h)))
  ]
]

-- A stop of a registered device is not blocked.
stop_returned :
    (name : Bytes) (w : World) (o : Outcome World (Option CommandResult))
    → RegisteredIfBack o
    → IsStopped name w o
    → IsRegistered (after o)
stop_returned name w (returned (some r) v) h stopped = h
stop_returned name w (returned none v) h stopped = absurd stopped
stop_returned name w (thrown what v) h stopped = h

Step-IsRegistered :
    (env : Environment) (w v : World) → Step env w v → IsRegistered w → IsRegistered v
unfolding stop_all
Step-IsRegistered env w v (Step.start name mid) h = start-Registered env name mid w h
Step-IsRegistered env w v (Step.stop name mid) h =
    stop_returned name w (stop_device_collect env name mid w) (stop-Registered env name mid w h)
      (stop_device_collect-IsStopped env name mid w h)
Step-IsRegistered env w v Step.start_everyone h = start_all-Registered env w h
Step-IsRegistered env w v (Step.stop_everyone e) h = rw e at (cleared-Registered (join_everyone w))
Step-IsRegistered env w v (Step.pass input thread) h = worker_step-Registered env input thread w h
Step-IsRegistered env w v (Step.use_db m) h =
    IsRegistered-same w v ((on_db-Same w m).at w (SameThreads-refl w)).store h

-- Where calls of DataTask follow one another, from a world in which the active devices are
-- registered: behind each start, stop, startAll, pass of a worker and call of the database,
-- whether it returned, threw or, in a start or startAll, waits in a join, and behind each stopAll
-- that returned, each active device has a stop flag and a thread in the store, both of one worker.
pub Reachable-IsRegistered :
    (env : Environment) (w v : World) → Reachable env w v → IsRegistered w → IsRegistered v
Reachable-IsRegistered env w v Reachable.here h = h
Reachable-IsRegistered env w v (Reachable.then_step {u = u} r s) h =
    Step-IsRegistered env u v s (Reachable-IsRegistered env w u r h)
