-- ===== src/Task/Control/Idle.antt =====
-- What stopAll leaves registered where it comes back.
-- No collection is registered.
use collector_service.Task.Worker.{Worker, World}
use collector_service.Prelude.Exec.{Outcome, returned, thrown}
use collector_service.Task.Status.{
  StatusStore, clear_all_workers, mark_stopped, request_stop_all, take_all_threads,
}
use collector_service.Prelude.{
  Bool, List, Option, [], arith, false, none, refl, some, true, ℕ, ◌∷◌, ◌≡◌,
}
use collector_service.Task.Control.{
  cleared_if_back, join, join_all, join_everyone, join_worker, stop_all,
}
use collector_service.Task.Cycle.{find_worker, finish}

pub record IsIdle (store : StatusStore) : Type 0 where
  pub no_active : store.active_devices ≡ []
  pub no_threads : store.worker_threads ≡ []
  pub no_flags : store.stop_flags ≡ []

abbrev pub Stops : Outcome World Bool → Type 0
Stops (returned true v) = IsIdle v.store
Stops (returned false v) = Unit {0}
Stops (thrown what v) = ⊥

abbrev NoThreads : Bool × World → Type 0
NoThreads (back, v) = v.store.worker_threads ≡ []

join_worker-NoThreads :
    (o : Option Worker) (w : World) → w.store.worker_threads ≡ [] → NoThreads (join_worker o w)
unfolding join_worker finish mark_stopped
join_worker-NoThreads none w h = h
join_worker-NoThreads (some k) w h = ground (arith, h)

join_all-NoThreads :
    (threads : List ℕ) (j : Bool × World) → NoThreads j → NoThreads (join_all threads j)
unfolding join_all join
join_all-NoThreads threads (false, w) h = h
join_all-NoThreads [] (true, w) h = h
join_all-NoThreads (thread ∷ threads) (true, w) h =
    join_all-NoThreads threads _ (join_worker-NoThreads (find_worker thread w.workers) w h)

cleared-Stops : (j : Bool × World) → NoThreads j → Stops (cleared_if_back j)
unfolding cleared_if_back clear_all_workers
cleared-Stops (true, v) h = record { no_active = refl; no_threads = h; no_flags = refl }
cleared-Stops (false, v) h = tt

join_everyone-NoThreads : (w : World) → NoThreads (join_everyone w)
unfolding join_everyone take_all_threads
join_everyone-NoThreads w =
    let flags = request_stop_all w.store w.flags in
    let (threads, store) = take_all_threads w.store in
    join_all-NoThreads threads (true, record w { flags = flags; store = store }) refl

pub stop_all-Stops : (w : World) → Stops (stop_all w)
unfolding stop_all
stop_all-Stops w = cleared-Stops (join_everyone w) (join_everyone-NoThreads w)
