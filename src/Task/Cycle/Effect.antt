-- ===== src/Task/Cycle/Effect.antt =====
-- What a round does to the status store and to the worker's own counters.
use collector_service.Prelude.Dict.{lookup, lookup-put}
use collector_service.Task.Frame.{SameThreads, SameThreads-refl}
use collector_service.Models.{Device}
use collector_service.Task.Status.{set_latest_status}
use collector_service.Task.Cycle.Frame.{collect-Same, load_device-Same}
use collector_service.Prelude.{
  All, Bool-cases, Bytes, List, Option-cases, [], ap, arith, equal, false, if◌then◌else◌, inl, inr,
  leb, refl, some, suc, true, ℕ, ◌<◌, ◌==◌, ◌∷◌, ◌≡◌, ◌⊎◌,
}
use collector_service.Task.Cycle.{
  RoundInput, after_load, collect, conclude, fail, find_worker, finish, go_on, load_device,
  max_failures, remove_worker, round, succeed, worker_step,
}
use collector_service.Task.Worker.{Environment, Worker, World}
use collector_service.Prelude.Exec.{after, Outcome, returned, thrown}

-- The counters of a worker after a round that went well, and after one that failed.
abbrev pub Succeeded : Worker → Type 0
Succeeded k' = (k'.fail_count ≡ 0) × (k'.status.connected ≡ true) × (k'.status.error ≡ [])

abbrev pub Failed : Worker → Worker → Type 0
Failed k k' =
    (k'.fail_count ≡ suc k.fail_count)
    × (k'.status.connected ≡ false)
    × (k'.status.machine_connected ≡ false)
    × (k'.status.last_success_time ≡ k.status.last_success_time)

-- The worker `k` in `w` comes out of a round as `k'` in `v`.
pub record IsRound (k k' : Worker) (w v : World) : Type 0 where
  pub same_thread : k'.thread ≡ k.thread
  pub result : Succeeded k' ⊎ Failed k k'
  pub reported :
      (name : Bytes)
      → lookup name v.store.statuses
        ≡ (if equal k.status.device_name name then some k'.status else lookup name w.store.statuses)
  pub counted : k'.status.fail_count ≡ k'.fail_count
  pub active : v.store.active_devices ≡ w.store.active_devices
  pub threads : v.store.worker_threads ≡ w.store.worker_threads
  pub stop_flags : v.store.stop_flags ≡ w.store.stop_flags
  pub flags : v.flags ≡ w.flags
  pub workers : v.workers ≡ w.workers

abbrev pub IsRoundOf : Worker → World → Worker × World → Type 0
IsRoundOf k w (k', v) = IsRound k k' w v

fail-IsRound :
    (k : Worker) (error : Bytes) (w v : World) → SameThreads w v → IsRoundOf k w (fail k error v)
unfolding fail set_latest_status
fail-IsRound k error w v s = record {
  same_thread = refl;
  result = inr (refl, refl, refl, refl);
  reported = λ name. rw (lookup-put k.status.device_name name _ v.store.statuses, s.store) refl;
  counted = refl;
  active = ap (λ st. st.active_devices) s.store;
  threads = ap (λ st. st.worker_threads) s.store;
  stop_flags = ap (λ st. st.stop_flags) s.store;
  flags = s.flags;
  workers = s.workers;
}

succeed-IsRound :
    (input : RoundInput) (k : Worker) (d : Device) (r : Bytes × ℕ) (w v : World)
    → SameThreads w v
    → IsRoundOf k w (succeed input (record k { device = d }) r v)
unfolding succeed set_latest_status
succeed-IsRound input k d (response, next) w v s = record {
  same_thread = refl;
  result = inl (refl, refl, refl);
  reported = λ name. rw (lookup-put k.status.device_name name _ v.store.statuses, s.store) refl;
  counted = refl;
  active = ap (λ st. st.active_devices) s.store;
  threads = ap (λ st. st.worker_threads) s.store;
  stop_flags = ap (λ st. st.stop_flags) s.store;
  flags = s.flags;
  workers = s.workers;
}

conclude-IsRound :
    (input : RoundInput) (k : Worker) (d : Device) (w : World) (o : Outcome World (Bytes × ℕ))
    → SameThreads w (after o)
    → IsRoundOf k w (conclude input (record k { device = d }) o)
unfolding conclude fail set_latest_status
conclude-IsRound input k d w (returned r v) s = succeed-IsRound input k d r w v s
conclude-IsRound input k d w (thrown error v) s =
    let f = fail-IsRound k error w v s in
    record {
      same_thread = refl;
      result = f.result;
      reported = f.reported;
      counted = refl;
      active = f.active;
      threads = f.threads;
      stop_flags = f.stop_flags;
      flags = f.flags;
      workers = f.workers;
    }

after_load-IsRound :
    (env : Environment) (input : RoundInput) (k : Worker) (w : World) (o : Outcome World Device)
    → SameThreads w (after o)
    → IsRoundOf k w (after_load env input k o)
unfolding after_load
after_load-IsRound env input k w (thrown error v) s = fail-IsRound k error w v s
after_load-IsRound env input k w (returned d v) s =
    conclude-IsRound input k d w (collect env input (record k { device = d }) v)
      ((collect-Same env w input (record k { device = d })).at v s)

-- A round ends with no failures, connected and without an error, or with one more failure,
-- disconnected and with the time of the last success. The status store then has the worker's own
-- status under its name, and is as before under the other names; the active devices, the threads,
-- the stop flags and the other workers are untouched.
pub round-IsRound :
    (env : Environment) (input : RoundInput) (k : Worker) (w : World)
    → IsRoundOf k w (round env input k w)
unfolding round
round-IsRound env input k w =
    after_load-IsRound env input k w (load_device env k w)
      ((load_device-Same env w k).at w (SameThreads-refl w))

-- A worker that runs has failed fewer than five times in a row.
abbrev pub IsBelow : Worker → Type 0
IsBelow k = k.fail_count < max_failures

remove_worker-IsBelow :
    (thread : ℕ) (ks : List Worker) → All IsBelow ks → All IsBelow (remove_worker thread ks)
unfolding remove_worker
remove_worker-IsBelow thread [] h = h
remove_worker-IsBelow thread (k ∷ ks) h = elim (Bool-cases (k.thread == thread)) [
  | inl yes_it_is ↦ rw yes_it_is (remove_worker-IsBelow thread ks h.1)
  | inr no_it_is ↦ rw no_it_is (h.0, remove_worker-IsBelow thread ks h.1)
]

go_on-IsBelow :
    (k : Worker) (w : World) → All IsBelow w.workers → All IsBelow (go_on (k, w)).workers
unfolding go_on finish
go_on-IsBelow k w h = elim (Bool-cases (leb max_failures k.fail_count)) [
  | inl yes_it_is ↦ rw yes_it_is (remove_worker-IsBelow k.thread w.workers h)
  | inr no_it_is ↦ rw no_it_is (ground arith, remove_worker-IsBelow k.thread w.workers h)
]

-- If every worker that runs has failed fewer than five times in a row, this holds after a pass of
-- any worker's loop too: a fifth failure ends the worker.
pub worker_step-IsBelow :
    (env : Environment) (input : RoundInput) (thread : ℕ) (w : World)
    → All IsBelow w.workers
    → All IsBelow (worker_step env input thread w).workers
unfolding worker_step finish
worker_step-IsBelow env input thread w h = elim (Option-cases (find_worker thread w.workers)) [
  | inl missing ↦ rw (missing, worker_step) h
  | inr (k, found) ↦ elim (Bool-cases (w.flags thread)) [
    | inl up ↦ rw (found, worker_step) (rw up (remove_worker-IsBelow k.thread w.workers h))
    | inr down ↦
        rw (found, worker_step)
          (rw down (
            go_on-IsBelow (round env input k w).0 (round env input k w).1
              (rw (round-IsRound env input k w).workers h)))
  ]
]
