-- ===== src/Task/Control/Stop.antt =====
-- stopDeviceCollect: it comes back, and the worker it stops has ended.
use collector_service.Task.Control.Blocked.{find_worker-thread}
use collector_service.Db.DeviceTable.{device_not_found}
use collector_service.Task.Frame.{SameThreads, SameThreads-refl, on_db-Same}
use collector_service.Models.{CommandResult}
use collector_service.Task.Status.{
  is_active, StatusStore, mark_stopped, take_thread, erase_stop_flag, raise_flag, request_stop,
}
use collector_service.Prelude.Dict.{lookup, lookup-erase, erase}
use collector_service.Task.Control.{
  join, join_worker, clear_stale, join_if_joinable, join_stopped, stopped_if_back, ask_to_stop,
  stop_device_collect,
}
use collector_service.Task.Cycle.{find_worker, remove_worker, finish}
use collector_service.Task.Worker.{Worker, World, Environment, error_result, ok_result}
use collector_service.Prelude.{
  Bytes, List, Option, [], arith, none, refl, some, true, ℕ, ◌∷◌, ◌≡◌, equal_refl, false, ◌⊎◌, Bool,
  Bool-cases, if◌then◌else◌, inl, inr, text, ◌++◌,
}
use collector_service.Prelude.Exec.{◌>>=◌, Outcome, returned, thrown, after, continue, pure}
use collector_service.Db.Manager

-- An active device has a stop flag and a thread in the store, of one worker.
pub record IsRegistered (w : World) : Type 0 where
  pub at_name :
      (name : Bytes)
      → is_active name w.store ≡ true
      → (i : ℕ) × (lookup name w.store.stop_flags ≡ some i)
        × (lookup name w.store.worker_threads ≡ some i)

find_worker-removed : (t : ℕ) (ks : List Worker) → find_worker t (remove_worker t ks) ≡ none
unfolding find_worker remove_worker
find_worker-removed t [] = refl
find_worker-removed t (k ∷ ks) = ground (arith, find_worker-removed t ks)

-- A join of a worker whose flag is up comes back, the worker ended.
join_worker-ends :
    (i : ℕ) (w : World) (o : Option Worker)
    → w.flags i ≡ true
    → find_worker i w.workers ≡ o
    → (v : World) × (join_worker o w ≡ (true, v)) × (find_worker i v.workers ≡ none)
unfolding join_worker finish
join_worker-ends i w none up e = (w, refl, e)
join_worker-ends i w (some k) up e =
    let same = find_worker-thread i w.workers k e in
    let up' : w.flags k.thread ≡ true = rw same up in
    (finish k w, rw (up', join_worker), rw same (find_worker-removed i w.workers))

-- A stop of a device that is active has the code 200, the device is no longer active, and the worker
-- of its thread has ended; the other stops have touched nothing but the database.
abbrev pub IsStopped : Bytes → World → Outcome World (Option CommandResult) → Type 0
IsStopped name w (returned (some r) v) =
    ((r.code ≡ 200)
      × (is_active name w.store ≡ true)
      × (is_active name v.store ≡ false)
      × ((i : ℕ) × (lookup name w.store.worker_threads ≡ some i)
          × (find_worker i v.workers ≡ none)))
    ⊎ ((r.code ≡ 200) × (is_active name w.store ≡ false) × SameThreads w v)
    ⊎ ((r.code ≡ 500) × SameThreads w v)
IsStopped name w (returned none v) = ⊥
IsStopped name w (thrown what v) = SameThreads w v

mark_stopped-inactive :
    (name : Bytes) (store : StatusStore) → is_active name (mark_stopped name store) ≡ false
unfolding is_active mark_stopped
mark_stopped-inactive name store = rw (lookup-erase name name store.active_devices, equal_refl name)

-- stopDeviceCollect from takeThread on, the flag of the worker up.
stop_joined :
    (name mid : Bytes) (i : ℕ) (w v : World)
    → v.flags i ≡ true
    → lookup name v.store.worker_threads ≡ some i
    → lookup name w.store.worker_threads ≡ some i
    → is_active name w.store ≡ true
    → IsStopped name w (join_stopped name mid v)
unfolding join_stopped clear_stale take_thread join_if_joinable stopped_if_back join
stop_joined name mid i w v up th same on =
    rw (th, join_stopped, clear_stale, take_thread, join_if_joinable, join)
      (let v' : World = record v {
        store =
            erase_stop_flag name
              (record v.store { worker_threads = erase name v.store.worker_threads });
      } in
        let (u, joined, gone) = join_worker-ends i v' (find_worker i v.workers) up refl in
        rw joined (inl (refl, on, mark_stopped-inactive name u.store, (i, same, gone))))

-- The flag of a registered device is its worker's.
stop_asked :
    (name mid : Bytes) (w v : World)
    → IsRegistered w
    → SameThreads w v
    → IsStopped name w (
        (do
          running ← ask_to_stop name
          if running
              then join_stopped name mid
              else pure (some (ok_result mid (text "device collection is not running: " ++ name))))
          v)
unfolding ask_to_stop request_stop pure
stop_asked name mid w v reg s = elim (Bool-cases (is_active name w.store)) [
  | inr off ↦
      let off' : is_active name v.store ≡ false = rw s.store off in
      rw (off', ask_to_stop, request_stop) (inr (inl (refl, off, s)))
  | inl on ↦
      let (i, fl, th) = reg.at_name name on in
      let on' : is_active name v.store ≡ true = rw s.store on in
      let fl' : lookup name v.store.stop_flags ≡ some i = rw s.store fl in
      let th' : lookup name v.store.worker_threads ≡ some i = rw s.store th in
      rw (on', ask_to_stop, request_stop)
        (rw (fl', ask_to_stop, request_stop)
          (stop_joined name mid i w (record v { flags = raise_flag i v.flags }) (ground arith) th'
            th on))
]

stop_found :
    (env : Environment) (name mid : Bytes) (w : World) (o : Outcome World Bool)
    → IsRegistered w
    → SameThreads w (after o)
    → IsStopped name w (
        continue o (λ found.
          if found
          then (do
            running ← ask_to_stop name
            if running
                then join_stopped name mid
                else pure
                    (some (ok_result mid (text "device collection is not running: " ++ name))))
          else pure (some (error_result mid (device_not_found name)))))
unfolding pure
stop_found env name mid w (thrown what v) reg s = s
stop_found env name mid w (returned true v) reg s = stop_asked name mid w v reg s
stop_found env name mid w (returned false v) reg s = inr (inr (refl, s))

pub stop_device_collect-IsStopped :
    (env : Environment) (name mid : Bytes) (w : World)
    → IsRegistered w
    → IsStopped name w (stop_device_collect env name mid w)
unfolding stop_device_collect
stop_device_collect-IsStopped env name mid w reg =
    stop_found env name mid w _ reg
      ((on_db-Same w (Manager.device_exists env.fault name)).at w (SameThreads-refl w))
