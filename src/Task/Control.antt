-- ===== src/Task/Control.antt =====
-- startDeviceCollect, stopDeviceCollect, startAll and stopAll of src/DataTask.cpp.
-- A join returns at once where the thread has ended, and ends the worker where its stop flag is up.
-- Where the flag is down the worker goes on and the join waits for it: such a call has the result
-- `none` or `false`, for the caller is blocked, and the world is the one that it waits in. The join
-- comes back when the flag is raised or the worker has failed five times in a row; what the call
-- then goes on to do is not followed.
pub mod Start
pub mod Blocked
pub mod Stop
pub mod Registered
pub mod Kept
pub mod Unchanged
pub mod Idle
use collector_service.Models.{CommandResult, Device}
use collector_service.Task.Cycle.{find_worker, finish}
use collector_service.Db.DeviceTable.{device_not_found}
use collector_service.Task.Worker.{
  Environment, Worker, World, device_offline, error_result, ok_result, on_db, on_store,
  points_or_init,
}
use collector_service.Prelude.{
  Bool, Bytes, List, Option, [], false, if◌then◌else◌, is_zero, none, some, suc, text, true, ℕ,
  ◌++◌, ◌==◌, ◌∷◌,
}
use collector_service.Prelude.Exec.{◌>>=◌, ◌>>◌, Exec, catch, gets, pure, raise, returned, Outcome}
use collector_service.Db.Manager
use collector_service.Task.Status.{
  take_thread, take_all_threads, add_worker, clear_all_workers, erase_stop_flag, is_active,
  mark_start_failed, mark_stopped, request_stop, request_stop_all,
}

abbrev pub already_running : Bytes → Bytes
already_running name = text "device collection is already running: " ++ name

unfoldable pub join_worker : Option Worker → World → Bool × World
unfolding finish
join_worker none w = (true, w)
join_worker (some k) w = if w.flags k.thread then (true, finish k w) else (false, w)

unfoldable pub join : ℕ → World → Bool × World
unfolding find_worker join_worker
join thread w = join_worker (find_worker thread w.workers) w

-- if (thread.joinable()) { thread.join(); }
unfoldable pub join_if_joinable : Option ℕ → World → Bool × World
unfolding join
join_if_joinable none w = (true, w)
join_if_joinable (some thread) w = join thread w

-- The loop over the threads of stopAll goes on behind a join that returned.
unfoldable pub join_all : List ℕ → Bool × World → Bool × World
unfolding join
join_all threads (false, w) = (false, w)
join_all [] (true, w) = (true, w)
join_all (thread ∷ threads) (true, w) = join_all threads (join thread w)

-- A worker as runDeviceTask begins it.
unfoldable pub new_worker : ℕ → Device → Worker
new_worker thread device = record {
  thread = thread;
  device = device;
  status = record {
    device_name = device.name;
    connected = false;
    machine_connected = false;
    fail_count = 0;
    last_success_time = 0;
    error = [];
  };
  fail_count = 0;
  next_cleanup = 0;
}

-- make_shared<atomic_bool>(false), std::thread(…) and addWorker
unfoldable pub launch : Bytes → Device → World → World
unfolding new_worker add_worker
launch name device w =
    let thread = w.started in
    record w {
      store = add_worker name thread thread w.store;
      flags = (λ j. if j == thread then false else w.flags j);
      workers = new_worker thread device ∷ w.workers;
      started = suc w.started;
    }

-- takeThread, eraseStopFlag, and the join of a thread that was left over.
unfoldable pub clear_stale : Bytes → World → Bool × World
unfolding take_thread erase_stop_flag join_if_joinable
clear_stale name w =
    let (stale, store) = take_thread name w.store in
    join_if_joinable stale (record w { store = erase_stop_flag name store })

-- What the try block does from takeThread on; the value is whether the call comes back.
unfoldable pub launch_if_back : Bytes → Device → Bool × World → Outcome World Bool
unfolding launch
launch_if_back name device (true, w) = returned true (launch name device w)
launch_if_back name device (false, w) = returned false w

unfoldable pub relaunch : Bytes → Device → Exec World Bool
unfolding clear_stale launch_if_back
relaunch name device w = launch_if_back name device (clear_stale name w)

-- The end of stopDeviceCollect.
unfoldable pub stopped_if_back : Bytes → Bytes → Bool × World → Outcome World (Option CommandResult)
unfolding mark_stopped text
stopped_if_back name mid (true, w) =
    returned (some (ok_result mid (text "device collection stopped: " ++ name)))
      (record w { store = mark_stopped name w.store })
stopped_if_back name mid (false, w) = returned none w

unfoldable pub join_stopped : Bytes → Bytes → Exec World (Option CommandResult)
unfolding clear_stale stopped_if_back
join_stopped name mid w = stopped_if_back name mid (clear_stale name w)

unfoldable pub start_result : Bytes → Bytes → Bool → Option CommandResult
unfolding text
start_result name mid true = some (ok_result mid (text "device collection started: " ++ name))
start_result name mid false = none

-- requestStop on the flags of the world.
unfoldable pub ask_to_stop : Bytes → Exec World Bool
unfolding request_stop
ask_to_stop name w =
    let (running, flags) = request_stop name w.store w.flags in
    returned running (record w { flags = flags })

module _ (env : Environment) where
  -- The checks of startDeviceCollect: the device that it is to collect from.
  unfoldable pub check_start : Bytes → Bytes → Exec World Device
  check_start name mid = do
    found ← on_db (Manager.device_exists env.fault name)
    if found then pure tt else raise (device_not_found name)
    device ← on_db (Manager.get_device_by_name env.fault name)
    if is_zero device.status then raise (device_offline name) else pure tt
    points ← points_or_init env name mid
    running ← gets (λ w. is_active name w.store)
    if running then raise (already_running name) else pure device

  unfoldable pub start_device_collect : Bytes → Bytes → Exec World (Option CommandResult)
  start_device_collect name mid =
      catch
        (do
          device ← check_start name mid
          back ← relaunch name device
          pure (start_result name mid back))
        (λ what. do on_store (mark_start_failed name); pure (some (error_result mid what)))

  unfoldable pub stop_device_collect : Bytes → Bytes → Exec World (Option CommandResult)
  stop_device_collect name mid = do
    found ← on_db (Manager.device_exists env.fault name)
    if found
        then (do
          running ← ask_to_stop name
          if running
              then join_stopped name mid
              else pure (some (ok_result mid (text "device collection is not running: " ++ name))))
        else pure (some (error_result mid (device_not_found name)))

  -- The loop of startAll; the value is whether it came to its end.
  unfoldable pub start_each : List Device → Exec World Bool
  start_each [] = pure true
  start_each (d ∷ ds) =
      let rest = start_each ds in
      if is_zero d.status then rest else (do
        result ← start_device_collect d.name []
        elim result [ none ↦ pure false | some r ↦ rest ])

  unfoldable pub start_all : Exec World Bool
  start_all = do devices ← on_db (Manager.get_devices env.fault); start_each devices

-- The threads of stopAll, with the flags that are in the store up.
unfoldable pub join_everyone : World → Bool × World
unfolding take_all_threads request_stop_all join_all
join_everyone w =
    let flags = request_stop_all w.store w.flags in
    let (threads, store) = take_all_threads w.store in
    join_all threads (true, record w { flags = flags; store = store })

unfoldable pub cleared_if_back : Bool × World → Outcome World Bool
unfolding clear_all_workers
cleared_if_back (true, w) = returned true (record w { store = clear_all_workers w.store })
cleared_if_back (false, w) = returned false w

unfoldable pub stop_all : Exec World Bool
unfolding join_everyone cleared_if_back
stop_all w = cleared_if_back (join_everyone w)
