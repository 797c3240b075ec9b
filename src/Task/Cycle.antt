-- ===== src/Task/Cycle.antt =====
-- The loop of DataTask::runDeviceTask in src/DataTask.cpp. The driver's answers and the clocks of
-- one round are an argument of the round.
pub mod Frame
pub mod Effect
pub mod Mock
use collector_service.Task.Response.{extract_bool_field, process_response}
use collector_service.Models.{DataPoint, Device, DeviceStatus, Double, is_ok}
use collector_service.Task.Query.{build_query, make_cid}
use collector_service.StdString.Number.{show_int}
use collector_service.Task.Worker.{
  Environment, Worker, World, device_offline, init_data_points_by_device, no_configured_points,
  on_db,
}
use collector_service.Prelude.{
  Bool, Bytes, List, Option, [], false, if◌then◌else◌, is_empty, is_zero, leb, none, pos, some, suc,
  text, true, ℕ, ℤ, ◌++◌, ◌+◌, ◌==◌, ◌∷◌,
}
use collector_service.Prelude.Exec.{
  ◌>>=◌, ◌>>◌, Exec, Outcome, catch, lift, pure, raise, returned, thrown,
}
use collector_service.Prelude.Result.{Result}
use collector_service.Db.Manager
use collector_service.Task.Status.{mark_stopped, set_latest_status}

-- `connected` is what connect() returns, `reply` what sendQuery returns or throws, `cid_ms` the clock
-- in makeCid, `response_time` that in processResponse, `steady_ms` the steady clock behind close(),
-- and `done_time` the clock at the end.
pub record RoundInput : Type 0 where
  pub connected : Bool
  pub reply : Result Bytes
  pub cid_ms : ℤ
  pub response_time : Double
  pub steady_ms : ℕ
  pub done_time : Double

-- An exception thrown in a stage, with the text that status.error gets.
unfoldable pub at_stage : {A : Type 0} → Bytes → Exec World A → Exec World A
unfolding text
at_stage stage m = catch m (λ what. raise (stage ++ (text " failed: " ++ what)))

abbrev pub max_rows_per_device : ℤ
max_rows_per_device = pos 5000

abbrev pub cleanup_interval_ms : ℕ
cleanup_interval_ms = 60000

abbrev pub max_failures : ℕ
max_failures = 5

unfoldable pub connect_failed : Device → Bytes
unfolding text show_int
connect_failed d =
    text "DriverClient connect failed for "
    ++ (d.name ++ (text " at ws://" ++ (d.ip ++ (b':' ∷ show_int d.port))))

module _ (env : Environment) where
  unfoldable pub load_points : Device → Exec World (List DataPoint)
  load_points d = do
    points ←
        at_stage (text "loadDataPoints")
          (on_db (Manager.get_data_points_by_device_name env.fault d.name))
    if is_empty points
        then (do
          initialized ← at_stage (text "initDataPoints") (do
            r ← init_data_points_by_device env d.name []
            if is_ok r then pure tt else raise r.msg)
          again ←
              at_stage (text "loadDataPoints")
                (on_db (Manager.get_data_points_by_device_name env.fault d.name))
          if is_empty again
              then at_stage (text "loadDataPoints") (raise (no_configured_points d.name))
              else pure again)
        else pure points

  unfoldable pub load_device : Worker → Exec World Device
  load_device k =
      at_stage (text "loadDevice") (on_db (Manager.get_device_by_name env.fault k.device.name))

  -- From the query to the insertion: what the round reads back is the response.
  unfoldable pub exchange : RoundInput → Device → List DataPoint → Exec World Bytes
  exchange input d points = do
    query ← at_stage (text "buildQuery") (lift (build_query (make_cid d.name input.cid_ms) points))
    if input.connected then pure tt else at_stage (text "connect") (raise (connect_failed d))
    response ←
        at_stage (text "sendQuery")
          (do r ← lift input.reply; if is_empty r then raise (text "response is empty") else pure r)
    records ←
        at_stage (text "processResponse")
          (lift (process_response env.stod input.response_time d points response))
    at_stage (text "processResponse") (on_db (Manager.insert_resources env.fault records))
    pure response

  -- The cleanup behind close(), where its interval has passed: its failure is only logged, and then
  -- the time of the last cleanup stays.
  unfoldable pub cleanup : RoundInput → Worker → Exec World ℕ
  cleanup input k =
      if leb k.next_cleanup input.steady_ms
      then catch
          (do
            on_db (Manager.cleanup_device env.fault env.newest k.device.name max_rows_per_device)
            pure (input.steady_ms + cleanup_interval_ms))
          (λ what. pure k.next_cleanup)
      else pure k.next_cleanup

  -- The try block from the test of the device's status on; `k` has the device just loaded.
  unfoldable pub collect : RoundInput → Worker → Exec World (Bytes × ℕ)
  collect input k = do
    if is_zero k.device.status
        then at_stage (text "loadDevice") (raise (device_offline k.device.name))
        else pure tt
    points ← load_points k.device
    response ← exchange input k.device points
    next ← cleanup input k
    pure (response, next)

-- The end of the try block.
unfoldable pub succeed : RoundInput → Worker → Bytes × ℕ → World → Worker × World
unfolding extract_bool_field set_latest_status text
succeed input k (response, next) w =
    let status : DeviceStatus = record k.status {
      connected = true;
      machine_connected = extract_bool_field response (text "machineConnected");
      fail_count = 0;
      last_success_time = input.done_time;
      error = [];
    } in
    (
      record k { status = status; fail_count = 0; next_cleanup = next },
      record w { store = set_latest_status status w.store },
    )

-- The catch block.
unfoldable pub fail : Worker → Bytes → World → Worker × World
unfolding set_latest_status
fail k error w =
    let status : DeviceStatus = record k.status {
      connected = false;
      machine_connected = false;
      fail_count = suc k.fail_count;
      error = error;
    } in
    (
      record k { status = status; fail_count = suc k.fail_count },
      record w { store = set_latest_status status w.store },
    )

unfoldable pub conclude : RoundInput → Worker → Outcome World (Bytes × ℕ) → Worker × World
unfolding succeed fail
conclude input k (returned r w) = succeed input k r w
conclude input k (thrown error w) = fail k error w

-- A round for the worker, up to its sleep: the worker as it then is.
unfoldable pub after_load :
    Environment → RoundInput → Worker → Outcome World Device → Worker × World
unfolding conclude collect fail
after_load env input k (returned d w) =
    let loaded : Worker = record k { device = d } in
    conclude input loaded (collect env input loaded w)
after_load env input k (thrown error w) = fail k error w

unfoldable pub round : Environment → RoundInput → Worker → World → Worker × World
unfolding after_load load_device
round env input k w = after_load env input k (load_device env k w)

unfoldable pub remove_worker : ℕ → List Worker → List Worker
remove_worker thread [] = []
remove_worker thread (k ∷ ks) =
    let rest = remove_worker thread ks in if k.thread == thread then rest else k ∷ rest

unfoldable pub find_worker : ℕ → List Worker → Option Worker
find_worker thread [] = none
find_worker thread (k ∷ ks) = if k.thread == thread then some k else find_worker thread ks

-- The end of the thread, behind the loop.
unfoldable pub finish : Worker → World → World
unfolding mark_stopped remove_worker
finish k w = record w {
  store = mark_stopped k.device.name w.store;
  workers = remove_worker k.thread w.workers;
}

-- The worker goes on, or leaves the loop after its fifth failure in a row.
unfoldable pub go_on : Worker × World → World
unfolding finish remove_worker
go_on (k, w) =
    if leb max_failures k.fail_count
    then finish k w
    else record w { workers = k ∷ remove_worker k.thread w.workers }

-- One pass of `while (!*stopFlag)` for the thread, which may have ended before.
unfoldable pub worker_step : Environment → RoundInput → ℕ → World → World
unfolding find_worker finish go_on round
worker_step env input thread w = elim (find_worker thread w.workers) [
  | none ↦ w
  | some k ↦ if w.flags thread then finish k w else go_on (round env input k w)
]
