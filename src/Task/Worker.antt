-- ===== src/Task/Worker.antt =====
-- src/DataTask.cpp: the state that the collection works on, and one worker.
use collector_service.Db.DeviceTable.{device_not_found}
use collector_service.Db.ResourceTable.{TimeOrder}
use collector_service.Task.Response.{Stod}
use collector_service.Db.{Database, Fault}
use collector_service.Models.{CommandResult, DataPoint, Device, DeviceStatus, is_ok}
use collector_service.Prelude.{Bytes, List, if◌then◌else◌, is_empty, text, ℕ, ◌++◌}
use collector_service.ModelFile.Parser.{parse_model_to_data_points}
use collector_service.ModelFile.Repository.{Files, ModelRepository, load_model_text}
use collector_service.Prelude.Exec.{◌>>=◌, ◌>>◌, Exec, catch, lift, pure, raise, returned, thrown}
use collector_service.Db.Manager
use collector_service.Task.Status.{StatusStore, Flags}

-- A worker thread, at the test of its loop: `thread` is its number, which its stop flag has too;
-- `next_cleanup` is lastCleanupTime + kCleanupIntervalMs, which lies at the start before every time.
pub record Worker : Type 0 where
  pub thread : ℕ
  pub device : Device
  pub status : DeviceStatus
  pub fail_count : ℕ
  pub next_cleanup : ℕ

-- The database, the status store, the stop flags, the threads that run, and how many were started.
pub record World : Type 0 where
  pub db : Database
  pub store : StatusStore
  pub flags : Flags
  pub workers : List Worker
  pub started : ℕ

-- What the process does not decide: SQLite's failures and its order of REAL values, the files, and
-- the numbers that std::stod reads.
pub record Environment : Type 0 where
  pub fault : Fault
  pub newest : TimeOrder
  pub files : Files
  pub repository : ModelRepository
  pub stod : Stod

-- A method of SQLiteManager.
unfoldable pub on_db : {A : Type 0} → Exec Database A → Exec World A
on_db m w = elim (m w.db) [
  | returned a db ↦ returned a (record w { db = db })
  | thrown what db ↦ thrown what (record w { db = db })
]

unfoldable pub on_store : (StatusStore → StatusStore) → Exec World (Unit {0})
on_store f w = returned tt (record w { store = f w.store })

abbrev pub ok_result : Bytes → Bytes → CommandResult
ok_result mid msg = record { code = 200; msg = msg; mid = mid }

abbrev pub error_result : Bytes → Bytes → CommandResult
error_result mid msg = record { code = 500; msg = msg; mid = mid }

module _ (env : Environment) where
  -- The body of the try block of initDataPointsByDevice.
  unfoldable pub init_data_points : Bytes → Exec World (Unit {0})
  init_data_points name = do
    found ← on_db (Manager.device_exists env.fault name)
    if found then pure tt else raise (device_not_found name)
    device ← on_db (Manager.get_device_by_name env.fault name)
    model_text ← lift (load_model_text env.files env.repository device.model device.model_version)
    points ← lift (parse_model_to_data_points device model_text)
    on_db (Manager.replace_data_points_for_device env.fault device points)

  unfoldable pub init_data_points_by_device : Bytes → Bytes → Exec World CommandResult
  init_data_points_by_device name mid =
      catch
        (do
          init_data_points name
          pure (ok_result mid (text "DataPoint initialized for device: " ++ name)))
        (λ what. pure (error_result mid what))

abbrev pub device_offline : Bytes → Bytes
device_offline name = text "device is offline: " ++ name

abbrev pub no_configured_points : Bytes → Bytes
no_configured_points name = text "device has no configured data points: " ++ name

module _ (env : Environment) where
  -- The points of a device, first made from its model where there are none.
  unfoldable pub points_or_init : Bytes → Bytes → Exec World (List DataPoint)
  points_or_init name mid = do
    points ← on_db (Manager.get_data_points_by_device_name env.fault name)
    if is_empty points
        then (do
          initialized ← init_data_points_by_device env name mid
          if is_ok initialized then pure tt else raise initialized.msg
          again ← on_db (Manager.get_data_points_by_device_name env.fault name)
          if is_empty again then raise (no_configured_points name) else pure again)
        else pure points
