-- ===== src/Db/Manager.antt =====
-- src/SQLiteManager.cpp. Each method holds the connection's mutex from its first line to its last,
-- so a method is one step for the threads that share the manager.
pub mod AllOrNothing
pub mod Constraints
pub mod Created
pub mod Stored
pub mod Failures
use collector_service.Db.ResourceTable.{
  TimeOrder, cleanup_resources, cleanup_resources_for_device, get_latest, insert,
}
use collector_service.Db.{Database, Fault, transaction}
use collector_service.Models.{DataPoint, Device, DeviceUpsert, ResourceRecord}
use collector_service.Db.DeviceTable.{
  create, device_not_found, exists, get_all, get_by_name, remove, update,
}
use collector_service.Prelude.{
  Bool, Bytes, List, equal, false, if◌then◌else◌, is_empty, is_zero, not, text, ℤ, ◌++◌, ◌||◌,
}
use collector_service.Db.PointTable.{
  delete_by_device_name, get_by_device_name, rename_device, replace_for_device,
}
use collector_service.Prelude.Exec.{◌>>=◌, ◌>>◌, Exec, pure, raise}

abbrev pub already_exists : Bytes → Bytes
already_exists name = text "device already exists: " ++ name

-- Whether a model or a version differs: the test of updateDevice and of the command for it.
unfoldable pub model_differs : Device → DeviceUpsert → Bool
model_differs d u = not (equal d.model u.model) || not (equal d.model_version u.model_version)

-- !oldName.empty() ? oldName : name
unfoldable pub target_name : DeviceUpsert → Bytes
unfolding is_empty
target_name u = if is_empty u.old_name then u.name else u.old_name

module _ (fault : Fault) where
  unfoldable pub device_exists : Bytes → Exec Database Bool
  unfolding exists
  device_exists name = exists fault name

  unfoldable pub get_device_by_name : Bytes → Exec Database Device
  unfolding get_by_name
  get_device_by_name name = get_by_name fault name

  unfoldable pub create_device : DeviceUpsert → Exec Database (Unit {0})
  unfolding exists create
  create_device u = do
    found ← exists fault u.name
    if found then raise (already_exists u.name) else create fault u

  -- The writes of updateDevice, which run with no transaction around them.
  unfoldable pub apply_update : Device → DeviceUpsert → Bytes → Exec Database (Unit {0})
  unfolding update rename_device delete_by_device_name model_differs
  apply_update existing u target = do
    update fault u target
    if not (equal u.name target) then rename_device fault target u.name else pure tt
    if model_differs existing u then delete_by_device_name fault u.name else pure tt

  unfoldable pub name_taken : DeviceUpsert → Bytes → Exec Database Bool
  unfolding exists
  name_taken u target = if not (equal u.name target) then exists fault u.name else pure false

  unfoldable pub update_device : DeviceUpsert → Exec Database (Unit {0})
  unfolding get_by_name name_taken apply_update target_name
  update_device u = do
    existing ← get_by_name fault (target_name u)
    taken ← name_taken u (target_name u)
    if taken then raise (already_exists u.name) else apply_update existing u (target_name u)

  unfoldable pub delete_device : Bytes → Exec Database (Unit {0})
  unfolding exists transaction delete_by_device_name remove
  delete_device name = do
    found ← exists fault name
    if found
        then transaction fault (do delete_by_device_name fault name; remove fault name)
        else raise (device_not_found name)

  unfoldable pub is_device_online : Bytes → Exec Database Bool
  unfolding get_by_name
  is_device_online name = do d ← get_by_name fault name; pure (not (is_zero d.status))

  unfoldable pub delete_data_points_by_device_name : Bytes → Exec Database (Unit {0})
  unfolding delete_by_device_name
  delete_data_points_by_device_name name = delete_by_device_name fault name

  unfoldable pub replace_data_points_for_device : Device → List DataPoint → Exec Database (Unit {0})
  unfolding transaction replace_for_device
  replace_data_points_for_device device points =
      transaction fault (replace_for_device fault device points)

  unfoldable pub get_devices : Exec Database (List Device)
  unfolding get_all
  get_devices = get_all fault

  unfoldable pub get_data_points_by_device_name : Bytes → Exec Database (List DataPoint)
  unfolding get_by_device_name
  get_data_points_by_device_name name = get_by_device_name fault name

  unfoldable pub insert_resources : List ResourceRecord → Exec Database (Unit {0})
  unfolding transaction insert
  insert_resources records = transaction fault (insert fault records)

  unfoldable pub get_latest_resources : TimeOrder → Bytes → Exec Database (List ResourceRecord)
  unfolding get_latest
  get_latest_resources newest name = get_latest fault newest name

  unfoldable pub cleanup_all : TimeOrder → ℤ → Exec Database (Unit {0})
  unfolding transaction cleanup_resources
  cleanup_all newest max_rows = transaction fault (cleanup_resources fault newest max_rows)

  unfoldable pub cleanup_device : TimeOrder → Bytes → ℤ → Exec Database (Unit {0})
  unfolding transaction cleanup_resources_for_device
  cleanup_device newest name max_rows =
      transaction fault (cleanup_resources_for_device fault newest name max_rows)
