-- ===== src/Db/DeviceTable.antt =====
-- src/db/DeviceRepository.cpp: the Device table.
pub mod Names
use collector_service.StdString.{is_found}
use collector_service.Models.{Device, DeviceUpsert}
use collector_service.Prelude.Result.{Result, err, ok}
use collector_service.Db.{Database, Fault, Tables, c_str, prepare, step_done, step_row, step_rows}
use collector_service.Prelude.{
  Bool, Bytes, List, Option, [], equal, if◌then◌else◌, none, not, some, suc, text, ℕ, ◌&&◌, ◌++◌,
  ◌∷◌, map,
}
use collector_service.Prelude.Exec.{◌>>=◌, ◌>>◌, Exec, pure, raise}

unfoldable pub find_device : Bytes → List Device → Option Device
find_device name [] = none
find_device name (d ∷ ds) = if equal d.name name then some d else find_device name ds

-- The row that INSERT INTO Device writes with its eight binds, and the Id that it is given.
unfoldable pub inserted_row : ℕ → DeviceUpsert → Device
unfolding c_str
inserted_row id u = record {
  id = id;
  name = c_str u.name;
  ip = c_str u.ip;
  port = u.port;
  sample_interval_ms = u.sample_interval_ms;
  status = u.status;
  model = c_str u.model;
  model_version = c_str u.model_version;
  driver_path = c_str u.driver_path;
}

-- The row that UPDATE Device writes with its first eight binds over the one with the Id `id`.
unfoldable pub updated_row : ℕ → DeviceUpsert → Device
unfolding c_str
updated_row id u = record {
  id = id;
  name = c_str u.name;
  ip = c_str u.ip;
  port = u.port;
  sample_interval_ms = u.sample_interval_ms;
  status = u.status;
  model = c_str u.model;
  model_version = c_str u.model_version;
  driver_path = c_str u.driver_path;
}

-- The columns of a row in the order of SELECT. An Id is a number, which columnInt reads as an int: it
-- is taken to be below 2^31.
abbrev pub read_device : Device → Device
read_device row = record {
  id = row.id;
  name = row.name;
  ip = row.ip;
  port = row.port;
  sample_interval_ms = row.sample_interval_ms;
  status = row.status;
  model = row.model;
  model_version = row.model_version;
  driver_path = row.driver_path;
}

abbrev pub unique_name : Bytes
unique_name = text "UNIQUE constraint failed: Device.Name"

-- INSERT INTO Device
unfoldable pub insert_device : DeviceUpsert → Tables → Result Tables
unfolding find_device inserted_row
insert_device u t =
    if is_found (find_device (c_str u.name) t.devices)
    then err unique_name
    else ok (record t {
      devices = t.devices ++ inserted_row (suc t.device_seq) u ∷ [];
      device_seq = suc t.device_seq;
    })

unfoldable pub rewrite_devices : Bytes → DeviceUpsert → List Device → List Device
unfolding updated_row
rewrite_devices target u [] = []
rewrite_devices target u (d ∷ ds) =
    (if equal d.name target then updated_row d.id u else d) ∷ rewrite_devices target u ds

-- UPDATE Device SET … WHERE Name = target
unfoldable pub update_devices : DeviceUpsert → Bytes → Tables → Result Tables
unfolding find_device rewrite_devices
update_devices u target t =
    if is_found (find_device target t.devices)
      && not (equal (c_str u.name) target)
      && is_found (find_device (c_str u.name) t.devices)
    then err unique_name
    else ok (record t { devices = rewrite_devices target u t.devices })

unfoldable pub without_device : Bytes → List Device → List Device
without_device name [] = []
without_device name (d ∷ ds) =
    let rest = without_device name ds in if equal d.name name then rest else d ∷ rest

-- DELETE FROM Device WHERE Name = ?
unfoldable pub delete_devices : Bytes → Tables → Result Tables
unfolding without_device
delete_devices name t = ok (record t { devices = without_device name t.devices })

abbrev pub device_not_found : Bytes → Bytes
device_not_found name = text "device not found: " ++ name

unfoldable pub or_not_found : Bytes → Option Device → Exec Database Device
or_not_found name none = raise (device_not_found name)
or_not_found name (some row) = pure (read_device row)

module _ (fault : Fault) where
  -- DeviceRepository::exists
  unfoldable pub exists : Bytes → Exec Database Bool
  unfolding prepare step_row
  exists name = do
    prepare fault
    row ← step_row fault (λ t. find_device (c_str name) t.devices)
    pure (is_found row)

  -- DeviceRepository::getByName
  unfoldable pub get_by_name : Bytes → Exec Database Device
  unfolding prepare step_row or_not_found
  get_by_name name = do
    prepare fault
    row ← step_row fault (λ t. find_device (c_str name) t.devices)
    or_not_found name row

  -- DeviceRepository::create
  unfoldable pub create : DeviceUpsert → Exec Database (Unit {0})
  unfolding prepare step_done
  create u = do prepare fault; step_done fault (insert_device u)

  -- DeviceRepository::update
  unfoldable pub update : DeviceUpsert → Bytes → Exec Database (Unit {0})
  unfolding prepare step_done
  update u target = do prepare fault; step_done fault (update_devices u (c_str target))

  -- DeviceRepository::remove
  unfoldable pub remove : Bytes → Exec Database (Unit {0})
  unfolding prepare step_done
  remove name = do prepare fault; step_done fault (delete_devices (c_str name))

  -- DeviceRepository::getAll
  unfoldable pub get_all : Exec Database (List Device)
  unfolding prepare step_rows
  get_all = do prepare fault; step_rows fault (λ t. map read_device t.devices)
