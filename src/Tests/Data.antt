-- ===== src/Tests/Data.antt =====
-- A process that collects from one device, and what it works on.
use collector_service.Db.ResourceTable.Order.{IsTimeOrder}
use collector_service.Db.DeviceTable.{inserted_row}
use collector_service.Task.Cycle.{RoundInput}
use collector_service.Db.{Database, Fault, ResourceRow, Tables}
use collector_service.Models.{DataPoint, Device, DeviceUpsert, Double, ResourceRecord}
use collector_service.Prelude.Result.{ok}
use collector_service.Task.Worker.{Environment, Worker, World}
use collector_service.Prelude.{
  Bytes, List, [], false, if◌then◌else◌, leb, none, pos, some, text, true, ℕ, ◌==◌, ◌∷◌, Bool-cases,
  arith, inl, inr,
}

abbrev pub dev_a : Bytes
dev_a = text "devA"

abbrev pub device_a : Device
device_a = record {
  id = 1;
  name = dev_a;
  ip = text "127.0.0.1";
  port = pos 9001;
  sample_interval_ms = pos 1000;
  status = pos 1;
  model = text "M1";
  model_version = text "1.0";
  driver_path = text "mock-driver";
}

abbrev pub point_a : DataPoint
point_a = record {
  id = 1;
  device_id = 1;
  device_name = dev_a;
  name_path = text "/Axis/X";
  item_path = text "/DV:devA/CP:Axis/DT:X";
  item_name = text "X";
  item_description = [];
}

abbrev pub db_a : Database
db_a = record {
  tables = record {
    devices = device_a ∷ [];
    points = point_a ∷ [];
    resources = [];
    device_seq = 1;
    point_seq = 1;
    resource_seq = 0;
  };
  saved = none;
  calls = 0;
}

abbrev pub worker_a : Worker
worker_a = record {
  thread = 0;
  device = device_a;
  status = record {
    device_name = dev_a;
    connected = false;
    machine_connected = false;
    fail_count = 0;
    last_success_time = 0;
    error = [];
  };
  fail_count = 0;
  next_cleanup = 0;
}

abbrev pub world_a : World
world_a = record {
  db = db_a;
  store = record {
    statuses = [];
    active_devices = (dev_a, tt) ∷ [];
    worker_threads = (dev_a, 0) ∷ [];
    stop_flags = (dev_a, 0) ∷ [];
  };
  flags = λ j. false;
  workers = worker_a ∷ [];
  started = 1;
}

-- The 15th call of SQLite fails.
abbrev pub fault_a : Fault
fault_a n = if n == 15 then some (text "disk I/O error") else none

abbrev pub env_a : Environment
env_a = record {
  fault = fault_a;
  newest = λ a b. leb b a;
  files = record { path_exists = λ path. false; content = λ path. none };
  repository = record { model_directory = text "models"; fallback_directory = [] };
  stod = λ t. some 0;
}

abbrev pub round_a : RoundInput
round_a = record {
  connected = true;
  reply = ok (text "{\"machineConnected\":true,\"data\":{\"/Axis/X\":{\"value\":[1]}}}");
  cid_ms = pos 1;
  response_time = 2;
  steady_ms = 0;
  done_time = 3;
}

abbrev pub model_a : Bytes
model_a = text "- Name: Axis\n  DataItem:\n        - Name: X\n          Description: 'position'\n"

abbrev pub parsed_a : List DataPoint
parsed_a =
    record {
      id = 0;
      device_id = 1;
      device_name = dev_a;
      name_path = text "/Axis/X";
      item_path = text "/DV:devA/CP:Axis/DT:X";
      item_name = text "X";
      item_description = text "position";
    }
    ∷ []

abbrev pub records_a : List ResourceRecord
records_a =
    record {
      device_name = dev_a;
      data_item_name_path = text "/Axis/X";
      content = text "[1]";
      dev_time = 2;
      svr_time = 2;
      data_item_path = text "/DV:devA/CP:Axis/DT:X";
      data_item_name = text "X";
      data_item_description = [];
    }
    ∷ []

-- A new name for the device, and a new model.
abbrev pub renamed_a : DeviceUpsert
renamed_a = record {
  old_name = dev_a;
  name = text "devB";
  ip = text "127.0.0.1";
  port = pos 9001;
  sample_interval_ms = pos 1000;
  status = pos 1;
  model = text "M2";
  model_version = text "1.0";
  driver_path = text "mock-driver";
}

abbrev pub row_a : ℕ → Double → ResourceRow
row_a id time = record {
  row_id = id;
  entry = record {
    device_name = dev_a;
    data_item_name_path = text "/Axis/X";
    content = text "[1]";
    dev_time = time;
    svr_time = time;
    data_item_path = text "/DV:devA/CP:Axis/DT:X";
    data_item_name = text "X";
    data_item_description = [];
  };
}

-- Two rows of the device, the newer one first.
abbrev pub full_a : Tables
full_a = record db_a.tables { resources = row_a 1 9 ∷ row_a 2 5 ∷ []; resource_seq = 2 }

abbrev pub trimmed_a : Tables
trimmed_a = record full_a { resources = row_a 1 9 ∷ [] }

-- A second device, made where no call fails.
abbrev pub upsert_b : DeviceUpsert
upsert_b = record renamed_a { old_name = []; name = text "devB" }

abbrev pub with_b : Database
with_b = record db_a {
  tables = record db_a.tables { devices = device_a ∷ inserted_row 2 upsert_b ∷ []; device_seq = 2 };
  calls = 4;
}

pub newest_a-IsTimeOrder : IsTimeOrder env_a.newest
newest_a-IsTimeOrder = record {
  total = λ a b. elim (Bool-cases (leb b a)) [
    | inl yes_it_is ↦ inl yes_it_is
    | inr no_it_is ↦ inr (ground arith)
  ];
  chain = λ a b c h k. ground arith;
}
