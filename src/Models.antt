-- ===== src/Models.antt =====
-- include/model/Models.h.
-- A double is the bit pattern of its 64 bits: the program only stores, compares in SQL and prints
-- one, so all that is done with a double is an argument of the model.
use collector_service.Prelude.{ℕ, Bytes, Bool, ℤ, ◌==◌}

abbrev pub Double : Type 0
Double = ℕ

pub record Device : Type 0 where
  pub id : ℕ
  pub name : Bytes
  pub ip : Bytes
  pub port : ℤ
  pub sample_interval_ms : ℤ
  pub status : ℤ
  pub model : Bytes
  pub model_version : Bytes
  pub driver_path : Bytes

pub record DataPoint : Type 0 where
  pub id : ℕ
  pub device_id : ℕ
  pub device_name : Bytes
  pub name_path : Bytes
  pub item_path : Bytes
  pub item_name : Bytes
  pub item_description : Bytes

pub record ResourceRecord : Type 0 where
  pub device_name : Bytes
  pub data_item_name_path : Bytes
  pub content : Bytes
  pub dev_time : Double
  pub svr_time : Double
  pub data_item_path : Bytes
  pub data_item_name : Bytes
  pub data_item_description : Bytes

pub record DeviceStatus : Type 0 where
  pub device_name : Bytes
  pub connected : Bool
  pub machine_connected : Bool
  pub fail_count : ℕ
  pub last_success_time : Double
  pub error : Bytes

pub record DeviceUpsert : Type 0 where
  pub old_name : Bytes
  pub name : Bytes
  pub ip : Bytes
  pub port : ℤ
  pub sample_interval_ms : ℤ
  pub status : ℤ
  pub model : Bytes
  pub model_version : Bytes
  pub driver_path : Bytes

pub record CommandResult : Type 0 where
  pub code : ℕ
  pub msg : Bytes
  pub mid : Bytes

unfoldable pub is_ok : CommandResult → Bool
is_ok r = r.code == 200
