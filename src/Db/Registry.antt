-- ===== src/Db/Registry.antt =====
-- The contract of src/SQLiteManager.cpp for devices: a registry from names to the fields of a device.
-- Ids, the order of the rows and the other tables are not in it.
pub mod Statements
pub mod Logic
pub mod Methods
pub mod Refinement
pub mod History
use collector_service.Db.Manager.Constraints.{Request}
use collector_service.Db.{c_str}
use collector_service.Db.Writes.{Write}
use collector_service.Models.{Device, DeviceUpsert}
use collector_service.Db.DeviceTable.{find_device, rewrite_devices, without_device}
use collector_service.Db.Manager.{target_name}
use collector_service.Prelude.{
  Bytes, List, Option, [], arith, equal, equal_iff, false, if◌then◌else◌, none, some, ℤ, ◌∷◌, ◌≡◌,
}

pub record Profile : Type 0 where
  pub ip : Bytes
  pub port : ℤ
  pub sample_interval_ms : ℤ
  pub status : ℤ
  pub model : Bytes
  pub model_version : Bytes
  pub driver_path : Bytes

abbrev pub Registry : Type 0
Registry = Bytes → Option Profile

abbrev pub profile_of : Device → Profile
profile_of d = record {
  ip = d.ip;
  port = d.port;
  sample_interval_ms = d.sample_interval_ms;
  status = d.status;
  model = d.model;
  model_version = d.model_version;
  driver_path = d.driver_path;
}

unfoldable pub registry_of : List Device → Registry
registry_of ds name = elim (find_device name ds) [ none ↦ none | some d ↦ some (profile_of d) ]

-- What a request gives a device to have: its own fields, as far as their first zero byte.
abbrev pub given_profile : DeviceUpsert → Profile
given_profile u = record {
  ip = c_str u.ip;
  port = u.port;
  sample_interval_ms = u.sample_interval_ms;
  status = u.status;
  model = c_str u.model;
  model_version = c_str u.model_version;
  driver_path = c_str u.driver_path;
}

unfoldable pub assign : Bytes → Profile → Registry → Registry
assign key p r name = if equal key name then some p else r name

unfoldable pub forget : Bytes → Registry → Registry
forget key r name = if equal key name then none else r name

-- What a request is to do.
unfoldable pub act : Request → Registry → Registry
act (Request.creates u) r = assign (c_str u.name) (given_profile u) r
act (Request.updates u) r =
    assign (c_str u.name) (given_profile u) (forget (c_str (target_name u)) r)
act (Request.drops_points name) r = r
act (Request.writes (Write.delete_device name)) r = forget (c_str name) r
act (Request.writes w) r = r
