-- ===== src/Tests/Storage.antt =====
-- The theorems on the storage at the tables of Tests/Data.
use collector_service.Db.Manager.Created.{IsCreated, create_device-IsCreated}
use collector_service.Db.ResourceTable.Cleanup.{trim_device-IsTrimmed}
use collector_service.Db.ResourceTable.Trimmed.{IsTrimmed}
use collector_service.Db.Sound.{IsSoundDb}
use collector_service.Db.DeviceTable.{create, exists, find_device, insert_device, inserted_row}
use collector_service.Db.Manager.AllOrNothing.{run_write, run_write-AllOrNothing}
use collector_service.Db.PointTable.{has_point}
use collector_service.Db.Atomic.{AllOrNothing, IsAtomic, transaction-IsAtomic}
use collector_service.Db.{
  c_str, prepare, run_change, sqlite_call, step_done, step_row, tick, transaction,
}
use collector_service.Db.ResourceTable.{has_row, resources_of, trim_device}
use collector_service.Db.Manager.Constraints.{Request, run_request, run_request-IsSoundDb}
use collector_service.Tests.Data.{
  db_a, dev_a, env_a, fault_a, full_a, renamed_a, trimmed_a, upsert_b, with_b, newest_a-IsTimeOrder,
}
use collector_service.Prelude.Exec.{after, pure, returned}
use collector_service.Db.Manager
use collector_service.Models.{Device}
use collector_service.Prelude.{equal, arith, none, refl, text, ◌≡◌}
use collector_service.Db.Writes.{Write, body_of, body_of-Keeps, effect}

run_write-AllOrNothing_example :
    AllOrNothing
      (effect env_a.newest (Write.delete_device dev_a))
      db_a.tables
      (run_write fault_a env_a.newest (Write.delete_device dev_a) db_a)
run_write-AllOrNothing_example =
    run_write-AllOrNothing fault_a env_a.newest (Write.delete_device dev_a) db_a refl

transaction-IsAtomic_example :
    IsAtomic
      (body_of fault_a env_a.newest (Write.delete_device dev_a))
      db_a
      (transaction fault_a (body_of fault_a env_a.newest (Write.delete_device dev_a)) db_a)
transaction-IsAtomic_example =
    transaction-IsAtomic fault_a (body_of fault_a env_a.newest (Write.delete_device dev_a)) db_a
      (body_of-Keeps fault_a env_a.newest (Write.delete_device dev_a)) refl

db_a-IsSoundDb : IsSoundDb db_a
unfolding find_device has_point
db_a-IsSoundDb = record {
  now = record { names = (refl, tt); paths = (refl, tt); rows = tt };
  before = λ t e. cc e;
}

run_request-IsSoundDb_example :
    IsSoundDb (after (run_request fault_a env_a.newest (Request.updates renamed_a) db_a))
run_request-IsSoundDb_example =
    run_request-IsSoundDb fault_a env_a.newest (Request.updates renamed_a) db_a db_a-IsSoundDb

trim_device-IsTrimmed_example :
    IsTrimmed env_a.newest 1
      (resources_of dev_a full_a.resources)
      (resources_of dev_a trimmed_a.resources)
    × (resources_of (text "devB") trimmed_a.resources ≡ resources_of (text "devB") full_a.resources)
    × (trimmed_a.devices ≡ full_a.devices)
    × (trimmed_a.points ≡ full_a.points)
    × (trimmed_a.resource_seq ≡ full_a.resource_seq)
unfolding trim_device text equal has_row
trim_device-IsTrimmed_example =
    trim_device-IsTrimmed env_a.newest dev_a (text "devB") 1 full_a trimmed_a newest_a-IsTimeOrder
      (omega arith, refl, (omega arith, refl, tt)) refl refl

create_device-IsCreated_example :
    (d : Device) × (Manager.get_device_by_name (λ n. none) (text "devB") with_b
      ≡ returned d (tick (tick with_b)))
    × IsCreated upsert_b 1 d
unfolding Manager.create_device exists create prepare sqlite_call step_row step_done run_change
    insert_device find_device inserted_row pure equal text c_str
create_device-IsCreated_example =
    create_device-IsCreated (λ n. none) upsert_b db_a with_b refl refl refl
