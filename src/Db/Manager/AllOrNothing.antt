-- ===== src/Db/Manager/AllOrNothing.antt =====
-- The writing methods of src/SQLiteManager.cpp that open a transaction are all or nothing.
use collector_service.StdString.{is_found}
use collector_service.Db.ResourceTable.{TimeOrder}
use collector_service.Db.Atomic.{AllOrNothing}
use collector_service.Db.PointTable.{delete_by_device_name}
use collector_service.Db.Statement.{sqlite_call-cases, step_row-cases}
use collector_service.Db.DeviceTable.{device_not_found, exists, find_device, remove}
use collector_service.Db.Writes.{Write, effect, body_of, write-AllOrNothing}
use collector_service.Db.{Database, Fault, c_str, prepare, tick, transaction}
use collector_service.Prelude.{Bool, Bytes, false, if◌then◌else◌, inl, inr, none, true, ◌≡◌, ◌⊎◌}
use collector_service.Prelude.Exec.{◌>>◌, Exec, pure, raise, returned, thrown, ◌>>◌, ◌>>◌, ◌>>◌}
use collector_service.Db.Manager

-- The method of SQLiteManager that makes a write.
unfoldable pub run_write : Fault → TimeOrder → Write → Exec Database (Unit {0})
run_write fault newest (Write.delete_device name) = Manager.delete_device fault name
run_write fault newest (Write.replace_data_points device points) =
    Manager.replace_data_points_for_device fault device points
run_write fault newest (Write.insert_resources records) = Manager.insert_resources fault records
run_write fault newest (Write.cleanup_resources max_rows) =
    Manager.cleanup_all fault newest max_rows
run_write fault newest (Write.cleanup_resources_for_device name max_rows) =
    Manager.cleanup_device fault newest name max_rows

pub exists-cases :
    (fault : Fault) (name : Bytes) (db : Database)
    → ((found : Bool) × (exists fault name db ≡ returned found (tick (tick db))))
      ⊎ ((what : Bytes) × (exists fault name db ≡ thrown what (tick db)))
unfolding exists pure prepare
exists-cases fault name db = elim (sqlite_call-cases fault db) [
  | inr (what, c) ↦ inr (what, rw (c, exists, prepare))
  | inl c ↦ elim (step_row-cases fault (λ t. find_device (c_str name) t.devices) (tick db)) [
    | inl r ↦
        inl (is_found (find_device (c_str name) db.tables.devices), rw (c, exists, prepare) (rw r))
    | inr r ↦ inl (false, rw (c, exists, prepare) (rw r))
  ]
]

delete-AllOrNothing :
    (fault : Fault) (newest : TimeOrder) (name : Bytes) (db : Database)
    → db.saved ≡ none
    → AllOrNothing
        (effect newest (Write.delete_device name))
        db.tables
        (Manager.delete_device fault name db)
unfolding Manager.delete_device body_of
delete-AllOrNothing fault newest name db closed = elim (exists-cases fault name db) [
  | inr (what, e) ↦ rw (e, Manager.delete_device) (rw closed)
  | inl (found, e) ↦ rw (e, Manager.delete_device) (after_lookup found)
]
  where
    after_lookup :
        (found : Bool)
        → AllOrNothing (effect newest (Write.delete_device name)) db.tables (
            (if found
                then transaction fault (do delete_by_device_name fault name; remove fault name)
                else raise (device_not_found name))
              (tick (tick db)))
    after_lookup true =
        write-AllOrNothing fault newest (Write.delete_device name) (tick (tick db)) closed
    after_lookup false = unfold raise in rw closed

-- A method of SQLiteManager that writes in a transaction does all of its effect and leaves no
-- transaction open, or throws and leaves the durable tables as they were, whichever calls of
-- SQLite fail.
pub run_write-AllOrNothing :
    (fault : Fault) (newest : TimeOrder) (w : Write) (db : Database)
    → db.saved ≡ none
    → AllOrNothing (effect newest w) db.tables (run_write fault newest w db)
unfolding run_write Manager.replace_data_points_for_device Manager.insert_resources
    Manager.cleanup_all Manager.cleanup_device body_of
run_write-AllOrNothing fault newest (Write.delete_device name) db h =
    delete-AllOrNothing fault newest name db h
run_write-AllOrNothing fault newest (Write.replace_data_points d ps) db h =
    write-AllOrNothing fault newest (Write.replace_data_points d ps) db h
run_write-AllOrNothing fault newest (Write.insert_resources rs) db h =
    write-AllOrNothing fault newest (Write.insert_resources rs) db h
run_write-AllOrNothing fault newest (Write.cleanup_resources n) db h =
    write-AllOrNothing fault newest (Write.cleanup_resources n) db h
run_write-AllOrNothing fault newest (Write.cleanup_resources_for_device name n) db h =
    write-AllOrNothing fault newest (Write.cleanup_resources_for_device name n) db h
