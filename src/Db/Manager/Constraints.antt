-- ===== src/Db/Manager/Constraints.antt =====
-- The methods of src/SQLiteManager.cpp keep the constraints of scripts/init.sql.
use collector_service.Db.ResourceTable.{TimeOrder, insert, trim_all, trim_device}
use collector_service.Db.Writes.{Write, body_of}
use collector_service.Models.{Device, DeviceUpsert}
use collector_service.Db.PointTable.{
  delete_by_device_name, delete_points, move_points, rename_device, replace_for_device,
}
use collector_service.Prelude.Exec.Keeps.{Keeps, Keeps-bind, Keeps-if, Keeps-pure, Keeps-raise}
use collector_service.Db.Sound.Methods.{
  insert_points-IsSoundDb, insert_rows-IsSoundDb, prepare-IsSoundDb, statement-IsSoundDb,
  transaction-IsSoundDb,
}
use collector_service.Db.Manager.AllOrNothing.{run_write}
use collector_service.Db.DeviceTable.{
  delete_devices, exists, get_by_name, insert_device, remove, update, update_devices, create,
}
use collector_service.Db.{Database, Fault, c_str, prepare, step_done, transaction}
use collector_service.Db.Sound.{
  IsSoundDb, delete_devices-KeepsSound, delete_points-KeepsSound, insert_device-KeepsSound,
  move_points-KeepsSound, trim_all-KeepsSound, trim_device-KeepsSound, update_devices-KeepsSound,
}
use collector_service.Prelude.{Bytes, equal, false, if◌then◌else◌, is_empty, not, pos, suc}
use collector_service.Prelude.Exec.{◌>>◌, Exec, after, pure, ◌>>◌, ◌>>◌}
use collector_service.Db.Manager
use collector_service.Db.Reads.{exists-Keeps, get_by_name-Keeps}
use collector_service.Db.Sound.Methods.{ticked}
use collector_service.Db.ResourceTable

-- The methods that write.
pub data Request : Type 0 where
  creates : DeviceUpsert → Request
  updates : DeviceUpsert → Request
  drops_points : Bytes → Request
  writes : Write → Request

unfoldable pub run_request : Fault → TimeOrder → Request → Exec Database (Unit {0})
run_request fault newest (Request.creates u) = Manager.create_device fault u
run_request fault newest (Request.updates u) = Manager.update_device fault u
run_request fault newest (Request.drops_points name) =
    Manager.delete_data_points_by_device_name fault name
run_request fault newest (Request.writes w) = run_write fault newest w

body_of-IsSoundDb :
    (fault : Fault) (newest : TimeOrder) (w : Write) → Keeps IsSoundDb (body_of fault newest w)
unfolding body_of remove delete_by_device_name replace_for_device insert
    ResourceTable.cleanup_resources ResourceTable.cleanup_resources_for_device
body_of-IsSoundDb fault newest (Write.delete_device name) =
    Keeps-bind _ _
      (statement-IsSoundDb fault (delete_points (c_str name))
        (delete_points-KeepsSound (c_str name)))
      (λ _.
        statement-IsSoundDb fault (delete_devices (c_str name))
          (delete_devices-KeepsSound (c_str name)))
body_of-IsSoundDb fault newest (Write.replace_data_points device points) =
    Keeps-bind _ _
      (statement-IsSoundDb fault (delete_points (c_str device.name))
        (delete_points-KeepsSound (c_str device.name)))
      (λ _.
        Keeps-bind (prepare fault) _ (prepare-IsSoundDb fault)
          (λ _. insert_points-IsSoundDb fault device points))
body_of-IsSoundDb fault newest (Write.insert_resources records) =
    Keeps-bind (prepare fault) _ (prepare-IsSoundDb fault)
      (λ _. insert_rows-IsSoundDb fault records)
body_of-IsSoundDb fault newest (Write.cleanup_resources (pos (suc n))) =
    statement-IsSoundDb fault (trim_all newest (suc n)) (trim_all-KeepsSound newest (suc n))
body_of-IsSoundDb fault newest (Write.cleanup_resources _) = Keeps-pure tt
body_of-IsSoundDb fault newest (Write.cleanup_resources_for_device name (pos (suc n))) =
    Keeps-if (is_empty name) _ _ (Keeps-pure tt) (
      statement-IsSoundDb fault (trim_device newest (c_str name) (suc n))
        (trim_device-KeepsSound newest (c_str name) (suc n)))
body_of-IsSoundDb fault newest (Write.cleanup_resources_for_device name _) = Keeps-pure tt

create_device-IsSoundDb :
    (fault : Fault) (u : DeviceUpsert) → Keeps IsSoundDb (Manager.create_device fault u)
unfolding Manager.create_device create
create_device-IsSoundDb fault u =
    Keeps-bind (exists fault u.name) _ (exists-Keeps fault ticked u.name) (λ found.
      Keeps-if found _ _ (Keeps-raise _)
        (statement-IsSoundDb fault (insert_device u) (insert_device-KeepsSound u)))

apply_update-IsSoundDb :
    (fault : Fault) (d : Device) (u : DeviceUpsert) (target : Bytes)
    → Keeps IsSoundDb (Manager.apply_update fault d u target)
unfolding Manager.apply_update update rename_device delete_by_device_name
apply_update-IsSoundDb fault d u target =
    Keeps-bind (do prepare fault; step_done fault (update_devices u (c_str target))) _
      (statement-IsSoundDb fault _ (update_devices-KeepsSound u (c_str target)))
      (λ _.
        Keeps-bind
          (if not (equal u.name target)
            then (do prepare fault; step_done fault (move_points (c_str target) (c_str u.name)))
            else pure tt)
          _
          (Keeps-if (not (equal u.name target)) _ _
            (statement-IsSoundDb fault _ (move_points-KeepsSound (c_str target) (c_str u.name)))
            (Keeps-pure tt))
          (λ _.
            Keeps-if (Manager.model_differs d u) _ _
              (statement-IsSoundDb fault _ (delete_points-KeepsSound (c_str u.name)))
              (Keeps-pure tt)))

update_device-IsSoundDb :
    (fault : Fault) (u : DeviceUpsert) → Keeps IsSoundDb (Manager.update_device fault u)
unfolding Manager.update_device Manager.name_taken
update_device-IsSoundDb fault u =
    Keeps-bind (get_by_name fault (Manager.target_name u)) _
      (get_by_name-Keeps fault ticked (Manager.target_name u))
      (λ existing.
        Keeps-bind
          (if not (equal u.name (Manager.target_name u)) then exists fault u.name else pure false) _
          (Keeps-if (not (equal u.name (Manager.target_name u))) _ _
            (exists-Keeps fault ticked u.name) (Keeps-pure false))
          (λ taken.
            Keeps-if taken _ _ (Keeps-raise _)
              (apply_update-IsSoundDb fault existing u (Manager.target_name u))))

in_transaction :
    (fault : Fault) (newest : TimeOrder) (w : Write)
    → Keeps IsSoundDb (transaction fault (body_of fault newest w))
in_transaction fault newest w =
    transaction-IsSoundDb fault (body_of fault newest w) (body_of-IsSoundDb fault newest w)

run_write-IsSoundDb :
    (fault : Fault) (newest : TimeOrder) (w : Write) → Keeps IsSoundDb (run_write fault newest w)
unfolding run_write Manager.delete_device Manager.replace_data_points_for_device
    Manager.insert_resources Manager.cleanup_all Manager.cleanup_device body_of
run_write-IsSoundDb fault newest (Write.delete_device name) =
    Keeps-bind (exists fault name) _ (exists-Keeps fault ticked name) (λ found.
      Keeps-if found _ _ (in_transaction fault newest (Write.delete_device name)) (Keeps-raise _))
run_write-IsSoundDb fault newest (Write.replace_data_points d ps) =
    in_transaction fault newest (Write.replace_data_points d ps)
run_write-IsSoundDb fault newest (Write.insert_resources rs) =
    in_transaction fault newest (Write.insert_resources rs)
run_write-IsSoundDb fault newest (Write.cleanup_resources n) =
    in_transaction fault newest (Write.cleanup_resources n)
run_write-IsSoundDb fault newest (Write.cleanup_resources_for_device name n) =
    in_transaction fault newest (Write.cleanup_resources_for_device name n)

request-IsSoundDb :
    (fault : Fault) (newest : TimeOrder) (r : Request)
    → Keeps IsSoundDb (run_request fault newest r)
unfolding run_request Manager.delete_data_points_by_device_name delete_by_device_name
request-IsSoundDb fault newest (Request.creates u) = create_device-IsSoundDb fault u
request-IsSoundDb fault newest (Request.updates u) = update_device-IsSoundDb fault u
request-IsSoundDb fault newest (Request.drops_points name) =
    statement-IsSoundDb fault _ (delete_points-KeepsSound (c_str name))
request-IsSoundDb fault newest (Request.writes w) = run_write-IsSoundDb fault newest w

-- Every method of SQLiteManager that writes leaves the constraints of the tables in force, now and
-- after a roll-back, if they were before, whether it returns or throws and whichever calls fail:
-- device names are unique, so are a point's device and path, and the Ids of Resources.
pub run_request-IsSoundDb :
    (fault : Fault) (newest : TimeOrder) (r : Request) (db : Database)
    → IsSoundDb db
    → IsSoundDb (after (run_request fault newest r db))
run_request-IsSoundDb fault newest r db h = (request-IsSoundDb fault newest r).at db h
