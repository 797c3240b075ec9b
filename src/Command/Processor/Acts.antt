-- ===== src/Command/Processor/Acts.antt =====
-- What createDevice, deleteDevice and updateDevice commands have done when they answer.
use collector_service.Command.Processor.Answer.{initialized, initialized_if}
use mathlib.Core.Path.{subst}
use collector_service.Db.DeviceTable.{device_not_found}
use collector_service.Db.ResourceTable.{TimeOrder}
use collector_service.Db.Registry.Refinement.{Refines, run_request-Refines}
use collector_service.Db.Manager.AllOrNothing.{run_write}
use collector_service.Prelude.Result.{ok}
use collector_service.Db.Writes.{Write}
use collector_service.Db.{Database, Fault}
use collector_service.Db.Registry.Methods.{creates-Triple, updates-Triple, get_by_name-Triple}
use collector_service.Db.Reads.{exists-Keeps}
use collector_service.Command.Parser.{parse_device_upsert}
use collector_service.Db.Manager.Constraints.{Request, run_request}
use collector_service.Command.Processor.{
  or_return, create_checked, handle_create_device, model_is_empty, name_is_empty,
  handle_delete_device, handle_update_device, update_checked,
}
use collector_service.Task.Worker.{Environment, World, init_data_points_by_device, ok_result, on_db}
use collector_service.Models.{Device, is_ok, DeviceUpsert}
use collector_service.Prelude.Exec.Triple.{
  Triple, Triple-bind, Triple-pure, Triple-weaken, Post, Triple-fact,
}
use collector_service.Prelude.{
  Bytes, List, inl, not, refl, ◌≡◌, is_empty, [], if◌then◌else◌, text, ◌++◌, none,
}
use collector_service.Db.Manager
use collector_service.Db.Manager.{target_name, model_differs}
use collector_service.Db.Registry.Logic.{Before, Done, Failed, Before-ticked}
use collector_service.Task.Shown.{on_db-Triple}
use collector_service.Command.Field.{extract_string_field}
use collector_service.Command.Processor.Devices.{
  run_command, Answered, Asks, DeviceCommand, Threw, Serves, create_command, lift_first,
  or_return-Serves, read_first, request-Done, delete_command, update_command, Before-Unchanged,
  names_status,
}
use collector_service.Prelude.Exec.{◌>>=◌, ◌>>◌, pure, Outcome, returned, thrown}

Refines-Post :
    (q : Request) (ds : List Device) (o : Outcome Database (Unit {0}))
    → Refines q ds o
    → Post (λ u. Done q ds) (Failed q ds) o
Refines-Post q ds (returned u v) h = h
Refines-Post q ds (thrown what v) h = h

delete_device-Triple :
    (fault : Fault) (newest : TimeOrder) (ds : List Device) (name : Bytes)
    → Triple
        (Before ds)
        (λ (u : Unit {0}). Done (Request.writes (Write.delete_device name)) ds)
        (Failed (Request.writes (Write.delete_device name)) ds)
        (Manager.delete_device fault name)
unfolding run_request run_write
delete_device-Triple fault newest ds name = record {
  at = λ db b.
      let q = Request.writes (Write.delete_device name) in
      let h : Refines q ds (Manager.delete_device fault name db) =
        subst (λ x. Refines q x (Manager.delete_device fault name db)) b.devices
          (run_request-Refines fault newest q db b.closed) in
      Refines-Post q ds (Manager.delete_device fault name db) h;
}

module _ (env : Environment) (request mid : Bytes) (ds : List Device) where
  create_checked-Serves :
      (u : DeviceUpsert)
      → parse_device_upsert request ≡ ok u
      → Serves request ds create_command (create_checked env u mid)
  unfolding create_checked Manager.device_exists
  create_checked-Serves u e =
      let asked : Asks request ds create_command (Request.creates u) = Asks.to_create u e in
      read_first request ds create_command (Manager.device_exists env.fault u.name) _
        (exists-Keeps env.fault (Before-ticked ds) u.name)
        (λ found.
          or_return-Serves request ds create_command found mid (Manager.already_exists u.name) _ (
            Triple-bind (on_db (Manager.create_device env.fault u)) _
              (request-Done request ds create_command env (Request.creates u) _ asked
                (creates-Triple env.fault ds u))
              (λ _.
                initialized request ds create_command env (Request.creates u) asked u.name mid _)))

  handle_create_device-Serves :
      Serves request ds create_command (handle_create_device env request mid)
  unfolding handle_create_device
  handle_create_device-Serves =
      lift_first request ds create_command (parse_device_upsert request) _ (λ u e.
        or_return-Serves request ds create_command (is_empty u.name) mid name_is_empty _ (
          or_return-Serves request ds create_command (is_empty u.model) mid model_is_empty _
            (create_checked-Serves u e)))

  handle_delete_device-Serves :
      Serves request ds delete_command (handle_delete_device env request mid)
  unfolding handle_delete_device Manager.device_exists
  handle_delete_device-Serves =
      let name = extract_string_field request (text "device_name") in
      read_first request ds delete_command (Manager.device_exists env.fault name) _
        (exists-Keeps env.fault (Before-ticked ds) name)
        (λ found.
          or_return-Serves request ds delete_command (not found) mid (device_not_found name) _ (
            Triple-bind (on_db (Manager.delete_device env.fault name)) _
              (request-Done request ds delete_command env
                (Request.writes (Write.delete_device name)) _ Asks.to_delete
                (delete_device-Triple env.fault env.newest ds name))
              (λ _. Triple-pure _ (λ w d.
                inl (refl, (Request.writes (Write.delete_device name), Asks.to_delete, d))))))

  -- updateDevice, and the points where the model is another one.
  update_done :
      (u : DeviceUpsert) (before : Device)
      → Asks request ds update_command (Request.updates u)
      → Serves request ds update_command (do
        on_db (Manager.update_device env.fault u)
        r ←
            (if model_differs before u
              then init_data_points_by_device env u.name mid
              else pure (ok_result mid []))
        or_return (not (is_ok r)) r (pure (ok_result mid (text "device updated: " ++ u.name))))
  update_done u before asked =
      Triple-bind (on_db (Manager.update_device env.fault u)) _
        (request-Done request ds update_command env (Request.updates u) _ asked
          (updates-Triple env.fault ds u))
        (λ _.
          initialized_if request ds update_command env (Request.updates u) asked
            (model_differs before u) u.name mid (text "device updated: " ++ u.name))

  update_checked-Serves :
      (given : DeviceUpsert)
      → parse_device_upsert request ≡ ok given
      → Serves request ds update_command (update_checked env given (names_status request) mid)
  unfolding update_checked Manager.get_device_by_name
  update_checked-Serves given e =
      Triple-bind (on_db (Manager.get_device_by_name env.fault (target_name given))) _
        (Triple-weaken _ (on_db-Triple _ (get_by_name-Triple env.fault ds (target_name given)))
          (λ w b. b) (λ d w h. h) (λ w b. inl (Before-Unchanged request ds update_command w b)))
        (λ before.
          Triple-fact _ (λ found. update_done _ before (Asks.to_update given before e found)))

  handle_update_device-Serves :
      Serves request ds update_command (handle_update_device env request mid)
  unfolding handle_update_device Manager.device_exists
  handle_update_device-Serves =
      lift_first request ds update_command (parse_device_upsert request) _ (λ u e.
        or_return-Serves request ds update_command (is_empty u.name) mid name_is_empty _ (
          or_return-Serves request ds update_command (is_empty u.model) mid model_is_empty _ (
            read_first request ds update_command (Manager.device_exists env.fault (target_name u)) _
              (exists-Keeps env.fault (Before-ticked ds) (target_name u))
              (λ found.
                or_return-Serves request ds update_command (not found) mid (device_not_found u.name)
                  _ (update_checked-Serves u e)))))

-- A command to create, delete or update a device, where no transaction is open: with 200 it has done
-- just what the request asks for to the registry of devices; with 500 or an exception the registry is
-- as before or as with 200. An update that names no status keeps that of the device.
pub run_command-Answered :
    (env : Environment) (c : DeviceCommand) (request mid : Bytes) (w : World)
    → w.db.saved ≡ none
    → Post
        (Answered request w.db.tables.devices c)
        (Threw request w.db.tables.devices c)
        (run_command env c request mid w)
unfolding run_command
run_command-Answered env create_command request mid w shut =
    (handle_create_device-Serves env request mid w.db.tables.devices).at w
      (record { devices = refl; closed = shut })
run_command-Answered env delete_command request mid w shut =
    (handle_delete_device-Serves env request mid w.db.tables.devices).at w
      (record { devices = refl; closed = shut })
run_command-Answered env update_command request mid w shut =
    (handle_update_device-Serves env request mid w.db.tables.devices).at w
      (record { devices = refl; closed = shut })
