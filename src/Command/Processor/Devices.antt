-- ===== src/Command/Processor/Devices.antt =====
-- The commands of src/CommandProcessor.cpp that change devices, as acts on the registry.
use collector_service.Db.DeviceTable.{find_device}
use collector_service.Db.{Database, c_str}
use collector_service.Command.Parser.{parse_device_upsert}
use collector_service.Command.Processor.{
  handle_create_device, handle_delete_device, handle_update_device, or_return,
}
use collector_service.Prelude.Result.{Result, err, ok}
use collector_service.Prelude.Exec.Triple.{
  Triple, Triple-bind, Triple-invariant, Triple-pure, Triple-weaken,
}
use collector_service.Db.Manager.Constraints.{Request}
use collector_service.Prelude.Exec.Keeps.{Keeps}
use collector_service.Models.{CommandResult, Device, DeviceUpsert}
use collector_service.Task.Worker.{Environment, World, error_result, on_db}
use collector_service.Prelude.{
  Bool, Bytes, List, false, if◌then◌else◌, inl, inr, refl, some, text, true, ◌||◌, ◌≡◌, ◌⊎◌,
}
use collector_service.Db.Writes.{Write}
use collector_service.Db.Manager.{target_name}
use collector_service.Db.Registry.{act, registry_of}
use collector_service.Db.Registry.Logic.{Before, Done, Failed}
use collector_service.Task.Shown.{Shows, on_db-Keeps, on_db-Triple}
use collector_service.Command.Field.{extract_string_field, has_field}
use collector_service.Prelude.Exec.{◌>>=◌, Exec, lift, pure}

pub data DeviceCommand : Type 0 where
  create_command : DeviceCommand
  delete_command : DeviceCommand
  update_command : DeviceCommand

unfoldable pub run_command : Environment → DeviceCommand → Bytes → Bytes → Exec World CommandResult
run_command env create_command request mid = handle_create_device env request mid
run_command env delete_command request mid = handle_delete_device env request mid
run_command env update_command request mid = handle_update_device env request mid

-- Whether an update is told the status.
abbrev pub names_status : Bytes → Bool
names_status request = has_field request (text "status") || has_field request (text "Status")

-- What a command asks for, where the devices are `ds`: an update that names no status keeps that of
-- the device.
pub data Asks (request : Bytes) (ds : List Device) : DeviceCommand → Request → Type 0 where
  to_create :
      (u : DeviceUpsert)
      → parse_device_upsert request ≡ ok u
      → Asks request ds create_command (Request.creates u)
  to_delete :
      Asks request ds delete_command
        (Request.writes (Write.delete_device (extract_string_field request (text "device_name"))))
  to_update :
      (u : DeviceUpsert) (d : Device)
      → parse_device_upsert request ≡ ok u
      → find_device (c_str (target_name u)) ds ≡ some d
      → Asks request ds update_command
          (Request.updates (if names_status request then u else record u { status = d.status }))

module _ (request : Bytes) (ds : List Device) (c : DeviceCommand) where
  -- The durable tables read as they did, or as the command asks.
  abbrev pub Unchanged : World → Type 0
  Unchanged v = Shows (registry_of ds) v.db

  abbrev pub Changed : World → Type 0
  Changed v = (q : Request) × Asks request ds c q × Shows (act q (registry_of ds)) v.db

  -- With 200 the command has done what it asks for, and with 500 or an exception all or nothing of
  -- it.
  abbrev pub Answered : CommandResult → World → Type 0
  Answered r v = ((r.code ≡ 200) × Changed v) ⊎ ((r.code ≡ 500) × (Unchanged v ⊎ Changed v))

  abbrev pub Threw : World → Type 0
  Threw v = Unchanged v ⊎ Changed v

  pub Before-Unchanged : (w : World) → Before ds w.db → Unchanged w
  Before-Unchanged w b = λ name. rw (b.closed) (rw (b.devices) refl)

  Done-Changed : (q : Request) (w : World) → Asks request ds c q → Done q ds w.db → Changed w
  Done-Changed q w a d = (q, a, λ name. rw (d.closed) (d.reads name))

  Failed-Threw : (q : Request) (w : World) → Asks request ds c q → Failed q ds w.db → Threw w
  Failed-Threw q w a (inl h) = inl h
  Failed-Threw q w a (inr h) = inr (q, a, h)

  abbrev pub Serves : Exec World CommandResult → Type 0
  Serves m = Triple (λ w. Before ds w.db) Answered Threw m

  -- A check of the handler that refuses the request.
  refuse : (mid what : Bytes) → Serves (pure (error_result mid what))
  refuse mid what = Triple-pure _ (λ w b. inr (refl, inl (Before-Unchanged w b)))

  pub or_return-Serves :
      (test : Bool) (mid what : Bytes) (rest : Exec World CommandResult)
      → Serves rest
      → Serves (or_return test (error_result mid what) rest)
  or_return-Serves true mid what rest h = refuse mid what
  or_return-Serves false mid what rest h = h

  -- A read of the database at the start of a handler.
  pub read_first :
      {A : Type 0} (m : Exec Database A) (rest : A → Exec World CommandResult)
      → Keeps (Before ds) m
      → ((a : A) → Serves (rest a))
      → Serves (do a ← on_db m; rest a)
  read_first m rest k h =
      Triple-bind (on_db m) rest
        (Triple-invariant {Q = λ a w. Before ds w.db} (on_db m) (on_db-Keeps m k) (λ w b. b)
          (λ a w b. b) (λ w b. inl (Before-Unchanged w b)))
        h

  pub lift_first :
      {A : Type 0} (r : Result A) (rest : A → Exec World CommandResult)
      → ((a : A) → r ≡ ok a → Serves (rest a))
      → Serves (do a ← lift r; rest a)
  unfolding lift
  lift_first (ok a) rest h = record { at = (h a refl).at }
  lift_first (err what) rest h = record { at = λ w b. inl (Before-Unchanged w b) }

  -- The request itself.
  pub request-Done :
      (env : Environment) (q : Request) (m : Exec Database (Unit {0}))
      → Asks request ds c q
      → Triple (Before ds) (λ (x : Unit {0}). Done q ds) (Failed q ds) m
      → Triple
          (λ w. Before ds w.db)
          (λ (x : Unit {0}) (w : World). Shows (act q (registry_of ds)) w.db)
          Threw
          (on_db m)
  request-Done env q m a t =
      Triple-weaken (on_db m) (on_db-Triple m t) (λ w b. b)
        (λ x w d. λ name. rw (d.closed) (d.reads name)) (λ w f. Failed-Threw q w a f)
