-- ===== src/Command/Processor/Bystanders.antt =====
-- The commands that are not about the table of devices.
use collector_service.Db.Atomic.{durable}
use collector_service.Task.Shown.{Shows}
use collector_service.Task.Control.{start_all, stop_all}
use collector_service.Command.Field.{extract_string_field}
-- Whether a category is one of the three that write devices.
use collector_service.Db.Registry.{Registry, registry_of}
use collector_service.Prelude.Exec.{Exec, after, pure}
use collector_service.Command.Serializer.{ShowDouble, result_json}
use collector_service.Command.Processor.{
  dispatch, handle_start_all, handle_start_device_collect, handle_stop_all,
  handle_stop_device_collect, reply, reply_if_back, handle,
}
use collector_service.Task.Control.Unchanged.{
  KeepsShown, start-Shown, stop-Shown, start_all-Shown, stop_all-Shown,
}
use collector_service.Prelude.{
  Bool, Bytes, Option, equal, false, none, text, ◌||◌, ◌≡◌, arith, refl, some, ◌++◌,
}
use collector_service.Task.Worker.{Environment, World, error_result}
use collector_service.Prelude.Exec.Keeps.{
  Keeps-bind, Keeps-gets, Keeps-if, Keeps-option, Keeps-pure, Keeps-catch,
}
use collector_service.Models.{CommandResult}

abbrev pub writes_devices : Bytes → Bool
writes_devices category =
    equal category (text "create_device")
    || equal category (text "delete_device")
    || equal category (text "update_device")

module _ (env : Environment) (r : Registry) (show_double : ShowDouble) (request mid : Bytes) where
  reply-Shown :
      (m : Exec World (Option CommandResult))
      → KeepsShown env r m
      → KeepsShown env r (reply_if_back m)
  unfolding reply_if_back
  reply-Shown m k =
      Keeps-bind m _ k (λ o. Keeps-option o _ _ (Keeps-pure none) (λ result. Keeps-pure _))

  others-Shown :
      (category : Bytes)
      → equal category (text "create_device") ≡ false
      → equal category (text "delete_device") ≡ false
      → equal category (text "update_device") ≡ false
      → KeepsShown env r (dispatch env show_double request mid category)
  unfolding dispatch handle_start_device_collect handle_stop_device_collect handle_start_all
      handle_stop_all reply
  others-Shown category no_create no_delete no_update =
      let name = extract_string_field request (text "device_name") in
      rw (no_create, no_delete, no_update, dispatch)
        (Keeps-if (equal category (text "start_device_collect")) _ _
          (reply-Shown _ (start-Shown env r name mid))
          (Keeps-if (equal category (text "stop_device_collect")) _ _
            (reply-Shown _ (stop-Shown env r name mid))
            (Keeps-if (equal category (text "start_all")) _ _
              (reply-Shown _
                (Keeps-bind (start_all env) _ (start_all-Shown env r) (λ back. Keeps-pure _)))
              (Keeps-if (equal category (text "stop_all")) _ _
                (reply-Shown _
                  (Keeps-bind stop_all _ (stop_all-Shown env r) (λ back. Keeps-pure _)))
                (Keeps-if (equal category (text "get_status")) _ _ (Keeps-gets _) (
                  Keeps-bind (pure (error_result mid (text "unknown cmd category: " ++ category))) _
                    (Keeps-pure _) (λ result. Keeps-pure (some (result_json result)))))))))

or-false : (a b c : Bool) → (a || b || c) ≡ false → (a ≡ false) × (b ≡ false) × (c ≡ false)
or-false a b c e = ground arith

-- A command that is not to create, delete or update a device leaves the registry of devices that
-- lasts as it was, whatever it does to points, threads and statuses, and also where it fails.
pub handle-Shows :
    (env : Environment) (show_double : ShowDouble) (request : Bytes) (w : World)
    → writes_devices (extract_string_field request (text "category")) ≡ false
    → Shows (registry_of (durable w.db).devices) (after (handle env show_double request w)).db
unfolding handle
handle-Shows env show_double request w other =
    let mid = extract_string_field request (text "mid") in
    let category = extract_string_field request (text "category") in
    let r = registry_of (durable w.db).devices in
    let (no_create, no_delete, no_update) = or-false _ _ _ other in
    (Keeps-catch {P = λ (v : World). Shows r v.db} (dispatch env show_double request mid category)
        (λ what. pure (some (result_json (error_result mid what))))
        (others-Shown env r show_double request mid category no_create no_delete no_update)
        (λ what. Keeps-pure _)).at
      w (λ name. refl)
