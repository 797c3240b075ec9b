-- ===== src/Command/Processor.antt =====
-- src/CommandProcessor.cpp. A handler whose value is `none` is blocked in a join.
pub mod Devices
pub mod Answer
pub mod Acts
pub mod Replies
pub mod Handle
pub mod Bystanders
use collector_service.Command.Parser.{parse_device_upsert}
use collector_service.Command.Serializer.{ShowDouble, result_json, statuses_json}
use collector_service.Task.Status.{get_status}
use collector_service.Models.{CommandResult, DeviceUpsert, is_ok}
use collector_service.Db.DeviceTable.{device_not_found}
use collector_service.Task.Worker.{
  Environment, World, error_result, init_data_points_by_device, ok_result, on_db,
}
use collector_service.Task.Control.{start_all, start_device_collect, stop_all, stop_device_collect}
use collector_service.Prelude.{
  Bool, Bytes, Option, [], equal, false, if◌then◌else◌, is_empty, none, not, some, text, true, ◌++◌,
  ◌||◌,
}
use collector_service.Prelude.Exec.{◌>>=◌, ◌>>◌, Exec, catch, gets, lift, pure}
use collector_service.Db.Manager
use collector_service.Db.Manager.{target_name, model_differs}
use collector_service.Command.Field.{extract_string_field, has_field}

abbrev pub name_is_empty : Bytes
name_is_empty = text "device_name is empty"

abbrev pub model_is_empty : Bytes
model_is_empty = text "model is empty"

-- What a check of a handler returns, or the handler goes on.
abbrev pub or_return : Bool → CommandResult → Exec World CommandResult → Exec World CommandResult
or_return true r rest = pure r
or_return false r rest = rest

module _ (env : Environment) where
  unfoldable pub create_checked : DeviceUpsert → Bytes → Exec World CommandResult
  create_checked u mid = do
    found ← on_db (Manager.device_exists env.fault u.name)
    or_return found (error_result mid (Manager.already_exists u.name)) (do
      on_db (Manager.create_device env.fault u)
      initialized ← init_data_points_by_device env u.name mid
      or_return (not (is_ok initialized)) initialized
          (pure (ok_result mid (text "device created: " ++ u.name))))

  unfoldable pub handle_create_device : Bytes → Bytes → Exec World CommandResult
  handle_create_device request mid = do
    u ← lift (parse_device_upsert request)
    or_return (is_empty u.name) (error_result mid name_is_empty)
        (or_return (is_empty u.model) (error_result mid model_is_empty) (create_checked u mid))

  unfoldable pub handle_delete_device : Bytes → Bytes → Exec World CommandResult
  handle_delete_device request mid = do
    let name = extract_string_field request (text "device_name")
    found ← on_db (Manager.device_exists env.fault name)
    or_return (not found) (error_result mid (device_not_found name)) (do
      on_db (Manager.delete_device env.fault name)
      pure (ok_result mid (text "device deleted: " ++ name)))

  -- From the lookup of the device as it was; the flag says that the request names a status.
  unfoldable pub update_checked : DeviceUpsert → Bool → Bytes → Exec World CommandResult
  update_checked given names_status mid = do
    before ← on_db (Manager.get_device_by_name env.fault (target_name given))
    let u : DeviceUpsert = if names_status then given else record given { status = before.status }
    on_db (Manager.update_device env.fault u)
    initialized ←
        (if model_differs before u
          then init_data_points_by_device env u.name mid
          else pure (ok_result mid []))
    or_return (not (is_ok initialized)) initialized
        (pure (ok_result mid (text "device updated: " ++ u.name)))

  unfoldable pub handle_update_device : Bytes → Bytes → Exec World CommandResult
  handle_update_device request mid = do
    u ← lift (parse_device_upsert request)
    or_return (is_empty u.name) (error_result mid name_is_empty) (
        or_return (is_empty u.model) (error_result mid model_is_empty) (do
          found ← on_db (Manager.device_exists env.fault (target_name u))
          or_return (not found) (error_result mid (device_not_found u.name)) (
              update_checked u
                (has_field request (text "status") || has_field request (text "Status")) mid)))

-- The text that a handler's result becomes.
unfoldable pub reply : Exec World CommandResult → Exec World (Option Bytes)
reply m = do result ← m; pure (some (result_json result))

unfoldable pub reply_if_back : Exec World (Option CommandResult) → Exec World (Option Bytes)
reply_if_back m = do
  result ← m
  elim result [ none ↦ pure none | some r ↦ pure (some (result_json r)) ]

unfoldable pub message_if_back : Bytes → Bytes → Bool → Option CommandResult
message_if_back mid message true = some (ok_result mid message)
message_if_back mid message false = none

module _ (env : Environment) (show_double : ShowDouble) where
  unfoldable pub handle_start_device_collect : Bytes → Bytes → Exec World (Option CommandResult)
  handle_start_device_collect request mid =
      start_device_collect env (extract_string_field request (text "device_name")) mid

  unfoldable pub handle_stop_device_collect : Bytes → Bytes → Exec World (Option CommandResult)
  handle_stop_device_collect request mid =
      stop_device_collect env (extract_string_field request (text "device_name")) mid

  unfoldable pub handle_start_all : Bytes → Exec World (Option CommandResult)
  handle_start_all mid = do
    back ← start_all env
    pure (message_if_back mid (text "all online device collections started") back)

  unfoldable pub handle_stop_all : Bytes → Exec World (Option CommandResult)
  unfolding stop_all message_if_back text
  handle_stop_all mid = do
    back ← stop_all
    pure (message_if_back mid (text "all device collections stopped") back)

  unfoldable pub dispatch : Bytes → Bytes → Bytes → Exec World (Option Bytes)
  dispatch request mid category =
      if equal category (text "create_device")
      then reply (handle_create_device env request mid)
      else if equal category (text "delete_device")
      then reply (handle_delete_device env request mid)
      else if equal category (text "update_device")
      then reply (handle_update_device env request mid)
      else if equal category (text "start_device_collect")
      then reply_if_back (handle_start_device_collect request mid)
      else if equal category (text "stop_device_collect")
      then reply_if_back (handle_stop_device_collect request mid)
      else if equal category (text "start_all")
      then reply_if_back (handle_start_all mid)
      else if equal category (text "stop_all")
      then reply_if_back (handle_stop_all mid)
      else if equal category (text "get_status")
      then gets (λ w. some (statuses_json show_double (get_status w.store) mid))
      else reply (pure (error_result mid (text "unknown cmd category: " ++ category)))

  -- CommandProcessor::handle
  unfoldable pub handle : Bytes → Exec World (Option Bytes)
  handle request =
      let mid = extract_string_field request (text "mid") in
      let category = extract_string_field request (text "category") in
      catch (dispatch request mid category)
        (λ what. pure (some (result_json (error_result mid what))))
