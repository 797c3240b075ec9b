-- ===== src/Http/Router.antt =====
-- HttpRouter::route of src/http/HttpRouter.cpp. A request is its method, its target and its body; a
-- response its status code and its body. The value `none` is a request that is blocked in a join.
pub mod Get
use collector_service.Models.{DeviceStatus}
use collector_service.Task.Status.{get_status}
use collector_service.Db.DeviceTable.{device_not_found}
use collector_service.Http.Target.{between_path, path_only, query_param}
use collector_service.Prelude.{
  Bool, Bytes, List, Option, [], equal, false, if◌then◌else◌, is_empty, none, some, text, true, ℕ,
  ◌&&◌, ◌++◌, ◌||◌, ◌∷◌,
}
use collector_service.Http.Adapter.{command_envelope}
use collector_service.StdString.{find, is_found, starts_with}
use collector_service.Command.Processor.{handle}
use collector_service.Task.Worker.{Environment, World, on_db}
use collector_service.Http.Json.{
  devices_json, json_error, json_success, records_json, status_list_json,
}
use collector_service.Prelude.Exec.{◌>>=◌, ◌>>◌, Exec, catch, gets, pure, raise}
use collector_service.Command.Serializer.{ShowDouble, status_json}
use collector_service.Db.Manager

pub data Method : Type 0 where
  get_method : Method
  post_method : Method
  other_method : Method

unfoldable pub is_get : Method → Bool
is_get Method.get_method = true
is_get _ = false

unfoldable pub is_post : Method → Bool
is_post Method.post_method = true
is_post _ = false

pub record HttpRequest : Type 0 where
  pub method : Method
  pub target : Bytes
  pub body : Bytes

pub record HttpReply : Type 0 where
  pub status : ℕ
  pub body : Bytes

unfoldable pub reply_ok : Bytes → HttpReply
reply_ok body = record { status = 200; body = body }

unfoldable pub find_status : Bytes → List DeviceStatus → Option DeviceStatus
find_status name [] = none
find_status name (s ∷ ss) = if equal s.device_name name then some s else find_status name ss

abbrev pub default_status : Bytes → DeviceStatus
default_status name = record {
  device_name = name;
  connected = false;
  machine_connected = false;
  fail_count = 0;
  last_success_time = 0;
  error = [];
}

abbrev pub route_not_found : Bytes → HttpReply
route_not_found path = record { status = 404; body = json_error (text "route not found: " ++ path) }

abbrev pub device_required : HttpReply
device_required = record {
  status = 400;
  body = json_error (text "device query parameter is required");
}

module _ (env : Environment) (show_double : ShowDouble) where
  unfoldable pub find_status_or_default : List DeviceStatus → Bytes → Exec World DeviceStatus
  find_status_or_default statuses name = elim (find_status name statuses) [
    | some s ↦ pure s
    | none ↦ do
      found ← on_db (Manager.device_exists env.fault name)
      if found then pure (default_status name) else raise (device_not_found name)
  ]

  unfoldable pub status_of_device : Bytes → Exec World HttpReply
  status_of_device name = do
    statuses ← gets (λ w. get_status w.store)
    s ← find_status_or_default statuses name
    pure (reply_ok (json_success (status_json show_double s)))

  unfoldable pub latest_of_device : Bytes → Exec World HttpReply
  latest_of_device name = do
    records ← on_db (Manager.get_latest_resources env.fault env.newest name)
    pure (reply_ok (json_success (records_json show_double records)))

  -- The branches for GET.
  unfoldable pub route_get : Bytes → Bytes → Exec World HttpReply
  route_get target path =
      let name = query_param target (text "device") in
      if equal path (text "/health")
      then pure (reply_ok (text "{\"success\":true,\"service\":\"collector-service\"}"))
      else if equal path (text "/devices")
      then (do
        devices ← on_db (Manager.get_devices env.fault)
        pure (reply_ok (json_success (devices_json devices))))
      else if equal path (text "/status") || equal path (text "/devices/status")
      then (if is_empty name
          then (do
            statuses ← gets (λ w. get_status w.store)
            pure (reply_ok (json_success (status_list_json show_double statuses))))
          else status_of_device name)
      else if equal path (text "/latest")
      then (if is_empty name then pure device_required else latest_of_device name)
      else if starts_with (text "/devices/") path && is_found (find (text "/status") path)
      then status_of_device (between_path path (text "/devices/") (text "/status"))
      else if starts_with (text "/devices/") path && is_found (find (text "/resources/latest") path)
      then latest_of_device (between_path path (text "/devices/") (text "/resources/latest"))
      else pure (route_not_found path)

  -- commandProcessor_.handle as the body of a response
  unfoldable pub command_reply : Bytes → Exec World (Option HttpReply)
  command_reply command = do
    back ← handle env show_double command
    pure (elim back [ none ↦ none | some body ↦ some (reply_ok body) ])

  -- The branches for POST.
  unfoldable pub route_post : HttpRequest → Bytes → Exec World (Option HttpReply)
  route_post request path =
      let name = query_param request.target (text "device") in
      if equal path (text "/commands")
      then command_reply request.body
      else if equal path (text "/tasks/start")
      then command_reply (
          command_envelope (if is_empty name then text "start_all" else text "start_device_collect")
            name (text "http-start"))
      else if equal path (text "/tasks/stop")
      then command_reply (
          command_envelope (if is_empty name then text "stop_all" else text "stop_device_collect")
            name (text "http-stop"))
      else pure (some (route_not_found path))

  unfoldable pub route_method : HttpRequest → Bytes → Exec World (Option HttpReply)
  route_method request path =
      if is_get request.method
      then (do r ← route_get request.target path; pure (some r))
      else if is_post request.method
      then route_post request path
      else pure (some (route_not_found path))

  unfoldable pub route : HttpRequest → Exec World (Option HttpReply)
  route request =
      catch (route_method request (path_only request.target))
        (λ what. pure (some (record { status = 500; body = json_error what })))
