-- ===== src/Command/Parser.antt =====
-- parseAddr and parseDeviceUpsert of src/command/CommandParser.cpp.
pub mod Addr
pub mod Bounds
use collector_service.Prelude.{Bytes, none, some, if◌then◌else◌, text, ℤ, pos, is_empty, is_zero}
use collector_service.Prelude.Result.{Result, ok, ◌>>=◌}
use collector_service.StdString.{split_last}
use collector_service.StdString.Number.{stoi}
use collector_service.Models.{DeviceUpsert}
use collector_service.Command.Field.{extract_string_field, extract_int_field}

-- The reference arguments `ip` and `port` come back as a pair.
unfoldable pub parse_addr : Bytes → Bytes → ℤ → Result (Bytes × ℤ)
unfolding split_last stoi is_empty
parse_addr addr ip port = if is_empty addr then ok (ip, port) else elim (split_last b':' addr) [
  | none ↦ ok (addr, port)
  | some (host, digits) ↦ do p ← stoi 10 digits; ok (host, p)
]

unfoldable pub parse_device_upsert : Bytes → Result DeviceUpsert
unfolding extract_string_field extract_int_field is_empty
parse_device_upsert content = do
  interval ← extract_int_field content (text "SampleInterval") (pos 1000)
  lower ← extract_int_field content (text "status") (pos 1)
  status ← extract_int_field content (text "Status") lower
  let ip_addr = extract_string_field content (text "IpAddr")
  let ip = if is_empty ip_addr then extract_string_field content (text "ip") else ip_addr
  port ← extract_int_field content (text "Port") (pos 0)
  let given = extract_string_field content (text "addr")
  let addr = if is_empty given then ip_addr else given
  (ip', port') ← parse_addr addr ip port
  ok (record {
    old_name = extract_string_field content (text "old_device_name");
    name = extract_string_field content (text "device_name");
    ip = if is_empty ip' then text "127.0.0.1" else ip';
    port = if is_zero port' then pos 9001 else port';
    sample_interval_ms = interval;
    status = status;
    model = extract_string_field content (text "model");
    model_version = extract_string_field content (text "model_version");
    driver_path = extract_string_field content (text "driver_path");
  })
