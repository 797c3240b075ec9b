-- ===== src/Http/Adapter.antt =====
-- src/http/HttpCommandAdapter.cpp: the command text that stands for an HTTP request.
pub mod Fields
use collector_service.Prelude.{
  ℕ, Bytes, Bool, true, false, List, [], ◌∷◌, ◌++◌, if◌then◌else◌, text, is_empty,
}
use collector_service.Util.Json.{escape_json}

unfoldable pub device_field : Bytes → Bytes
unfolding is_empty text
device_field device_name =
    if is_empty device_name
    then []
    else text "\"device_name\":\"" ++ (escape_json device_name ++ b'"' ∷ [])

unfoldable pub command_envelope : Bytes → Bytes → Bytes → Bytes
unfolding text
command_envelope category device_name mid =
    text "{\"type\":\"json\",\"uid\":\"http\",\"pid\":\"http\",\"cmd\":{\"category\":\""
    ++ (escape_json category
        ++ (text "\",\"params\":{"
            ++ (device_field device_name
                ++ (text "}},\"mid\":\"" ++ (escape_json mid ++ text "\"}")))))
