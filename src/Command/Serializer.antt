-- ===== src/Command/Serializer.antt =====
-- src/command/CommandJsonSerializer.cpp.
pub mod Fields
use collector_service.Models.{CommandResult, DeviceStatus, Double}
use collector_service.Prelude.{Bytes, List, [], text, ◌++◌, ◌∷◌}
use collector_service.Util.Json.{bool_text, comma_separated, escape_json}
use collector_service.StdString.Number.{show_ℕ}

unfoldable pub result_json : CommandResult → Bytes
unfolding text show_ℕ
result_json result =
    text "{\"code\":"
    ++ (show_ℕ result.code
        ++ (text ",\"msg\":\""
            ++ (escape_json result.msg
                ++ (text "\",\"mid\":\"" ++ (escape_json result.mid ++ text "\"}")))))

-- `out << value` of a double, whose bits are the argument.
abbrev pub ShowDouble : Type 0
ShowDouble = Double → Bytes

unfoldable pub status_json : ShowDouble → DeviceStatus → Bytes
unfolding text bool_text show_ℕ
status_json show_double status =
    text "{\"device_name\":\""
    ++ (escape_json status.device_name
        ++ (text "\",\"connected\":"
            ++ (bool_text status.connected
                ++ (text ",\"machineConnected\":"
                    ++ (bool_text status.machine_connected
                        ++ (text ",\"failCount\":"
                            ++ (show_ℕ status.fail_count
                                ++ (text ",\"lastSuccessTime\":"
                                    ++ (show_double status.last_success_time
                                        ++ (text ",\"error\":\""
                                            ++ (escape_json status.error ++ text "\"}")))))))))))

unfoldable pub status_items : ShowDouble → List DeviceStatus → List Bytes
unfolding status_json
status_items show_double [] = []
status_items show_double (s ∷ ss) = status_json show_double s ∷ status_items show_double ss

unfoldable pub statuses_json : ShowDouble → List DeviceStatus → Bytes → Bytes
unfolding text comma_separated status_items
statuses_json show_double statuses mid =
    text "{\"code\":200,\"msg\":\"ok\",\"mid\":\""
    ++ (escape_json mid
        ++ (text "\",\"data\":["
            ++ (comma_separated (status_items show_double statuses) ++ text "]}")))
