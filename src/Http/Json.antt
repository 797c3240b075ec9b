-- ===== src/Http/Json.antt =====
-- src/http/HttpJsonSerializer.cpp and the bodies of src/http/HttpResponse.cpp. The text of a status
-- is that of Command/Serializer, which the source has in both files.
use collector_service.Util.Json.{array_of, escape_json}
use collector_service.StdString.Number.{show_int, show_ℕ}
use collector_service.Prelude.{Bytes, List, [], if◌then◌else◌, is_empty, text, ◌++◌, ◌∷◌}
use collector_service.Models.{Device, DeviceStatus, ResourceRecord}
use collector_service.Command.Serializer.{ShowDouble, status_items}

unfoldable pub device_json : Device → Bytes
unfolding text escape_json show_ℕ show_int
device_json d =
    text "{\"id\":"
    ++ (show_ℕ d.id
        ++ (text ",\"name\":\""
            ++ (escape_json d.name
                ++ (text "\",\"ip\":\""
                    ++ (escape_json d.ip
                        ++ (text "\",\"port\":"
                            ++ (show_int d.port
                                ++ (text ",\"sampleIntervalMs\":"
                                    ++ (show_int d.sample_interval_ms
                                        ++ (text ",\"status\":"
                                            ++ (show_int d.status
                                                ++ (text ",\"model\":\""
                                                    ++ (escape_json d.model
                                                        ++ (text "\",\"model_version\":\""
                                                            ++ (escape_json d.model_version
                                                            ++ (text "\",\"driver_path\":\""
                                                            ++ (escape_json d.driver_path
                                                            ++ text "\"}")))))))))))))))))

unfoldable pub device_items : List Device → List Bytes
unfolding device_json
device_items [] = []
device_items (d ∷ ds) = device_json d ∷ device_items ds

unfoldable pub devices_json : List Device → Bytes
unfolding array_of device_items
devices_json ds = array_of (device_items ds)

unfoldable pub status_list_json : ShowDouble → List DeviceStatus → Bytes
unfolding array_of status_items
status_list_json show_double ss = array_of (status_items show_double ss)

unfoldable pub record_json : ShowDouble → ResourceRecord → Bytes
unfolding text escape_json is_empty
record_json show_double r =
    text "{\"device_name\":\""
    ++ (escape_json r.device_name
        ++ (text "\",\"dataItemNamePath\":\""
            ++ (escape_json r.data_item_name_path
                ++ (text "\",\"data\":"
                    ++ ((if is_empty r.content then text "[]" else r.content)
                        ++ (text ",\"devTime\":"
                            ++ (show_double r.dev_time
                                ++ (text ",\"svrTime\":"
                                    ++ (show_double r.svr_time
                                        ++ (text ",\"dataItemPath\":\""
                                            ++ (escape_json r.data_item_path
                                                ++ (text "\",\"dataItemName\":\""
                                                    ++ (escape_json r.data_item_name
                                                        ++ (text "\",\"dataItemDescription\":\""
                                                            ++ (escape_json r.data_item_description
                                                            ++ text "\"}")))))))))))))))

unfoldable pub record_items : ShowDouble → List ResourceRecord → List Bytes
unfolding record_json
record_items show_double [] = []
record_items show_double (r ∷ rs) = record_json show_double r ∷ record_items show_double rs

unfoldable pub records_json : ShowDouble → List ResourceRecord → Bytes
unfolding array_of record_items
records_json show_double rs = array_of (record_items show_double rs)

unfoldable pub json_success : Bytes → Bytes
unfolding text
json_success content = text "{\"success\":true,\"data\":" ++ (content ++ text "}")

unfoldable pub json_error : Bytes → Bytes
unfolding text escape_json
json_error message = text "{\"success\":false,\"error\":\"" ++ (escape_json message ++ text "\"}")
