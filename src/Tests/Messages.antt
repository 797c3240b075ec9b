-- ===== src/Tests/Messages.antt =====
-- The theorems on the texts that the service reads and writes.
use collector_service.Driver.MockServer.{extract_query_paths}
use collector_service.Task.Query.{build_query}
use collector_service.Driver.MockServer.Query.{extract_query_paths-build_query, paths_read}
use collector_service.Http.Adapter.{command_envelope}
use collector_service.Util.Json.{escape_json}
use collector_service.Task.Worker.{error_result}
use collector_service.ModelFile.Parser.{parse_model_to_data_points}
use collector_service.Command.Serializer.{result_json}
use collector_service.Task.Response.{process_response}
use collector_service.StdString.Number.{show_int, stoi}
use collector_service.ModelFile.Parser.Points.{IsPointOf, parse_model-IsPointOf}
use collector_service.Command.Parser.{parse_addr}
use collector_service.Command.Serializer.Fields.{result_json-mid, result_json-msg}
use collector_service.Task.Response.Records.{FromPoints, process_response-FromPoints}
use collector_service.Command.Parser.Addr.{parse_addr-joined}
use collector_service.Prelude.Result.{ok}
use collector_service.Command.Field.RoundTrip.{kept_byte, read_string-escape_json}
use collector_service.StdString.Number.RoundTrip.{stoi-show_int}
use collector_service.Tests.Data.{dev_a, device_a, env_a, model_a, parsed_a, point_a, records_a}
use collector_service.Http.Adapter.Fields.{device_name_key, mid_key, command_envelope-fields}
use collector_service.Command.Field.{extract_string_field, read_string}
use collector_service.Prelude.{
  All, [], arith, false, is_empty, map, negsuc, pos, refl, text, ◌++◌, ◌∷◌, ◌≡◌, Bytes,
}

command_envelope-fields_example :
    (extract_string_field (command_envelope (text "start") dev_a (text "m\n")) (text "category")
      ≡ map kept_byte (text "start"))
    × (extract_string_field (command_envelope (text "start") dev_a (text "m\n")) device_name_key
        ≡ map kept_byte dev_a)
    × (extract_string_field (command_envelope (text "start") dev_a (text "m\n")) mid_key
        ≡ map kept_byte (text "m\n"))
unfolding text
command_envelope-fields_example =
    command_envelope-fields (text "start") dev_a (text "m\n") (ground arith) (ground arith)
      (ground arith) (ground arith) (ground arith) (ground arith)

read_string-escape_json_example :
    read_string [] false (escape_json (text "a\"b\\c") ++ (b'"' ∷ text "}"))
    ≡ [] ++ map kept_byte (text "a\"b\\c")
read_string-escape_json_example = read_string-escape_json [] (text "a\"b\\c") (text "}")

parse_model-IsPointOf_example : All (IsPointOf device_a) parsed_a × (is_empty parsed_a ≡ false)
unfolding parse_model_to_data_points text
parse_model-IsPointOf_example = parse_model-IsPointOf device_a model_a parsed_a refl

process_response-FromPoints_example :
    FromPoints device_a (point_a ∷ []) records_a × (is_empty records_a ≡ false)
unfolding process_response text
process_response-FromPoints_example =
    process_response-FromPoints env_a.stod 2 device_a (point_a ∷ [])
      (text "{\"/Axis/X\":{\"value\":[1]}}") records_a refl

stoi-show_int_example : stoi 10 (show_int (negsuc 41)) ≡ ok (negsuc 41)
stoi-show_int_example = stoi-show_int (negsuc 41) (omega arith)

parse_addr-joined_example :
    parse_addr (text "127.0.0.1" ++ (b':' ∷ show_int (pos 9001))) [] (pos 0)
    ≡ ok (text "127.0.0.1", pos 9001)
parse_addr-joined_example = parse_addr-joined (text "127.0.0.1") [] 9001 (pos 0) (omega arith)

result_json-msg_example :
    extract_string_field
      (result_json (error_result (text "m1") (text "device \"a\" not found")))
      (text "msg")
    ≡ map kept_byte (text "device \"a\" not found")
result_json-msg_example = result_json-msg (error_result (text "m1") (text "device \"a\" not found"))

result_json-mid_example :
    extract_string_field (result_json (error_result (text "m1") (text "failed"))) (text "mid")
    ≡ map kept_byte (text "m1")
unfolding text
result_json-mid_example =
    result_json-mid (error_result (text "m1") (text "failed")) (ground arith) (ground arith)

-- The query for the one point.
abbrev query_a : Bytes
query_a = text "{\"cid\":\"devA-1\",\"query\":[\"/Axis/X\"]}"

extract_query_paths-build_query_example : extract_query_paths query_a ≡ paths_read (point_a ∷ [])
unfolding build_query text
extract_query_paths-build_query_example =
    extract_query_paths-build_query (text "devA-1") query_a (point_a ∷ []) (ground arith)
      (ground arith) (ground arith) refl
