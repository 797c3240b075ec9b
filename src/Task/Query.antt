-- ===== src/Task/Query.antt =====
-- src/task/CollectionQueryBuilder.cpp.
use collector_service.Models.{DataPoint}
use collector_service.Util.Json.{comma_separated, escape_json, quote_json}
use collector_service.Prelude.{Bytes, List, [], text, ℤ, ◌++◌, ◌∷◌}
use collector_service.StdString.Number.{show_int}
use collector_service.Prelude.Result.{Result, err, ok}

-- deviceName + "-" + std::to_string(nowMilliseconds()); the clock's value is an argument.
unfoldable pub make_cid : Bytes → ℤ → Bytes
unfolding show_int
make_cid device_name now_ms = device_name ++ (b'-' ∷ show_int now_ms)

unfoldable pub quoted_paths : List DataPoint → List Bytes
unfolding quote_json
quoted_paths [] = []
quoted_paths (p ∷ ps) = quote_json p.name_path ∷ quoted_paths ps

abbrev pub no_data_point : Bytes
no_data_point = text "query construct failed: no DataPoint"

unfoldable pub build_query : Bytes → List DataPoint → Result Bytes
unfolding quoted_paths comma_separated text
build_query cid [] = err no_data_point
build_query cid (p ∷ ps) = ok (
    text "{\"cid\":\""
    ++ (escape_json cid
        ++ (text "\",\"query\":[" ++ (comma_separated (quoted_paths (p ∷ ps)) ++ text "]}"))))
