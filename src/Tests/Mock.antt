-- ===== src/Tests/Mock.antt =====
-- The theorem on the answers of the mock driver.
use collector_service.StdString.Number.{show_int}
use collector_service.Task.Cycle.{RoundInput, exchange}
use collector_service.Task.Cycle.Mock.{Stores, exchange-Stores}
use collector_service.Driver.MockServer.Record.{mock_record}
use collector_service.Driver.MockServer.RoundTrip.{IsReadable, process_response-handle_query}
use collector_service.Task.Query.{build_query, make_cid}
use collector_service.Models.{DataPoint, Double}
use collector_service.StdString.{is_member, split_last}
use collector_service.Driver.MockServer.ReadBack.{name_paths}
use collector_service.Driver.MockServer.Paths.{IsPrinted}
use collector_service.Task.Response.{process_response}
use collector_service.Driver.MockServer.{handle_query, item_name_from_path, trim_spaces}
use collector_service.Tests.Data.{device_a, env_a, point_a, dev_a, round_a, world_a}
use collector_service.Prelude.Result.{ok}
use collector_service.Prelude.{
  Bytes, List, [], arith, is_empty, map, refl, text, ◌∷◌, ◌≡◌, pos, true, if◌then◌else◌, ltb, ◌==◌,
}

abbrev point_b : DataPoint
point_b = record {
  id = 2;
  device_id = 1;
  device_name = dev_a;
  name_path = text "/Axis/pressure";
  item_path = text "/DV:devA/CP:Axis/DT:pressure";
  item_name = text "pressure";
  item_description = [];
}

abbrev two_points : List DataPoint
two_points = point_a ∷ point_b ∷ []

abbrev two_query : Bytes
two_query = text "{\"cid\":\"devA-1\",\"query\":[\"/Axis/X\",\"/Axis/pressure\"]}"

-- std::to_string on the three values of paths and on denormal doubles; the others do not occur.
abbrev some_text : Double → Bytes
some_text d =
    if d == 4608083138725491507
    then text "1.200000"
    else if d == 4611686018427387904
    then text "2.000000"
    else if ltb d 4503599627370496
    then text "0.000000"
    else text "inf"

some_text-IsPrinted : IsPrinted some_text 3
unfolding is_member text
some_text-IsPrinted = record {
  time = record {
    head = b'0';
    others = text ".000000";
    parts = refl;
    begins = refl;
    all_fine = ground arith;
  };
  pressure = record {
    head = b'1';
    others = text ".200000";
    parts = refl;
    begins = refl;
    all_fine = ground arith;
  };
  temperature = record {
    head = b'2';
    others = text ".000000";
    parts = refl;
    begins = refl;
    all_fine = ground arith;
  };
  others = record {
    head = b'0';
    others = text ".000000";
    parts = refl;
    begins = refl;
    all_fine = ground arith;
  };
}

axis_x-IsReadable : IsReadable point_a
unfolding text item_name_from_path split_last trim_spaces is_empty
axis_x-IsReadable = (
  record {
    inner = text "Axis/X";
    slash = refl;
    key = ground arith;
    plain = ground arith;
    no_colon = ground arith;
    name_clean = ground arith;
    name_flat = ground arith;
    name_given = refl;
    name_other = λ e. cc e;
  },
  refl,
  ground arith,
)

pressure-IsReadable : IsReadable point_b
unfolding text item_name_from_path split_last trim_spaces is_empty
pressure-IsReadable = (
  record {
    inner = text "Axis/pressure";
    slash = refl;
    key = ground arith;
    plain = ground arith;
    no_colon = ground arith;
    name_clean = ground arith;
    name_flat = ground arith;
    name_given = refl;
    name_other = λ e. cc e;
  },
  refl,
  ground arith,
)

process_response-handle_query_example :
    process_response env_a.stod 2 device_a two_points (handle_query some_text 3 two_query)
    ≡ ok (map (mock_record some_text 3 env_a.stod 2 device_a) two_points)
unfolding build_query text is_empty name_paths
process_response-handle_query_example =
    process_response-handle_query some_text 3 2 env_a.stod device_a (text "devA-1") two_query
      two_points some_text-IsPrinted refl (ground arith) (ground arith) (ground arith)
      (ground arith) (axis_x-IsReadable, (pressure-IsReadable, tt)) refl

-- A round that the mock driver answers.
abbrev answered : RoundInput
answered = record round_a {
  connected = true;
  reply = ok (handle_query some_text 3 two_query);
  cid_ms = pos 1;
}

exchange-Stores_example :
    Stores env_a.fault
      (map (mock_record some_text 3 env_a.stod answered.response_time device_a) two_points)
      (handle_query some_text 3 two_query)
      world_a
      (exchange env_a answered device_a two_points world_a)
unfolding build_query text is_empty name_paths make_cid show_int
exchange-Stores_example =
    exchange-Stores env_a answered device_a world_a some_text 3 two_query two_points
      some_text-IsPrinted (ground arith) (ground arith) (ground arith)
      (axis_x-IsReadable, (pressure-IsReadable, tt)) refl refl refl refl
