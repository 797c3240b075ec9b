-- ===== src/Tests/Parsing.antt =====
-- Runs of the parsers at the texts of the README.
use collector_service.Driver.MockServer.{handle_query}
use collector_service.Http.Target.{query_param, url_decode}
use collector_service.Prelude.{Bytes, [], text, pos, negsuc, ◌≡◌, refl, ◌∷◌}
use collector_service.Prelude.Result.{ok, err}
use collector_service.StdString.Number.{stoi, show_int}
use collector_service.Models.{DeviceUpsert}
use collector_service.Command.Parser.{parse_addr, parse_device_upsert}

abbrev create_dev_a : Bytes
create_dev_a =
    text
      "{\"type\":\"json\",\"uid\":\"admin\",\"pid\":\"123456\",\"cmd\":{\"category\":\"create_device\",\"params\":{\"device_name\":\"devA\",\"model\":\"M1\",\"model_version\":\"1.0\",\"addr\":\"127.0.0.1:9001\",\"SampleInterval\":1500,\"status\":1,\"driver_path\":\"mock-driver\"}},\"mid\":\"create-devA\"}"

abbrev dev_a : DeviceUpsert
dev_a = record {
  old_name = [];
  name = text "devA";
  ip = text "127.0.0.1";
  port = pos 9001;
  sample_interval_ms = pos 1500;
  status = pos 1;
  model = text "M1";
  model_version = text "1.0";
  driver_path = text "mock-driver";
}

parse_create : parse_device_upsert create_dev_a ≡ ok dev_a
unfolding parse_device_upsert parse_addr text
parse_create = refl

negative : stoi 10 (text " -12x") ≡ ok (negsuc 11)
unfolding stoi text
negative = refl

hexadecimal : stoi 16 (text "0x1G") ≡ ok (pos 1)
unfolding stoi text
hexadecimal = refl

too_large : stoi 10 (text "2147483648") ≡ err (text "stoi")
unfolding stoi text
too_large = refl

shown : show_int (negsuc 9000) ≡ text "-9001"
unfolding show_int text
shown = refl

-- The byte behind a single hexadecimal digit is lost.
half_escape : url_decode (text "%4Gb") ≡ 4 ∷ text "b"
unfolding url_decode stoi text
half_escape = refl

param : query_param (text "/latest?x=1&device=dev+A%2f1") (text "device") ≡ text "dev A/1"
unfolding query_param stoi text
param = refl

-- The mock driver's answer, at a printing of doubles as nothing.
answer :
    handle_query (λ d. []) 0 (text "{\"cid\":\"c\",\"query\":[\" /a/b \"]}")
    ≡ text
        "{\"cid\":\"c\",\"machineConnected\":true,\"data\":{\"/a/b\":{\"value\":[],\"dev_time\":,\"svr_time\":,\"item_path\":\"/DV:mock/CP:mock/DT:b\",\"item_description\":\"b\",\"item_name\":\"b\"}}}"
unfolding handle_query text
answer = refl
