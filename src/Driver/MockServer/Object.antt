-- ===== src/Driver/MockServer/Object.antt =====
-- The object that the mock driver answers with for a path, as tokens.
use collector_service.Models.{Double}
use collector_service.Util.Json.{escape_byte, escape_json}
use collector_service.Prelude.{Bytes, List, [], append_assoc, text, ◌++◌, ◌∷◌, ◌≡◌}
use collector_service.Driver.MockServer.{
  description_for_path, item_name_from_path, path_json, value_for_path,
}
use collector_service.Driver.MockServer.Tokens.{Token, tokens_text}

abbrev pub word : Bytes → Token
word key = record { key = key; first = b':'; gap = []; number = []; tail = [] }

abbrev pub value_before_comma : Bytes → Token
value_before_comma v = record { key = v; first = b','; gap = []; number = []; tail = [] }

abbrev pub mock_path : Bytes → Bytes
mock_path path = text "/DV:mock/CP:mock/DT:" ++ item_name_from_path path

module _ (fixed_text : Double → Bytes) (timestamp : Double) where
  abbrev pub timed : Bytes → Token
  timed key = record {
    key = key;
    first = b':';
    gap = [];
    number = fixed_text timestamp;
    tail = b',' ∷ [];
  }

  abbrev pub value_token : Bytes → Token
  value_token path = record {
    key = text "value";
    first = b':';
    gap = b'[' ∷ [];
    number = fixed_text (value_for_path path);
    tail = b']' ∷ b',' ∷ [];
  }

  abbrev pub item_tokens : Bytes → List Token
  item_tokens path =
      value_token path
      ∷ timed (text "dev_time")
      ∷ timed (text "svr_time")
      ∷ word (text "item_path")
      ∷ value_before_comma (mock_path path)
      ∷ word (text "item_description")
      ∷ value_before_comma (description_for_path path)
      ∷ word (text "item_name")
      ∷ []

  abbrev pub object_text : Bytes → Bytes → Bytes
  object_text path rest =
      b'{'
      ∷ tokens_text (item_tokens path)
          (b'"' ∷ (escape_json (item_name_from_path path) ++ (b'"' ∷ b'}' ∷ rest)))

  abbrev pub item_text : Bytes → Bytes → Bytes
  item_text path rest = b'"' ∷ (escape_json path ++ (b'"' ∷ b':' ∷ object_text path rest))

  pub path_json-text :
      (path rest : Bytes) → path_json fixed_text timestamp path ++ rest ≡ item_text path rest
  unfolding path_json text escape_json escape_byte
  path_json-text path rest = simp append_assoc
