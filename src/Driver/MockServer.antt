-- ===== src/Driver/MockServer.antt =====
-- src/driver/MockDriverServer.cpp: from the text of a query to that of its response.
pub mod Query
pub mod Session
pub mod Tokens
pub mod Object
pub mod Paths
pub mod Search
pub mod Fields
pub mod Record
pub mod Answer
pub mod ReadBack
pub mod RoundTrip
use collector_service.Models.{Double}
use collector_service.StdString.Number.{is_space}
use collector_service.Command.Field.{behind_key}
use collector_service.StdString.{before_char, find, find_char, is_found, split_last}
use collector_service.Util.Json.{comma_separated, escape_json}
use collector_service.Prelude.{
  Bool, Bytes, List, [], drop, false, if◌then◌else◌, is_empty, none, some, text, true, ◌&&◌, ◌++◌,
  ◌==◌, ◌∷◌,
}
use collector_service.Prelude.Maybe.{◌>>=◌, or_else}

-- std::isspace on the bytes in front.
unfoldable pub trim_front : Bytes → Bytes
unfolding is_space
trim_front [] = []
trim_front (c ∷ cs) = let rest = trim_front cs in if is_space c then rest else c ∷ cs

unfoldable pub trim_back : Bytes → Bytes
unfolding is_space is_empty
trim_back [] = []
trim_back (c ∷ cs) = let rest = trim_back cs in if is_empty rest && is_space c then [] else c ∷ rest

unfoldable pub trim_spaces : Bytes → Bytes
unfolding trim_front trim_back
trim_spaces value = trim_back (trim_front value)

-- The loop of extractStringField, which here takes what it has where the text ends.
unfoldable pub read_open : Bytes → Bool → Bytes → Bytes
read_open value escaped [] = value
read_open value true (ch ∷ rest) = read_open (value ++ ch ∷ []) false rest
read_open value false (ch ∷ rest) = elim (ch == b'\\') [
  | true ↦ read_open value true rest
  | false ↦ elim (ch == b'"') [ true ↦ value | false ↦ read_open (value ++ ch ∷ []) false rest ]
]

unfoldable pub extract_open_field : Bytes → Bytes → Bytes
unfolding behind_key find_char read_open
extract_open_field json name =
    or_else
      (do
        rest ← behind_key json name
        at_colon ← find_char b':' rest
        at_quote ← find_char b'"' (drop 1 at_colon)
        some (read_open [] false (drop 1 at_quote)))
      []

-- The loop of extractQueryPaths, with `current` and the flags inString and escaped.
unfoldable pub scan_paths : Bool → Bool → Bytes → Bytes → List Bytes
unfolding trim_spaces
scan_paths in_string escaped current [] = []
scan_paths false escaped current (ch ∷ rest) = elim (ch == b'"') [
  | true ↦ scan_paths true escaped [] rest
  | false ↦ scan_paths false escaped current rest
]
scan_paths true true current (ch ∷ rest) = scan_paths true false (current ++ ch ∷ []) rest
scan_paths true false current (ch ∷ rest) = elim (ch == b'\\') [
  | true ↦ scan_paths true true current rest
  | false ↦ elim (ch == b'"') [
    | true ↦ trim_spaces current ∷ scan_paths false false current rest
    | false ↦ scan_paths true false (current ++ ch ∷ []) rest
  ]
]

unfoldable pub extract_query_paths : Bytes → List Bytes
unfolding behind_key find_char before_char scan_paths text
extract_query_paths json =
    or_else
      (do
        rest ← behind_key json (text "query")
        array_start ← find_char b'[' rest
        _ ← find_char b']' array_start
        some (scan_paths false false [] (before_char b']' (drop 1 array_start))))
      []

unfoldable pub item_name_from_path : Bytes → Bytes
unfolding split_last
item_name_from_path path = elim (split_last b'/' path) [
  | none ↦ path
  | some (front, []) ↦ path
  | some (front, c ∷ cs) ↦ c ∷ cs
]

unfoldable pub mentions : Bytes → Bytes → Bool
unfolding find
mentions word path = is_found (find word path)

-- 1.2, 2.0 and 0.0
unfoldable pub value_for_path : Bytes → Double
unfolding mentions text
value_for_path path =
    if mentions (text "pressure") path
    then 4608083138725491507
    else if mentions (text "temperature") path
    then 4611686018427387904
    else 0

-- The two words for pressure and temperature, in UTF-8.
abbrev pub pressure_word : Bytes
pressure_word = 229 ∷ 142 ∷ 139 ∷ 229 ∷ 138 ∷ 155 ∷ []

abbrev pub temperature_word : Bytes
temperature_word = 230 ∷ 184 ∷ 169 ∷ 229 ∷ 186 ∷ 166 ∷ []

unfoldable pub description_for_path : Bytes → Bytes
unfolding mentions item_name_from_path text
description_for_path path =
    if mentions (text "pressure") path
    then pressure_word
    else if mentions (text "temperature") path
    then temperature_word
    else item_name_from_path path

-- std::to_string of a double, whose bits are the argument; the clock's value is `timestamp`.
module _ (fixed_text : Double → Bytes) (timestamp : Double) where
  unfoldable pub path_json : Bytes → Bytes
  unfolding text escape_json item_name_from_path value_for_path description_for_path
  path_json path =
      let name = item_name_from_path path in
      b'"'
      ∷ (escape_json path
          ++ (text "\":{\"value\":["
              ++ (fixed_text (value_for_path path)
                  ++ (text "],\"dev_time\":"
                      ++ (fixed_text timestamp
                          ++ (text ",\"svr_time\":"
                              ++ (fixed_text timestamp
                                  ++ (text ",\"item_path\":\"/DV:mock/CP:mock/DT:"
                                      ++ (escape_json name
                                          ++ (text "\",\"item_description\":\""
                                              ++ (escape_json (description_for_path path)
                                                  ++ (text "\",\"item_name\":\""
                                                      ++ (escape_json name
                                                          ++ text "\"}")))))))))))))

  unfoldable pub path_items : List Bytes → List Bytes
  unfolding path_json
  path_items [] = []
  path_items (path ∷ paths) = path_json path ∷ path_items paths

  unfoldable pub handle_query : Bytes → Bytes
  unfolding text escape_json comma_separated path_items extract_open_field extract_query_paths
      is_empty
  handle_query message =
      let given = extract_open_field message (text "cid") in
      let cid = if is_empty given then text "mock-cid" else given in
      text "{\"cid\":\""
      ++ (escape_json cid
          ++ (text "\",\"machineConnected\":true,\"data\":{"
              ++ (comma_separated (path_items (extract_query_paths message)) ++ text "}}")))
