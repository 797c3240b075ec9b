-- ===== src/Task/Response.antt =====
-- src/task/CollectionResponseParser.cpp.
pub mod Records
use collector_service.StdString.{
  before_char, find_char, find_first_not_of, find_first_of, run_of, starts_with,
}
use collector_service.Prelude.Result.{Result, err, ok}
use collector_service.Models.{DataPoint, Device, Double, ResourceRecord}
use collector_service.Prelude.{
  Bool, Bytes, List, Option, [], drop, false, if◌then◌else◌, is_empty, none, not, some, text, true,
  ℕ, ◌&&◌, ◌++◌, ◌+◌, ◌-◌, ◌==◌, ◌∷◌,
}
use collector_service.Prelude.Maybe.{◌>>=◌, or_else}
use collector_service.Command.Field.{behind_key, behind_quote, read_string, int_chars}

-- The loop of extractObjectForPath from the opening brace on, with the text read so far, the depth,
-- and the flags inString and escaped.
unfoldable pub scan_object : Bytes → ℕ → Bool → Bool → Bytes → Bytes
scan_object seen depth in_string escaped [] = []
scan_object seen depth in_string true (ch ∷ rest) =
    scan_object (seen ++ ch ∷ []) depth in_string false rest
scan_object seen depth in_string false (ch ∷ rest) = elim (ch == b'\\') [
  | true ↦ scan_object (seen ++ ch ∷ []) depth in_string in_string rest
  | false ↦ elim (ch == b'"') [
    | true ↦ scan_object (seen ++ ch ∷ []) depth (not in_string) false rest
    | false ↦ elim (not in_string && ch == b'}' && depth == 1) [
      | true ↦ seen ++ ch ∷ []
      | false ↦
          scan_object (seen ++ ch ∷ [])
            (if not in_string && ch == b'{'
              then depth + 1
              else if not in_string && ch == b'}'
              then depth - 1
              else depth)
            in_string false rest
    ]
  ]
]

unfoldable pub extract_object_for_path : Bytes → Bytes → Bytes
unfolding behind_key find_char scan_object
extract_object_for_path response path =
    or_else
      (do
        rest ← behind_key response path
        object_start ← find_char b'{' rest
        some (scan_object [] 0 false false object_start))
      []

-- extractStringField, which this file has once more, word for word.
unfoldable pub extract_string_field : Bytes → Bytes → Bytes
unfolding behind_quote read_string
extract_string_field object name = elim (behind_quote object name) [
  | none ↦ []
  | some rest ↦ read_string [] false rest
]

unfoldable pub extract_array_field_text : Bytes → Bytes → Bytes
unfolding behind_key find_char before_char
extract_array_field_text object name =
    or_else
      (do
        rest ← behind_key object name
        array_start ← find_char b'[' rest
        _ ← find_char b']' array_start
        some (before_char b']' array_start ++ b']' ∷ []))
      []

-- "-0123456789.eE+"
abbrev pub number_chars : Bytes
number_chars = int_chars ++ (b'.' ∷ b'e' ∷ b'E' ∷ b'+' ∷ [])

-- std::stod on doubles that are bit patterns; `none` where it throws.
abbrev pub Stod : Type 0
Stod = Bytes → Option Double

unfoldable pub extract_number_field : Stod → Bytes → Bytes → Double → Double
unfolding behind_key find_char find_first_of run_of
extract_number_field stod object name fallback =
    or_else
      (do
        rest ← behind_key object name
        at_colon ← find_char b':' rest
        at_value ← find_first_of int_chars (drop 1 at_colon)
        stod (run_of number_chars at_value))
      fallback

-- " \t\r\n"
abbrev pub blanks : Bytes
blanks = b' ' ∷ b'\t' ∷ b'\r' ∷ b'\n' ∷ []

unfoldable pub extract_bool_field : Bytes → Bytes → Bool
unfolding behind_key find_char find_first_not_of starts_with text
extract_bool_field response name =
    or_else
      (do
        rest ← behind_key response name
        at_colon ← find_char b':' rest
        at_value ← find_first_not_of blanks (drop 1 at_colon)
        some (starts_with (text "true") at_value))
      false

-- field, or the point's own where it is empty
unfoldable pub or_own : Bytes → Bytes → Bytes
unfolding is_empty
or_own value own = if is_empty value then own else value

unfoldable pub record_of : Stod → Double → Device → DataPoint → Bytes → ResourceRecord
unfolding extract_string_field extract_array_field_text extract_number_field or_own
record_of stod now device point object = record {
  device_name = device.name;
  data_item_name_path = point.name_path;
  content = extract_array_field_text object (text "value");
  dev_time = extract_number_field stod object (text "dev_time") now;
  svr_time = extract_number_field stod object (text "svr_time") now;
  data_item_path = or_own (extract_string_field object (text "item_path")) point.item_path;
  data_item_name = or_own (extract_string_field object (text "item_name")) point.item_name;
  data_item_description =
      or_own (extract_string_field object (text "item_description")) point.item_description;
}

-- The record that one round of the loop adds, if it adds one.
unfoldable pub point_record : Stod → Double → Device → Bytes → DataPoint → Option ResourceRecord
unfolding extract_object_for_path record_of is_empty
point_record stod now device response point =
    let object = extract_object_for_path response point.name_path in
    let r = record_of stod now device point object in
    if is_empty object then none else if is_empty r.content then none else some r

unfoldable pub collect_records :
    Stod → Double → Device → Bytes → List DataPoint → List ResourceRecord
unfolding point_record
collect_records stod now device response [] = []
collect_records stod now device response (p ∷ ps) =
    let rest = collect_records stod now device response ps in
    elim (point_record stod now device response p) [ none ↦ rest | some r ↦ r ∷ rest ]

abbrev pub no_records : Bytes
no_records = text "response did not contain resource records"

unfoldable pub process_response :
    Stod → Double → Device → List DataPoint → Bytes → Result (List ResourceRecord)
unfolding collect_records is_empty
process_response stod now device points response =
    let records = collect_records stod now device response points in
    if is_empty records then err no_records else ok records
