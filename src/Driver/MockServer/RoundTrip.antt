-- ===== src/Driver/MockServer/RoundTrip.antt =====
-- buildQuery, handleQuery of the mock driver and processResponse, one behind the other.
use collector_service.Driver.MockServer.Record.{mock_record}
use collector_service.Program.Modes.{behind}
use collector_service.Command.Field.{behind_key, quoted_key}
use collector_service.StdString.{find, find_char, starts_with}
use collector_service.Prelude.Result.{ok}
use collector_service.Driver.MockServer.{handle_query, read_open, trim_spaces, extract_open_field}
use collector_service.Task.Response.{Stod, process_response}
use collector_service.Util.Json.{escape_byte, escape_json, comma_separated}
use collector_service.Driver.MockServer.Paths.{IsPrinted, IsPath}
use collector_service.Models.{DataPoint, Device, Double}
use collector_service.Command.Field.RoundTrip.{NoQuote, kept_byte}
use collector_service.Task.Query.{build_query, quoted_paths}
use collector_service.Driver.MockServer.ReadBack.{name_paths, process_response-named, shown_cid}
use collector_service.Driver.MockServer.Query.{
  NoBracket, NoBrackets, extract_query_paths-build_query, paths_read,
}
use collector_service.Prelude.{
  All, Bytes, List, [], append-nil, append_assoc, arith, false, is_empty, map, refl, sym, text, ℕ,
  ◌++◌, ◌∙◌, ◌∷◌, ◌≡◌, ◌≢◌,
}

read_open-escape_byte :
    (value : Bytes) (c : ℕ) (rest : Bytes)
    → read_open value false (escape_byte c ++ rest)
      ≡ read_open (value ++ kept_byte c ∷ []) false rest
unfolding read_open escape_byte kept_byte
read_open-escape_byte value c rest = ground arith

read_open-escape_json :
    (value v rest : Bytes)
    → read_open value false (escape_json v ++ (b'"' ∷ rest)) ≡ value ++ map kept_byte v
unfolding escape_json
read_open-escape_json value [] rest = unfold read_open in sym (append-nil value)
read_open-escape_json value (c ∷ v) rest =
    rw (append_assoc (escape_byte c) (escape_json v) (b'"' ∷ rest)) (
      read_open-escape_byte value c (escape_json v ++ (b'"' ∷ rest))
      ∙ read_open-escape_json (value ++ kept_byte c ∷ []) v rest
      ∙ append_assoc value (kept_byte c ∷ []) (map kept_byte v))

-- A text with no line feed, carriage return or tab.
abbrev pub IsPlain : Bytes → Type 0
IsPlain = All (λ c. (c ≢ b'\n') × (c ≢ b'\r') × (c ≢ b'\t'))

map-kept_byte : (v : Bytes) → IsPlain v → map kept_byte v ≡ v
unfolding kept_byte
map-kept_byte [] h = refl
map-kept_byte (c ∷ v) h = ground (arith, map-kept_byte v h.1)

extract_open_field-cid :
    (cid behind : Bytes)
    → extract_open_field (text "{\"cid\":\"" ++ (escape_json cid ++ (b'"' ∷ behind))) (text "cid")
      ≡ map kept_byte cid
unfolding extract_open_field behind_key quoted_key find starts_with find_char text
extract_open_field-cid cid behind = read_open-escape_json [] cid behind

-- The answer names the cid of the query.
shown_cid-build_query :
    (cid query : Bytes) (ps : List DataPoint)
    → is_empty cid ≡ false
    → IsPlain cid
    → build_query cid ps ≡ ok query
    → shown_cid query ≡ cid
unfolding build_query shown_cid
shown_cid-build_query cid query [] given plain e = cc e
shown_cid-build_query cid query (p ∷ ps) given plain e =
    let paths = comma_separated (quoted_paths (p ∷ ps)) in
    let read =
      extract_open_field-cid cid (text ",\"query\":[" ++ (paths ++ text "]}"))
      ∙ map-kept_byte cid plain in
    let same : text "{\"cid\":\""
          ++ (escape_json cid ++ (text "\",\"query\":[" ++ (paths ++ text "]}")))
        ≡ query =
      cc e in
    rw (← same, read, given, shown_cid) refl

-- A point whose path the mock driver reads as it stands.
abbrev pub IsReadable : DataPoint → Type 0
IsReadable p = IsPath p.name_path × (trim_spaces p.name_path ≡ p.name_path) × NoBracket p.name_path

paths_read-name_paths : (ps : List DataPoint) → All IsReadable ps → paths_read ps ≡ name_paths ps
unfolding paths_read name_paths
paths_read-name_paths [] h = refl
paths_read-name_paths (p ∷ ps) h =
    rw (map-kept_byte p.name_path h.0.0.plain, h.0.1, paths_read-name_paths ps h.1) refl

readable-IsPath : (ps : List DataPoint) → All IsReadable ps → All IsPath (name_paths ps)
unfolding name_paths
readable-IsPath [] h = tt
readable-IsPath (p ∷ ps) h = (h.0.0, readable-IsPath ps h.1)

readable-NoBrackets : (ps : List DataPoint) → All IsReadable ps → NoBrackets ps
readable-NoBrackets [] h = tt
readable-NoBrackets (p ∷ ps) h = (h.0.2, readable-NoBrackets ps h.1)

-- A query that buildQuery made for points, answered by the mock driver, is read by processResponse
-- as one record for each point, in their order: its value is that of its path, its times are that
-- of the driver's clock, or the reader's where std::stod throws, and its path, name and
-- description are the driver's. The cid is neither empty nor "query" nor one of the paths, and has
-- no double quote, line feed, carriage return or tab; each path begins with a slash, has a name
-- other than "item_name" behind its last slash, no blanks around it, and no double quote,
-- backslash, colon, closing bracket, line feed, carriage return or tab; and the clock's time and
-- the three values of paths, 1.2, 2.0 and 0.0, are printed as texts that begin like a number and
-- have only the bytes of numbers.
pub process_response-handle_query :
    (fixed_text : Double → Bytes) (timestamp now : Double) (stod : Stod) (device : Device)
    (cid query : Bytes) (points : List DataPoint)
    → IsPrinted fixed_text timestamp
    → is_empty cid ≡ false
    → NoQuote cid
    → IsPlain cid
    → cid ≢ text "query"
    → All (λ path. cid ≢ path) (name_paths points)
    → All IsReadable points
    → build_query cid points ≡ ok query
    → process_response stod now device points (handle_query fixed_text timestamp query)
      ≡ ok (map (mock_record fixed_text timestamp stod now device) points)
process_response-handle_query fixed_text timestamp now stod device cid query [] numeric given clean
      plain no_query other readable e =
    unfold build_query in cc e
process_response-handle_query fixed_text timestamp now stod device cid query (p ∷ ps) numeric given
      clean plain no_query other readable e =
    let shown = shown_cid-build_query cid query (p ∷ ps) given plain e in
    process_response-named fixed_text timestamp now stod device query p ps numeric (rw shown clean)
      (rw shown other) (readable-IsPath (p ∷ ps) readable)
      (extract_query_paths-build_query cid query (p ∷ ps) clean no_query
          (readable-NoBrackets (p ∷ ps) readable) e
        ∙ paths_read-name_paths (p ∷ ps) readable)
