-- ===== src/Driver/MockServer/ReadBack.antt =====
-- A query of a worker, answered by the mock driver and taken apart by processResponse.
use collector_service.Driver.MockServer.Fields.{behind_key-found}
use collector_service.Driver.MockServer.Record.{mock_record, record_of-object}
use collector_service.Prelude.{equal_refl, Bool, equal, ◌||◌}
use collector_service.Prelude.Result.{ok}
use mathlib.Core.Path.{subst}
use collector_service.Util.Json.{comma_separated}
use collector_service.Driver.MockServer.Search.{tokens-IsToken}
use collector_service.Task.Response.{
  extract_object_for_path, Stod, point_record, scan_object, collect_records, process_response,
  record_of,
}
use collector_service.Models.{DataPoint, Double, Device, ResourceRecord}
use collector_service.Command.Field.{quoted_key}
use collector_service.StdString.{find, find_char, starts_with}
use collector_service.Prelude.{
  Bytes, List, [], if◌then◌else◌, is_empty, some, text, ◌++◌, ◌∷◌, ◌≡◌, ◌≢◌, All, ap, arith, false,
  refl, true, ◌∙◌, sym, map,
}
use collector_service.Driver.MockServer.{
  extract_open_field, extract_query_paths, handle_query, path_items, item_name_from_path,
}
use collector_service.Driver.MockServer.Tokens.{scan_tokens, skip_quoted}
use collector_service.Driver.MockServer.Object.{item_tokens, object_text}
use collector_service.Driver.MockServer.Paths.{IsPath, IsPrinted}
use collector_service.Driver.MockServer.Answer.{
  IsFoundIn, contains, items-found, items_text, items-text,
}
use collector_service.Command.Field.RoundTrip.{NoQuote}

-- The cid that an answer names.
unfoldable pub shown_cid : Bytes → Bytes
unfolding extract_open_field is_empty text
shown_cid message =
    let given = extract_open_field message (text "cid") in
    if is_empty given then text "mock-cid" else given

unfoldable pub name_paths : List DataPoint → List Bytes
name_paths [] = []
name_paths (p ∷ ps) = p.name_path ∷ name_paths ps

scan_open :
    (t : Bytes) → scan_object [] 0 false false (b'{' ∷ t) ≡ scan_object (b'{' ∷ []) 1 false false t
unfolding scan_object
scan_open t = refl

object-given :
    (fixed_text : Double → Bytes) (timestamp : Double) (path : Bytes)
    → is_empty (object_text fixed_text timestamp path []) ≡ false
unfolding is_empty
object-given fixed_text timestamp path = refl

mock_record-given :
    (fixed_text : Double → Bytes) (timestamp : Double) (stod : Stod) (now : Double)
    (device : Device) (point : DataPoint)
    → is_empty (mock_record fixed_text timestamp stod now device point).content ≡ false
unfolding is_empty mock_record
mock_record-given fixed_text timestamp stod now device point = refl

keep_record :
    (stod : Stod) (now : Double) (device : Device) (response : Bytes) (point : DataPoint)
    (object : Bytes) (r : ResourceRecord)
    → extract_object_for_path response point.name_path ≡ object
    → record_of stod now device point object ≡ r
    → is_empty object ≡ false
    → is_empty r.content ≡ false
    → point_record stod now device response point ≡ some r
unfolding point_record
keep_record stod now device response point object r read same given full =
    let full' = rw (← same) at full in rw (read, given, full', point_record) (ap some same)

module _ (fixed_text : Double → Bytes) (timestamp : Double)
    (numeric : IsPrinted fixed_text timestamp) (message : Bytes)
    (clean : NoQuote (shown_cid message)) where
  abbrev pub response : Bytes
  response = handle_query fixed_text timestamp message

  response-items :
      (inner : Bytes)
      → IsPath (b'/' ∷ inner)
      → shown_cid message ≢ b'/' ∷ inner
      → find (quoted_key (b'/' ∷ inner)) response
        ≡ find
            (quoted_key (b'/' ∷ inner))
            (items_text fixed_text timestamp numeric (extract_query_paths message) (text "}}"))
  unfolding handle_query shown_cid find starts_with quoted_key text
  response-items inner p other =
      let items = comma_separated (path_items fixed_text timestamp (extract_query_paths message)) in
      skip_quoted b'/' inner (shown_cid message) b','
        (text "\"machineConnected\":true,\"data\":{" ++ (items ++ text "}}")) p.key clean other
        (omega arith)
      ∙ ap (find (quoted_key (b'/' ∷ inner)))
          (items-text fixed_text timestamp numeric (extract_query_paths message) (text "}}"))

  -- The scan of an object of the answer ends where the object does.
  scan_whole :
      (path rest : Bytes)
      → IsPath path
      → scan_object [] 0 false false (object_text fixed_text timestamp path rest)
        ≡ object_text fixed_text timestamp path []
  scan_whole path rest p =
      scan_open _
      ∙ scan_tokens (b'{' ∷ []) (item_tokens fixed_text timestamp path) (item_name_from_path path)
          rest (tokens-IsToken fixed_text timestamp numeric path p)

  -- The object behind the key of a path.
  object-read :
      (path rest : Bytes)
      → IsPath path
      → find (quoted_key path) response
        ≡ some (quoted_key path ++ (b':' ∷ object_text fixed_text timestamp path rest))
      → extract_object_for_path response path ≡ object_text fixed_text timestamp path []
  unfolding extract_object_for_path find_char
  object-read path rest p e =
      rw
        (
          behind_key-found response path (b':' ∷ object_text fixed_text timestamp path rest) e,
          extract_object_for_path,
        )
        (scan_whole path rest p)

  response-found :
      (inner : Bytes)
      → IsPath (b'/' ∷ inner)
      → shown_cid message ≢ b'/' ∷ inner
      → All IsPath (extract_query_paths message)
      → contains (b'/' ∷ inner) (extract_query_paths message) ≡ true
      → IsFoundIn fixed_text timestamp numeric (b'/' ∷ inner) response
  response-found inner p other all there =
      let (rest, f) =
        items-found fixed_text timestamp numeric inner (extract_query_paths message) (text "}}") p
          all there in
      (rest, response-items inner p other ∙ f)

  -- The object of a path that the query names.
  object-of_path :
      (path : Bytes)
      → IsPath path
      → shown_cid message ≢ path
      → All IsPath (extract_query_paths message)
      → contains path (extract_query_paths message) ≡ true
      → extract_object_for_path response path ≡ object_text fixed_text timestamp path []
  object-of_path path p other all there =
      let found =
        subst
          (λ x.
            IsPath x
            → shown_cid message ≢ x
            → All IsPath (extract_query_paths message)
            → contains x (extract_query_paths message) ≡ true
            → IsFoundIn fixed_text timestamp numeric x response)
          (sym p.slash) (response-found p.inner) p other all there in
      object-read path found.0 p found.1

  point_record-mock :
      (stod : Stod) (now : Double) (device : Device) (point : DataPoint)
      → IsPath point.name_path
      → shown_cid message ≢ point.name_path
      → All IsPath (extract_query_paths message)
      → contains point.name_path (extract_query_paths message) ≡ true
      → point_record stod now device response point
        ≡ some (mock_record fixed_text timestamp stod now device point)
  point_record-mock stod now device point p other all there =
      keep_record stod now device response point _ _
        (object-of_path point.name_path p other all there)
        (record_of-object fixed_text timestamp numeric stod now device point p)
        (object-given fixed_text timestamp point.name_path)
        (mock_record-given fixed_text timestamp stod now device point)

  -- One record for each of the points whose path the query names, in their order.
  collect_records-mock :
      (stod : Stod) (now : Double) (device : Device) (ps : List DataPoint)
      → All IsPath (name_paths ps)
      → All (λ path. shown_cid message ≢ path) (name_paths ps)
      → All IsPath (extract_query_paths message)
      → All (λ path. contains path (extract_query_paths message) ≡ true) (name_paths ps)
      → collect_records stod now device response ps
        ≡ map (mock_record fixed_text timestamp stod now device) ps
  unfolding collect_records name_paths
  collect_records-mock stod now device [] h other all there = refl
  collect_records-mock stod now device (p ∷ ps) h other all there =
      rw
        (
          point_record-mock stod now device p h.0 other.0 all there.0,
          collect_records-mock stod now device ps h.1 other.1 all there.1,
          collect_records,
        )
        refl

any_or_true : (b : Bool) → (b || true) ≡ true
any_or_true b = ground arith

still_in :
    (y : Bytes) (xs ys : List Bytes)
    → All (λ x. contains x ys ≡ true) xs
    → All (λ x. contains x (y ∷ ys) ≡ true) xs
unfolding contains
still_in y [] ys h = tt
still_in y (x ∷ xs) ys h = (rw (h.0, ◌||◌) (any_or_true (equal y x)), still_in y xs ys h.1)

in_itself : (xs : List Bytes) → All (λ x. contains x xs ≡ true) xs
unfolding contains
in_itself [] = tt
in_itself (x ∷ xs) = (rw (equal_refl x) refl, still_in x xs xs (in_itself xs))

pub process_response-named :
    (fixed_text : Double → Bytes) (timestamp now : Double) (stod : Stod) (device : Device)
    (query : Bytes) (point : DataPoint) (points : List DataPoint)
    → IsPrinted fixed_text timestamp
    → NoQuote (shown_cid query)
    → All (λ path. shown_cid query ≢ path) (name_paths (point ∷ points))
    → All IsPath (name_paths (point ∷ points))
    → extract_query_paths query ≡ name_paths (point ∷ points)
    → process_response stod now device (point ∷ points) (handle_query fixed_text timestamp query)
      ≡ ok (map (mock_record fixed_text timestamp stod now device) (point ∷ points))
unfolding process_response is_empty
process_response-named fixed_text timestamp now stod device query point points numeric clean other
      paths same =
    rw
      (collect_records-mock fixed_text timestamp numeric query clean stod now device
        (point ∷ points) paths other (rw same paths)
        (rw same (in_itself (name_paths (point ∷ points)))))
      refl
