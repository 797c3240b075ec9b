-- ===== src/Driver/MockServer/Fields.antt =====
-- What processResponse reads of the object that the mock driver answers with for a path.
use collector_service.Command.Field
use collector_service.Task.Response
use collector_service.Command.Field.RoundTrip.{extract-of_find, find-escape_json, kept_byte}
use collector_service.Prelude.Maybe.{or_else}
use collector_service.Driver.MockServer.Query.{NoBracket, before_char-bracket, find_char-bracket}
use collector_service.Util.Json.{escape_byte, escape_json}
use collector_service.Prelude.{
  All, Bytes, [], ap, refl, text, true, ◌++◌, ◌∷◌, ◌≡◌, arith, drop-append, some, ◌∙◌, map,
}
use collector_service.StdString.{
  before_char, find, find_char, is_member, run_of, starts_with, find_first_of,
}
use collector_service.Command.Field.{behind_key, quoted_key, int_chars}
use collector_service.Models.{Double}
use collector_service.Driver.MockServer.{description_for_path, item_name_from_path, value_for_path}
use collector_service.Driver.MockServer.Tokens.{tokens_text, skip_quiet, skip_quoted}
use collector_service.Driver.MockServer.Object.{
  mock_path, object_text, timed, value_before_comma, word,
}
use collector_service.Driver.MockServer.Paths.{
  IsPath, IsNumeric, numerics-IsQuiet, description-IsLabel, IsPrinted, printed_value,
}
use collector_service.Task.Response.{
  Stod, extract_array_field_text, extract_number_field, number_chars, or_own, record_of,
}

numeric-NoBracket : (t : Bytes) → All (λ c. is_member number_chars c ≡ true) t → NoBracket t
unfolding is_member
numeric-NoBracket [] h = tt
numeric-NoBracket (c ∷ t) h = ((λ e. let bad = rw e at h.0 in cc bad), numeric-NoBracket t h.1)

-- A number ends at a comma.
run_of-numeric :
    (t rest : Bytes)
    → All (λ c. is_member number_chars c ≡ true) t
    → run_of number_chars (t ++ (b',' ∷ rest)) ≡ t
unfolding run_of is_member
run_of-numeric [] rest h = refl
run_of-numeric (c ∷ t) rest h = rw (h.0) (ap (◌∷◌ c) (run_of-numeric t rest h.1))

open_brace : (k t : Bytes) → find (b'"' ∷ k) (b'{' ∷ t) ≡ find (b'"' ∷ k) t
unfolding find starts_with
open_brace k t = ground arith

pub behind_key-found :
    (content key rest : Bytes)
    → find (quoted_key key) content ≡ some (quoted_key key ++ rest)
    → behind_key content key ≡ some rest
unfolding behind_key
behind_key-found content key rest e = rw (e, behind_key) (rw (drop-append (quoted_key key)) refl)

find_first_of-numeric :
    (t rest : Bytes) → IsNumeric t → find_first_of int_chars (t ++ rest) ≡ some (t ++ rest)
unfolding find_first_of
find_first_of-numeric t rest n = rw (n.parts) (rw (n.begins) refl)

module _ (fixed_text : Double → Bytes) (timestamp : Double)
    (numeric : IsPrinted fixed_text timestamp) (path : Bytes) (p : IsPath path) where
  abbrev object : Bytes
  object = object_text fixed_text timestamp path []

  abbrev time_text : Bytes
  time_text = fixed_text timestamp

  -- The last string of the object, and its brace.
  abbrev ending : Bytes
  ending = b'"' ∷ (escape_json (item_name_from_path path) ++ (b'"' ∷ b'}' ∷ []))

  abbrev from_path : Bytes
  from_path =
      tokens_text
        (word (text "item_path")
          ∷ value_before_comma (mock_path path)
          ∷ word (text "item_description")
          ∷ value_before_comma (description_for_path path)
          ∷ word (text "item_name")
          ∷ [])
        ending

  abbrev from_dev_time : Bytes
  from_dev_time =
      tokens_text
        (timed fixed_text timestamp (text "dev_time")
          ∷ timed fixed_text timestamp (text "svr_time")
          ∷ [])
        from_path

  value-found :
      find (quoted_key (text "value")) object
      ≡ some (
          quoted_key (text "value")
          ++ (b':' ∷ b'[' ∷ (fixed_text (value_for_path path) ++ (b']' ∷ b',' ∷ from_dev_time))))
  unfolding find starts_with quoted_key text escape_json escape_byte
  value-found = refl

  pub object-value :
      extract_array_field_text object (text "value")
      ≡ b'[' ∷ (fixed_text (value_for_path path) ++ b']' ∷ [])
  unfolding extract_array_field_text find_char before_char
  object-value =
      let v = fixed_text (value_for_path path) in
      let clean = numeric-NoBracket v (printed_value fixed_text timestamp numeric path).all_fine in
      rw (behind_key-found object (text "value") _ value-found, extract_array_field_text)
        (rw
          (
            find_char-bracket v (b',' ∷ from_dev_time) clean,
            before_char-bracket v (b',' ∷ from_dev_time) clean,
          )
          refl)

  skip_value :
      (k rest : Bytes)
      → find (b'"' ∷ k) (fixed_text (value_for_path path) ++ rest) ≡ find (b'"' ∷ k) rest
  skip_value k rest =
      skip_quiet k _ rest
        (numerics-IsQuiet _ (printed_value fixed_text timestamp numeric path).all_fine)

  skip_time : (k rest : Bytes) → find (b'"' ∷ k) (time_text ++ rest) ≡ find (b'"' ∷ k) rest
  skip_time k rest = skip_quiet k _ rest (numerics-IsQuiet _ numeric.time.all_fine)

  pub dev_time-found :
      find (quoted_key (text "dev_time")) object
      ≡ some (
          quoted_key (text "dev_time")
          ++ (b':'
              ∷ (time_text
                  ++ (b','
                      ∷ tokens_text
                          (timed fixed_text timestamp (text "svr_time") ∷ [])
                          from_path))))
  unfolding find starts_with quoted_key text escape_json escape_byte
  dev_time-found = skip_value (text "dev_time\"") (b']' ∷ b',' ∷ from_dev_time)

  pub svr_time-found :
      find (quoted_key (text "svr_time")) object
      ≡ some (quoted_key (text "svr_time") ++ (b':' ∷ (time_text ++ (b',' ∷ from_path))))
  unfolding find starts_with quoted_key text escape_json escape_byte
  svr_time-found =
      skip_value (text "svr_time\"") (b']' ∷ b',' ∷ from_dev_time)
      ∙ skip_time (text "svr_time\"")
          (b',' ∷ tokens_text (timed fixed_text timestamp (text "svr_time") ∷ []) from_path)

  pub number_field :
      (stod : Stod) (key rest : Bytes) (now : Double)
      → find (quoted_key key) object
        ≡ some (quoted_key key ++ (b':' ∷ (time_text ++ (b',' ∷ rest))))
      → extract_number_field stod object key now ≡ or_else (stod time_text) now
  unfolding extract_number_field find_char
  number_field stod key rest now e =
      rw (behind_key-found object key _ e, extract_number_field)
        (rw
          (
            find_first_of-numeric time_text (b',' ∷ rest) numeric.time,
            run_of-numeric time_text rest numeric.time.all_fine,
          )
          refl)

  pub item_path-found :
      find (quoted_key (text "item_path")) object
      ≡ some (
          quoted_key (text "item_path")
          ++ (b':'
              ∷ tokens_text
                  (value_before_comma (mock_path path)
                    ∷ word (text "item_description")
                    ∷ value_before_comma (description_for_path path)
                    ∷ word (text "item_name")
                    ∷ [])
                  ending))
  unfolding find starts_with quoted_key text escape_json escape_byte
  item_path-found =
      skip_value (text "item_path\"") (b']' ∷ b',' ∷ from_dev_time)
      ∙ skip_time (text "item_path\"")
          (b',' ∷ tokens_text (timed fixed_text timestamp (text "svr_time") ∷ []) from_path)
      ∙ skip_time (text "item_path\"") (b',' ∷ from_path)

  pub item_description-found :
      find (quoted_key (text "item_description")) object
      ≡ some (
          quoted_key (text "item_description")
          ++ (b':'
              ∷ tokens_text
                  (value_before_comma (description_for_path path) ∷ word (text "item_name") ∷ [])
                  ending))
  unfolding find starts_with quoted_key text escape_json escape_byte
  item_description-found =
      let k = text "item_description\"" in
      skip_value k (b']' ∷ b',' ∷ from_dev_time)
      ∙ skip_time k
          (b',' ∷ tokens_text (timed fixed_text timestamp (text "svr_time") ∷ []) from_path)
      ∙ skip_time k (b',' ∷ from_path)
      ∙ find-escape_json k (item_name_from_path path)
          (b'"'
            ∷ b','
            ∷ tokens_text
                (word (text "item_description")
                  ∷ value_before_comma (description_for_path path)
                  ∷ word (text "item_name")
                  ∷ [])
                ending)
          p.name_clean

  pub item_name-found :
      find (quoted_key (text "item_name")) object
      ≡ some (quoted_key (text "item_name") ++ (b':' ∷ ending))
  unfolding find starts_with quoted_key text escape_json escape_byte
  item_name-found =
      let k = text "item_name\"" in
      let label = description-IsLabel path p in
      skip_value k (b']' ∷ b',' ∷ from_dev_time)
      ∙ skip_time k
          (b',' ∷ tokens_text (timed fixed_text timestamp (text "svr_time") ∷ []) from_path)
      ∙ skip_time k (b',' ∷ from_path)
      ∙ find-escape_json k (item_name_from_path path)
          (b'"'
            ∷ b','
            ∷ tokens_text
                (word (text "item_description")
                  ∷ value_before_comma (description_for_path path)
                  ∷ word (text "item_name")
                  ∷ [])
                ending)
          p.name_clean
      ∙ skip_quoted b'i' (text "tem_name") (description_for_path path) b','
          (tokens_text (word (text "item_name") ∷ []) ending) (omega arith) label.clean label.other
          (omega arith)

  pub string_field :
      (key v rest : Bytes)
      → find (quoted_key key) object
        ≡ some (quoted_key key ++ (b':' ∷ b'"' ∷ (escape_json v ++ (b'"' ∷ rest))))
      → Response.extract_string_field object key ≡ map kept_byte v
  unfolding Response.extract_string_field Field.extract_string_field
  string_field key v rest e = extract-of_find object key v rest e
