-- ===== src/Command/Field.antt =====
-- The field extraction of src/command/CommandParser.cpp.
pub mod RoundTrip
use collector_service.Prelude.{
  Bytes, Bool, true, false, Option, none, some, [], ◌∷◌, ◌++◌, ◌==◌, drop, length, ℤ,
}
use collector_service.Prelude.Maybe.{◌>>=◌}
use collector_service.Prelude.Result.{Result, ok}
use collector_service.StdString.{find, find_char, is_found, find_first_of, run_of}
use collector_service.StdString.Number.{stoi}

-- "\"" + fieldName + "\""
unfoldable pub quoted_key : Bytes → Bytes
quoted_key name = b'"' ∷ (name ++ b'"' ∷ [])

-- The text behind the first occurrence of the key.
unfoldable pub behind_key : Bytes → Bytes → Option Bytes
unfolding quoted_key find
behind_key content name = do
  at_key ← find (quoted_key name) content
  some (drop (length (quoted_key name)) at_key)

-- The loop of extractStringField, on the text behind the opening quote; the flag is `escaped`.
-- A text that ends inside the string gives the empty value.
unfoldable pub read_string : Bytes → Bool → Bytes → Bytes
read_string value escaped [] = []
read_string value true (ch ∷ rest) = read_string (value ++ ch ∷ []) false rest
read_string value false (ch ∷ rest) = elim (ch == b'\\') [
  | true ↦ read_string value true rest
  | false ↦ elim (ch == b'"') [ true ↦ value | false ↦ read_string (value ++ ch ∷ []) false rest ]
]

-- The text behind the opening quote of a field's value.
unfoldable pub behind_quote : Bytes → Bytes → Option Bytes
unfolding behind_key find_char
behind_quote content name = do
  rest ← behind_key content name
  at_colon ← find_char b':' rest
  at_quote ← find_char b'"' at_colon
  some (drop 1 at_quote)

unfoldable pub extract_string_field : Bytes → Bytes → Bytes
unfolding behind_quote read_string
extract_string_field content name = elim (behind_quote content name) [
  | none ↦ []
  | some rest ↦ read_string [] false rest
]

unfoldable pub has_field : Bytes → Bytes → Bool
unfolding quoted_key find
has_field content name = is_found (find (quoted_key name) content)

-- "-0123456789"
abbrev pub int_chars : Bytes
int_chars = b'-' ∷ b'0' ∷ b'1' ∷ b'2' ∷ b'3' ∷ b'4' ∷ b'5' ∷ b'6' ∷ b'7' ∷ b'8' ∷ b'9' ∷ []

-- The text that extractIntField hands to std::stoi.
unfoldable pub int_text : Bytes → Bytes → Option Bytes
unfolding behind_key find_char find_first_of run_of
int_text content name = do
  rest ← behind_key content name
  at_colon ← find_char b':' rest
  at_value ← find_first_of int_chars (drop 1 at_colon)
  some (run_of int_chars at_value)

unfoldable pub extract_int_field : Bytes → Bytes → ℤ → Result ℤ
unfolding int_text stoi
extract_int_field content name fallback = elim (int_text content name) [
  | none ↦ ok fallback
  | some t ↦ stoi 10 t
]
