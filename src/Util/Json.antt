-- ===== src/Util/Json.antt =====
-- src/util/JsonUtil.cpp.
use collector_service.Prelude.{
  ℕ, Bytes, Bool, true, false, List, [], ◌∷◌, ◌++◌, ◌==◌, if◌then◌else◌, text,
}

-- The `switch` of escapeJson, for one byte.
unfoldable pub escape_byte : ℕ → Bytes
escape_byte ch =
    if ch == b'\\'
    then b'\\' ∷ b'\\' ∷ []
    else if ch == b'"'
    then b'\\' ∷ b'"' ∷ []
    else if ch == b'\n'
    then b'\\' ∷ b'n' ∷ []
    else if ch == b'\r'
    then b'\\' ∷ b'r' ∷ []
    else if ch == b'\t'
    then b'\\' ∷ b't' ∷ []
    else ch ∷ []

unfoldable pub escape_json : Bytes → Bytes
unfolding escape_byte
escape_json [] = []
escape_json (ch ∷ value) = escape_byte ch ++ escape_json value

unfoldable pub quote_json : Bytes → Bytes
unfolding escape_json
quote_json value = b'"' ∷ (escape_json value ++ b'"' ∷ [])

unfoldable pub bool_text : Bool → Bytes
bool_text true = text "true"
bool_text false = text "false"

-- The items with a comma between each two: the loop that arrayOf shares with the serializers.
unfoldable pub comma_separated : List Bytes → Bytes
comma_separated [] = []
comma_separated (item ∷ []) = item
comma_separated (item ∷ next ∷ items) = item ++ (b',' ∷ comma_separated (next ∷ items))

unfoldable pub array_of : List Bytes → Bytes
unfolding comma_separated
array_of items = b'[' ∷ (comma_separated items ++ b']' ∷ [])
