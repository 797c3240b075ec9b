-- ===== src/Command/Field/RoundTrip.antt =====
-- What the field extraction reads of a text that escapeJson wrote.
use collector_service.Prelude.{
  ℕ, Bytes, false, [], ◌∷◌, ◌++◌, ◌≡◌, ◌≢◌, refl, sym, ◌∙◌, ◌==◌, if◌then◌else◌, arith, map, All,
  append-nil, append_assoc, some, drop-append,
}
use collector_service.StdString.{find, starts_with, find_char}
use collector_service.Util.Json.{escape_byte, escape_json}
use collector_service.Command.Field.{
  read_string, extract_string_field, quoted_key, behind_key, behind_quote,
}

-- The reader drops a backslash and keeps the byte behind it, so of the escapes for a line feed, a
-- carriage return and a tab it keeps the letter.
unfoldable pub kept_byte : ℕ → ℕ
kept_byte c =
    if c == b'\n' then b'n' else if c == b'\r' then b'r' else if c == b'\t' then b't' else c

pub read_string-escape_byte :
    (value : Bytes) (c : ℕ) (rest : Bytes)
    → read_string value false (escape_byte c ++ rest)
      ≡ read_string (value ++ kept_byte c ∷ []) false rest
unfolding read_string escape_byte kept_byte
read_string-escape_byte value c rest = ground arith

-- Reading an escaped text up to its closing quote gives the text back, but for those bytes.
pub read_string-escape_json :
    (value v rest : Bytes)
    → read_string value false (escape_json v ++ (b'"' ∷ rest)) ≡ value ++ map kept_byte v
unfolding escape_json
read_string-escape_json value [] rest = unfold read_string in sym (append-nil value)
read_string-escape_json value (c ∷ v) rest =
    rw (append_assoc (escape_byte c) (escape_json v) (b'"' ∷ rest)) (
      read_string-escape_byte value c (escape_json v ++ (b'"' ∷ rest))
      ∙ read_string-escape_json (value ++ kept_byte c ∷ []) v rest
      ∙ append_assoc value (kept_byte c ∷ []) (map kept_byte v))

-- A text with no double quote.
abbrev pub NoQuote : Bytes → Type 0
NoQuote = All (λ c. c ≢ b'"')

find_past_byte :
    (k : Bytes) (c : ℕ) (t : Bytes)
    → c ≢ b'"'
    → find (b'"' ∷ k) (escape_byte c ++ t) ≡ find (b'"' ∷ k) t
unfolding find starts_with escape_byte
find_past_byte k c t h = ground arith

pub find-escape_json :
    (k v t : Bytes) → NoQuote v → find (b'"' ∷ k) (escape_json v ++ t) ≡ find (b'"' ∷ k) t
unfolding escape_json
find-escape_json k [] t h = refl
find-escape_json k (c ∷ v) t h =
    rw (append_assoc (escape_byte c) (escape_json v) t)
      (find_past_byte k c (escape_json v ++ t) h.0 ∙ find-escape_json k v t h.1)

-- A field name: no double quote and no backslash.
abbrev pub IsKey : Bytes → Type 0
IsKey = All (λ c. (c ≢ b'"') × (c ≢ b'\\'))

starts_with-quoted :
    (k v t : Bytes)
    → IsKey k
    → NoQuote v
    → v ≢ k
    → starts_with (k ++ b'"' ∷ []) (escape_json v ++ (b'"' ∷ t)) ≡ false
unfolding starts_with escape_json escape_byte
starts_with-quoted [] [] t p n ne = absurd (ne refl)
starts_with-quoted [] (c ∷ v) t p n ne = ground arith
starts_with-quoted (x ∷ k) [] t p n ne = ground arith
starts_with-quoted (x ∷ k) (c ∷ v) t p n ne = ground (arith, starts_with-quoted k v t p.1 n.1)

-- A key is not found in a quoted, escaped text that has no quote and is not the key.
pub find_past_quoted :
    (k v t : Bytes)
    → IsKey k
    → NoQuote v
    → v ≢ k
    → find (quoted_key k) (b'"' ∷ (escape_json v ++ (b'"' ∷ t))) ≡ find (quoted_key k) (b'"' ∷ t)
unfolding find quoted_key starts_with
find_past_quoted k v t p n ne =
    rw (starts_with-quoted k v t p n ne) (find-escape_json (k ++ b'"' ∷ []) v (b'"' ∷ t) n)

-- The value of a field whose key is found in front of a colon and a quoted, escaped text.
pub extract-of_find :
    (content name v rest : Bytes)
    → find (quoted_key name) content
      ≡ some (quoted_key name ++ (b':' ∷ b'"' ∷ (escape_json v ++ (b'"' ∷ rest))))
    → extract_string_field content name ≡ map kept_byte v
unfolding extract_string_field behind_quote behind_key
extract-of_find content name v rest e =
    rw (e, extract_string_field, behind_quote, behind_key)
      (rw (drop-append (quoted_key name)) (unfold find_char in read_string-escape_json [] v rest))
