-- ===== src/Http/Target.antt =====
-- The reading of a request's target in src/http/HttpRouter.cpp.
pub mod Decode
use collector_service.StdString.Number.{stoi}
use collector_service.Prelude.Result.{err, ok}
use collector_service.StdString.{before_char, find_char, starts_with}
use collector_service.Prelude.{
  Bytes, List, [], drop, equal, false, if◌then◌else◌, length, ltb, negsuc, none, not, pos, some,
  take, true, ℕ, ℤ, ◌%◌, ◌++◌, ◌+◌, ◌-◌, ◌==◌, ◌||◌, ◌∷◌,
}
use collector_service.ModelFile.Parser.{add_front}

-- static_cast<char>(value)
unfoldable pub byte_of : ℤ → ℕ
byte_of (pos n) = n % 256
byte_of (negsuc n) = 255 - n % 256

-- A byte that stands for itself.
unfoldable pub plain_byte : ℕ → ℕ
plain_byte c = if c == b'+' then b' ' else c

unfoldable pub url_decode : Bytes → Bytes
unfolding byte_of plain_byte stoi
url_decode [] = []
url_decode (c ∷ []) = plain_byte c ∷ []
url_decode (c ∷ d ∷ []) = plain_byte c ∷ plain_byte d ∷ []
url_decode (c ∷ d ∷ e ∷ rest) = elim (c == b'%') [
  | false ↦ plain_byte c ∷ url_decode (d ∷ e ∷ rest)
  | true ↦ elim (stoi 16 (d ∷ e ∷ [])) [
    | ok value ↦ byte_of value ∷ url_decode rest
    | err what ↦ plain_byte c ∷ url_decode (d ∷ e ∷ rest)
  ]
]

unfoldable pub path_only : Bytes → Bytes
unfolding before_char
path_only target = before_char b'?' target

-- The parts between the ampersands, as the loop of queryParam takes them.
unfoldable pub parts_of : Bytes → List Bytes
parts_of [] = []
parts_of (c ∷ cs) = let rest = parts_of cs in if c == b'&' then [] ∷ rest else add_front c rest

unfoldable pub first_param : Bytes → List Bytes → Bytes
unfolding starts_with url_decode
first_param key [] = []
first_param key (part ∷ parts) =
    if starts_with key part then url_decode (drop (length key) part) else first_param key parts

unfoldable pub query_param : Bytes → Bytes → Bytes
unfolding find_char parts_of first_param
query_param target name = elim (find_char b'?' target) [
  | none ↦ []
  | some at_query ↦ first_param (name ++ b'=' ∷ []) (parts_of (drop 1 at_query))
]

unfoldable pub between_path : Bytes → Bytes → Bytes → Bytes
unfolding starts_with url_decode equal
between_path path prefix suffix =
    if not (starts_with prefix path) || ltb (length path) (length prefix + length suffix)
    then []
    else if not (equal (drop (length path - length suffix) path) suffix)
    then []
    else url_decode (take (length path - length prefix - length suffix) (drop (length prefix) path))
