-- ===== src/Driver/MockServer/Query.antt =====
-- The mock driver reads the paths of a query that the collection built.
-- A text with no closing bracket.
use collector_service.Prelude.Result.{ok}
use collector_service.StdString.{before_char, find, find_char, starts_with}
use collector_service.Command.Field.{behind_key, quoted_key}
use collector_service.Command.Field.RoundTrip.{kept_byte, NoQuote, find_past_quoted}
use collector_service.Models.{DataPoint}
use collector_service.Driver.MockServer.{scan_paths, trim_spaces, extract_query_paths}
use collector_service.Task.Query.{quoted_paths, build_query}
use collector_service.Util.Json.{comma_separated, escape_byte, escape_json, quote_json}
use collector_service.Prelude.{
  All, Bytes, List, [], ap, append-nil, append_assoc, arith, false, map, refl, sym, true, ℕ, ◌++◌,
  ◌∙◌, ◌∷◌, ◌≡◌, ◌≢◌, some, text,
}

abbrev pub NoBracket : Bytes → Type 0
NoBracket = All (λ c. c ≢ b']')

-- The paths that the driver takes a query to name.
unfoldable pub paths_read : List DataPoint → List Bytes
unfolding trim_spaces
paths_read [] = []
paths_read (p ∷ ps) = trim_spaces (map kept_byte p.name_path) ∷ paths_read ps

abbrev pub NoBrackets : List DataPoint → Type 0
NoBrackets = All (λ (p : DataPoint). NoBracket p.name_path)

scan_paths-escape_byte :
    (current : Bytes) (c : ℕ) (rest : Bytes)
    → scan_paths true false current (escape_byte c ++ rest)
      ≡ scan_paths true false (current ++ kept_byte c ∷ []) rest
unfolding scan_paths escape_byte kept_byte
scan_paths-escape_byte current c rest = ground arith

-- Inside a string, up to its closing quote.
scan_paths-escape_json :
    (current v rest : Bytes)
    → scan_paths true false current (escape_json v ++ (b'"' ∷ rest))
      ≡ trim_spaces (current ++ map kept_byte v)
        ∷ scan_paths false false (current ++ map kept_byte v) rest
unfolding escape_json
scan_paths-escape_json current [] rest = unfold scan_paths in rw (append-nil current) refl
scan_paths-escape_json current (c ∷ v) rest =
    rw
      (
        append_assoc (escape_byte c) (escape_json v) (b'"' ∷ rest),
        scan_paths-escape_byte current c (escape_json v ++ (b'"' ∷ rest)),
        scan_paths-escape_json (current ++ kept_byte c ∷ []) v rest,
        append_assoc current (kept_byte c ∷ []) (map kept_byte v),
      )
      refl

scan_paths-quote_json :
    (current v rest : Bytes)
    → scan_paths false false current (quote_json v ++ rest)
      ≡ trim_spaces (map kept_byte v) ∷ scan_paths false false (map kept_byte v) rest
unfolding quote_json
scan_paths-quote_json current v rest =
    rw (append_assoc (escape_json v) (b'"' ∷ []) rest)
      (unfold scan_paths in scan_paths-escape_json [] v rest)

scan_paths-comma :
    (current rest : Bytes)
    → scan_paths false false current (b',' ∷ rest) ≡ scan_paths false false current rest
unfolding scan_paths
scan_paths-comma current rest = refl

scan_paths-nil : (current : Bytes) → scan_paths false false current [] ≡ []
unfolding scan_paths
scan_paths-nil current = refl

scan_paths-quoted_paths :
    (current : Bytes) (ps : List DataPoint)
    → scan_paths false false current (comma_separated (quoted_paths ps)) ≡ paths_read ps
unfolding quoted_paths comma_separated paths_read
scan_paths-quoted_paths current [] = scan_paths-nil current
scan_paths-quoted_paths current (p ∷ []) =
    sym (ap (scan_paths false false current) (append-nil (quote_json p.name_path)))
    ∙ scan_paths-quote_json current p.name_path []
    ∙ ap (◌∷◌ (trim_spaces (map kept_byte p.name_path)))
        (scan_paths-nil (map kept_byte p.name_path))
scan_paths-quoted_paths current (p ∷ q ∷ ps) =
    scan_paths-quote_json current p.name_path (b',' ∷ comma_separated (quoted_paths (q ∷ ps)))
    ∙ ap (◌∷◌ (trim_spaces (map kept_byte p.name_path))) (
        scan_paths-comma (map kept_byte p.name_path) (comma_separated (quoted_paths (q ∷ ps)))
        ∙ scan_paths-quoted_paths (map kept_byte p.name_path) (q ∷ ps))

NoBracket-append : (s t : Bytes) → NoBracket s → NoBracket t → NoBracket (s ++ t)
NoBracket-append [] t hs ht = ht
NoBracket-append (c ∷ s) t hs ht = (hs.0, NoBracket-append s t hs.1 ht)

escape_byte-NoBracket : (c : ℕ) → c ≢ b']' → NoBracket (escape_byte c)
unfolding escape_byte
escape_byte-NoBracket c h = ground arith

escape_json-NoBracket : (v : Bytes) → NoBracket v → NoBracket (escape_json v)
unfolding escape_json
escape_json-NoBracket [] h = tt
escape_json-NoBracket (c ∷ v) h =
    NoBracket-append (escape_byte c) (escape_json v) (escape_byte-NoBracket c h.0)
      (escape_json-NoBracket v h.1)

quote_json-NoBracket : (v : Bytes) → NoBracket v → NoBracket (quote_json v)
unfolding quote_json
quote_json-NoBracket v h = (
  (λ e. omega arith),
  NoBracket-append (escape_json v) (b'"' ∷ []) (escape_json-NoBracket v h) ((λ e. omega arith), tt),
)

quoted_paths-NoBracket :
    (ps : List DataPoint) → NoBrackets ps → NoBracket (comma_separated (quoted_paths ps))
unfolding quoted_paths comma_separated
quoted_paths-NoBracket [] h = tt
quoted_paths-NoBracket (p ∷ []) h = quote_json-NoBracket p.name_path h.0
quoted_paths-NoBracket (p ∷ q ∷ ps) h =
    NoBracket-append (quote_json p.name_path) (b',' ∷ comma_separated (quoted_paths (q ∷ ps)))
      (quote_json-NoBracket p.name_path h.0)
      ((λ e. omega arith), quoted_paths-NoBracket (q ∷ ps) h.1)

pub before_char-bracket : (s t : Bytes) → NoBracket s → before_char b']' (s ++ (b']' ∷ t)) ≡ s
unfolding before_char
before_char-bracket [] t h = refl
before_char-bracket (c ∷ s) t h = ground (arith, before_char-bracket s t h.1)

pub find_char-bracket :
    (s t : Bytes) → NoBracket s → find_char b']' (s ++ (b']' ∷ t)) ≡ some (b']' ∷ t)
unfolding find_char
find_char-bracket [] t h = refl
find_char-bracket (c ∷ s) t h = ground (arith, find_char-bracket s t h.1)

-- The text of a query behind the quote that closes the cid.
abbrev behind_cid : Bytes → Bytes
behind_cid paths = text ",\"query\":[" ++ (paths ++ text "]}")

behind_key-query :
    (cid paths : Bytes)
    → NoQuote cid
    → cid ≢ text "query"
    → behind_key
        (text "{\"cid\":\"" ++ (escape_json cid ++ (text "\",\"query\":[" ++ (paths ++ text "]}"))))
        (text "query")
      ≡ some (text ":[" ++ (paths ++ text "]}"))
unfolding behind_key text quoted_key find starts_with
behind_key-query cid paths h ne =
    rw (find_past_quoted (text "query") cid (behind_cid paths) (omega arith) h ne, behind_key) refl

-- The mock driver reads the paths of every point, in their order, out of a query that buildQuery
-- made, but for line feeds, carriage returns and tabs, and with no blanks around a path, where no
-- path has a closing bracket, and the cid has no double quote and is not "query".
pub extract_query_paths-build_query :
    (cid query : Bytes) (ps : List DataPoint)
    → NoQuote cid
    → cid ≢ text "query"
    → NoBrackets ps
    → build_query cid ps ≡ ok query
    → extract_query_paths query ≡ paths_read ps
unfolding build_query extract_query_paths
extract_query_paths-build_query cid query [] h ne nb e = cc e
extract_query_paths-build_query cid query (p ∷ ps) h ne nb e =
    let paths = comma_separated (quoted_paths (p ∷ ps)) in
    let clean = quoted_paths-NoBracket (p ∷ ps) nb in
    let same : text "{\"cid\":\""
          ++ (escape_json cid ++ (text "\",\"query\":[" ++ (paths ++ text "]}")))
        ≡ query =
      cc e in
    rw (← same, behind_key-query cid paths h ne, extract_query_paths)
      (rw (find_char-bracket paths (b'}' ∷ []) clean, before_char-bracket paths (b'}' ∷ []) clean)
        (scan_paths-quoted_paths [] (p ∷ ps)))
