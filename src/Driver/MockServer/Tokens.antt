-- ===== src/Driver/MockServer/Tokens.antt =====
-- Texts of JSON as quoted strings with what stands between them: where a key is found, and where an
-- object ends.
use collector_service.Task.Response.{scan_object}
use collector_service.Util.Json.{escape_json, escape_byte}
use collector_service.StdString.{find, starts_with}
use collector_service.Prelude.{
  All, Bytes, List, [], arith, refl, ℕ, ◌++◌, ◌∙◌, ◌∷◌, ◌≡◌, ◌≢◌, append-nil, false, true, ap,
  append_assoc, sym,
}
use collector_service.Command.Field.{quoted_key}
use collector_service.Command.Field.RoundTrip.{IsKey, NoQuote, find_past_quoted}

-- A quoted string and what follows it, up to the next one: `first` and `gap`, a number, and `tail`.
pub record Token : Type 0 where
  pub key : Bytes
  pub first : ℕ
  pub gap : Bytes
  pub number : Bytes
  pub tail : Bytes

abbrev pub token_text : Token → Bytes → Bytes
token_text k rest =
    b'"' ∷ (escape_json k.key ++ (b'"' ∷ k.first ∷ (k.gap ++ (k.number ++ (k.tail ++ rest)))))

abbrev pub tokens_text : List Token → Bytes → Bytes
tokens_text [] rest = rest
tokens_text (k ∷ ks) rest = token_text k (tokens_text ks rest)

-- A byte that neither opens nor closes anything.
abbrev pub IsQuiet : ℕ → Type 0
IsQuiet c = (c ≢ b'"') × (c ≢ b'\\') × (c ≢ b'{') × (c ≢ b'}')

pub record IsToken (k : Token) : Type 0 where
  pub key_clean : NoQuote k.key
  pub first_quiet : IsQuiet k.first
  pub gap_quiet : All IsQuiet k.gap
  pub number_quiet : All IsQuiet k.number
  pub tail_quiet : All IsQuiet k.tail

pub skip_quiet :
    (k t rest : Bytes) → All IsQuiet t → find (b'"' ∷ k) (t ++ rest) ≡ find (b'"' ∷ k) rest
unfolding find starts_with
skip_quiet k [] rest h = refl
skip_quiet k (c ∷ t) rest h = ground (arith, skip_quiet k t rest h.1)

close_quote :
    (h : ℕ) (k : Bytes) (c : ℕ) (rest : Bytes)
    → c ≢ h
    → find (quoted_key (h ∷ k)) (b'"' ∷ c ∷ rest) ≡ find (quoted_key (h ∷ k)) (c ∷ rest)
unfolding find starts_with quoted_key
close_quote h k c rest ne = ground arith

-- Past a quoted string that is not the key, and its closing quote.
pub skip_quoted :
    (h : ℕ) (k v : Bytes) (c : ℕ) (rest : Bytes)
    → IsKey (h ∷ k)
    → NoQuote v
    → v ≢ h ∷ k
    → c ≢ h
    → find (quoted_key (h ∷ k)) (b'"' ∷ (escape_json v ++ (b'"' ∷ c ∷ rest)))
      ≡ find (quoted_key (h ∷ k)) (c ∷ rest)
skip_quoted h k v c rest key clean other ne =
    find_past_quoted (h ∷ k) v (c ∷ rest) key clean other ∙ close_quote h k c rest ne

-- Past a token whose string is not the key.
pub skip_token :
    (h : ℕ) (k : Bytes) (token : Token) (rest : Bytes)
    → IsKey (h ∷ k)
    → IsToken token
    → token.key ≢ h ∷ k
    → token.first ≢ h
    → find (quoted_key (h ∷ k)) (token_text token rest) ≡ find (quoted_key (h ∷ k)) rest
unfolding quoted_key
skip_token h k token rest key is other ne =
    let end = token.tail ++ rest in
    skip_quoted h k token.key token.first (token.gap ++ (token.number ++ end)) key is.key_clean
      other ne
    ∙ skip_quiet (h ∷ (k ++ b'"' ∷ [])) (token.first ∷ token.gap) (token.number ++ end)
        (is.first_quiet, is.gap_quiet)
    ∙ skip_quiet (h ∷ (k ++ b'"' ∷ [])) token.number end is.number_quiet
    ∙ skip_quiet (h ∷ (k ++ b'"' ∷ [])) token.tail rest is.tail_quiet

-- A token that is neither the key nor followed by its first byte.
abbrev pub Differs : ℕ → Bytes → Token → Type 0
Differs h k token = IsToken token × (token.key ≢ h ∷ k) × (token.first ≢ h)

pub skip_tokens :
    (h : ℕ) (k : Bytes) (tokens : List Token) (rest : Bytes)
    → IsKey (h ∷ k)
    → All (Differs h k) tokens
    → find (quoted_key (h ∷ k)) (tokens_text tokens rest) ≡ find (quoted_key (h ∷ k)) rest
skip_tokens h k [] rest key d = refl
skip_tokens h k (token ∷ tokens) rest key d =
    skip_token h k token (tokens_text tokens rest) key d.0.0 d.0.1 d.0.2
    ∙ skip_tokens h k tokens rest key d.1

-- The loop of extractObjectForPath past quiet bytes, and past a quoted string.
scan_quiet_byte :
    (seen : Bytes) (depth c : ℕ) (rest : Bytes)
    → IsQuiet c
    → scan_object seen depth false false (c ∷ rest)
      ≡ scan_object (seen ++ c ∷ []) depth false false rest
unfolding scan_object
scan_quiet_byte seen depth c rest h = ground arith

scan_quiet :
    (seen : Bytes) (depth : ℕ) (t rest : Bytes)
    → All IsQuiet t
    → scan_object seen depth false false (t ++ rest)
      ≡ scan_object (seen ++ t) depth false false rest
scan_quiet seen depth [] rest h = rw (append-nil seen) refl
scan_quiet seen depth (c ∷ t) rest h =
    scan_quiet_byte seen depth c (t ++ rest) h.0
    ∙ scan_quiet (seen ++ c ∷ []) depth t rest h.1
    ∙ ap (λ x. scan_object x depth false false rest) (append_assoc seen (c ∷ []) t)

scan_escaped :
    (seen : Bytes) (depth c : ℕ) (rest : Bytes)
    → scan_object seen depth true false (escape_byte c ++ rest)
      ≡ scan_object (seen ++ escape_byte c) depth true false rest
unfolding scan_object escape_byte
scan_escaped seen depth c rest = ground (
  arith,
  append_assoc seen (b'\\' ∷ []) (b'\\' ∷ []),
  append_assoc seen (b'\\' ∷ []) (b'"' ∷ []),
  append_assoc seen (b'\\' ∷ []) (b'n' ∷ []),
  append_assoc seen (b'\\' ∷ []) (b'r' ∷ []),
  append_assoc seen (b'\\' ∷ []) (b't' ∷ []),
)

scan_string :
    (seen : Bytes) (depth : ℕ) (v rest : Bytes)
    → scan_object seen depth true false (escape_json v ++ (b'"' ∷ rest))
      ≡ scan_object (seen ++ (escape_json v ++ b'"' ∷ [])) depth false false rest
unfolding scan_object escape_json
scan_string seen depth [] rest = ground arith
scan_string seen depth (c ∷ v) rest =
    ap (scan_object seen depth true false)
      (append_assoc (escape_byte c) (escape_json v) (b'"' ∷ rest))
    ∙ scan_escaped seen depth c (escape_json v ++ (b'"' ∷ rest))
    ∙ scan_string (seen ++ escape_byte c) depth v rest
    ∙ ap (λ x. scan_object x depth false false rest)
        (append_assoc seen (escape_byte c) (escape_json v ++ b'"' ∷ [])
          ∙ ap (λ x. seen ++ x) (sym (append_assoc (escape_byte c) (escape_json v) (b'"' ∷ []))))

scan_quoted :
    (seen : Bytes) (depth : ℕ) (v rest : Bytes)
    → scan_object seen depth false false (b'"' ∷ (escape_json v ++ (b'"' ∷ rest)))
      ≡ scan_object (seen ++ (b'"' ∷ (escape_json v ++ b'"' ∷ []))) depth false false rest
unfolding scan_object
scan_quoted seen depth v rest =
    scan_string (seen ++ b'"' ∷ []) depth v rest
    ∙ ap (λ x. scan_object x depth false false rest)
        (append_assoc seen (b'"' ∷ []) (escape_json v ++ b'"' ∷ []))

abbrev string_text : Bytes → Bytes
string_text v = b'"' ∷ (escape_json v ++ b'"' ∷ [])

abbrev token_bytes : Token → Bytes
token_bytes k = string_text k.key ++ ((k.first ∷ k.gap) ++ (k.number ++ k.tail))

token_text-split : (k : Token) (rest : Bytes) → token_bytes k ++ rest ≡ token_text k rest
token_text-split k rest =
    append_assoc (string_text k.key) ((k.first ∷ k.gap) ++ (k.number ++ k.tail)) rest
    ∙ ap (λ x. string_text k.key ++ x)
        (append_assoc (k.first ∷ k.gap) (k.number ++ k.tail) rest
          ∙ ap (λ x. (k.first ∷ k.gap) ++ x) (append_assoc k.number k.tail rest))
    ∙ ap (◌∷◌ b'"') (
        append_assoc (escape_json k.key) (b'"' ∷ [])
          (k.first ∷ (k.gap ++ (k.number ++ (k.tail ++ rest)))))

-- The whole of a token.
scan_token :
    (seen : Bytes) (depth : ℕ) (k : Token) (rest : Bytes)
    → IsToken k
    → scan_object seen depth false false (token_text k rest)
      ≡ scan_object (seen ++ token_bytes k) depth false false rest
scan_token seen depth k rest is =
    let end = k.tail ++ rest in
    let one = seen ++ string_text k.key in
    let two = one ++ (k.first ∷ k.gap) in
    scan_quoted seen depth k.key (k.first ∷ (k.gap ++ (k.number ++ end)))
    ∙ scan_quiet one depth (k.first ∷ k.gap) (k.number ++ end) (is.first_quiet, is.gap_quiet)
    ∙ scan_quiet two depth k.number end is.number_quiet
    ∙ scan_quiet (two ++ k.number) depth k.tail rest is.tail_quiet
    ∙ ap (λ x. scan_object x depth false false rest)
        (append_assoc two k.number k.tail
          ∙ append_assoc one (k.first ∷ k.gap) (k.number ++ k.tail)
          ∙ append_assoc seen (string_text k.key) ((k.first ∷ k.gap) ++ (k.number ++ k.tail)))

scan_last :
    (seen last rest : Bytes)
    → scan_object (seen ++ string_text last) 1 false false (b'}' ∷ rest)
      ≡ seen ++ (b'"' ∷ (escape_json last ++ (b'"' ∷ b'}' ∷ [])))
unfolding scan_object
scan_last seen last rest =
    append_assoc seen (string_text last) (b'}' ∷ [])
    ∙ ap (λ x. seen ++ (b'"' ∷ x)) (append_assoc (escape_json last) (b'"' ∷ []) (b'}' ∷ []))

-- The object ends at the brace behind its tokens and one more string.
pub scan_tokens :
    (seen : Bytes) (tokens : List Token) (last rest : Bytes)
    → All IsToken tokens
    → scan_object seen 1 false false
        (tokens_text tokens (b'"' ∷ (escape_json last ++ (b'"' ∷ b'}' ∷ rest))))
      ≡ seen ++ tokens_text tokens (b'"' ∷ (escape_json last ++ (b'"' ∷ b'}' ∷ [])))
scan_tokens seen [] last rest h = scan_quoted seen 1 last (b'}' ∷ rest) ∙ scan_last seen last rest
scan_tokens seen (k ∷ ks) last rest h =
    let end = tokens_text ks (b'"' ∷ (escape_json last ++ (b'"' ∷ b'}' ∷ []))) in
    scan_token seen 1 k (tokens_text ks (b'"' ∷ (escape_json last ++ (b'"' ∷ b'}' ∷ rest)))) h.0
    ∙ scan_tokens (seen ++ token_bytes k) ks last rest h.1
    ∙ append_assoc seen (token_bytes k) end
    ∙ ap (λ x. seen ++ x) (token_text-split k end)
