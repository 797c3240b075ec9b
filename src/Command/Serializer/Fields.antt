-- ===== src/Command/Serializer/Fields.antt =====
-- The fields of a result that was written as JSON, as the field extraction reads them.
use collector_service.Models.{CommandResult}
use collector_service.Util.Json.{escape_json}
use collector_service.StdString.Number.RoundTrip.{IsDigit, show_ℕ-IsDigit}
use collector_service.StdString.Number.{show_ℕ}
use collector_service.StdString.{find, starts_with}
use collector_service.Command.Serializer.{result_json}
use collector_service.Command.Field.RoundTrip.{
  NoQuote, extract-of_find, find_past_quoted, kept_byte,
}
use collector_service.Prelude.{All, Bytes, [], arith, map, refl, text, ◌++◌, ◌∙◌, ◌∷◌, ◌≡◌, ◌≢◌}
use collector_service.Command.Field.{extract_string_field, quoted_key}

find_past_plain : (k xs t : Bytes) → NoQuote xs → find (b'"' ∷ k) (xs ++ t) ≡ find (b'"' ∷ k) t
unfolding find starts_with
find_past_plain k [] t h = refl
find_past_plain k (c ∷ xs) t h = ground (arith, find_past_plain k xs t h.1)

digits-NoQuote : (t : Bytes) → All IsDigit t → NoQuote t
digits-NoQuote [] h = tt
digits-NoQuote (c ∷ t) h = ((λ e. omega arith), digits-NoQuote t h.1)

-- The text behind the message of a result.
behind_msg : Bytes → Bytes
behind_msg mid = text ",\"mid\":\"" ++ (escape_json mid ++ text "\"}")

-- The message of a result is read back as it was, but for line feeds, carriage returns and tabs,
-- which become letters.
pub result_json-msg :
    (r : CommandResult) → extract_string_field (result_json r) (text "msg") ≡ map kept_byte r.msg
unfolding result_json behind_msg text quoted_key find starts_with
result_json-msg r = extract-of_find (result_json r) (text "msg") r.msg (behind_msg r.mid) (
    find_past_plain (text "msg\"") (show_ℕ r.code)
      (text ",\"msg\":\"" ++ (escape_json r.msg ++ (b'"' ∷ behind_msg r.mid)))
      (digits-NoQuote (show_ℕ r.code) (show_ℕ-IsDigit r.code)))

-- The mid of a result is read back as it was, but for line feeds, carriage returns and tabs, which
-- become letters, where the message has no double quote and is not the field's name.
pub result_json-mid :
    (r : CommandResult)
    → NoQuote r.msg
    → r.msg ≢ text "mid"
    → extract_string_field (result_json r) (text "mid") ≡ map kept_byte r.mid
unfolding result_json behind_msg text quoted_key find starts_with
result_json-mid r h ne = extract-of_find (result_json r) (text "mid") r.mid (text "}") (
    find_past_plain (text "mid\"") (show_ℕ r.code)
      (text ",\"msg\":\"" ++ (escape_json r.msg ++ (b'"' ∷ behind_msg r.mid)))
      (digits-NoQuote (show_ℕ r.code) (show_ℕ-IsDigit r.code))
    ∙ find_past_quoted (text "mid") r.msg (behind_msg r.mid) (omega arith) h ne)
