-- ===== src/Http/Adapter/Fields.antt =====
-- An envelope of src/http/HttpCommandAdapter.cpp as the command interface reads it.
-- The text of an envelope behind the device's name.
use collector_service.Http.Adapter.{command_envelope, device_field}
use collector_service.StdString.{find}
use collector_service.Util.Json.{escape_json}
use collector_service.Command.Field.{extract_string_field, quoted_key}
use collector_service.Command.Field.RoundTrip.{
  IsKey, NoQuote, extract-of_find, find_past_quoted, kept_byte, read_string-escape_json,
}
use collector_service.Prelude.{
  Bytes, [], ap, append_assoc, arith, map, refl, text, ℕ, ◌++◌, ◌∙◌, ◌∷◌, ◌≡◌, ◌≢◌,
}

mid_text : Bytes → Bytes
mid_text mid = text "}},\"mid\":\"" ++ (escape_json mid ++ text "\"}")

-- The text of an envelope behind the quote that closes the category.
params_text : Bytes → Bytes → Bytes
params_text name mid = text ",\"params\":{" ++ (device_field name ++ mid_text mid)

params_text-cons :
    (c : ℕ) (cs mid : Bytes)
    → params_text (c ∷ cs) mid
      ≡ text ",\"params\":{\"device_name\":\"" ++ (escape_json (c ∷ cs) ++ (b'"' ∷ mid_text mid))
unfolding params_text device_field text
params_text-cons c cs mid =
    ap (◌++◌ (text ",\"params\":{\"device_name\":\""))
      (append_assoc (escape_json (c ∷ cs)) (b'"' ∷ []) (mid_text mid))

-- The search for a key goes on behind the category.
find-envelope :
    (k category name mid : Bytes)
    → IsKey k
    → NoQuote category
    → category ≢ k
    → find (quoted_key k) (b'"' ∷ (escape_json category ++ (b'"' ∷ params_text name mid)))
      ≡ find (quoted_key k) (b'"' ∷ params_text name mid)
find-envelope k category name mid p h ne = find_past_quoted k category (params_text name mid) p h ne

abbrev pub device_name_key : Bytes
device_name_key = text "device_name"

abbrev pub mid_key : Bytes
mid_key = text "mid"

-- The command interface reads the category of an envelope as it was, but for line feeds, carriage
-- returns and tabs, which become letters.
envelope_category :
    (category name mid : Bytes)
    → extract_string_field (command_envelope category name mid) (text "category")
      ≡ map kept_byte category
unfolding extract_string_field command_envelope text
envelope_category category name mid = read_string-escape_json [] category _

-- The command interface reads a device's name that is not empty as it was, but for line feeds,
-- carriage returns and tabs, where the category has no double quote and is not the field's name.
envelope_device_name :
    (category name mid : Bytes)
    → NoQuote category
    → category ≢ device_name_key
    → name ≢ []
    → extract_string_field (command_envelope category name mid) device_name_key ≡ map kept_byte name
unfolding command_envelope params_text mid_text text quoted_key find
envelope_device_name category [] mid h ne nn = absurd (nn refl)
envelope_device_name category (c ∷ cs) mid h ne nn =
    extract-of_find (command_envelope category (c ∷ cs) mid) device_name_key (c ∷ cs) (mid_text mid)
      (find-envelope device_name_key category (c ∷ cs) mid (omega arith) h ne
        ∙ ap (λ t. find (quoted_key device_name_key) (b'"' ∷ t)) (params_text-cons c cs mid))

-- The command interface reads the mid as it was, but for line feeds, carriage returns and tabs,
-- where the category and the device's name have no double quote and are not the field's name.
envelope_mid :
    (category name mid : Bytes)
    → NoQuote category
    → category ≢ mid_key
    → NoQuote name
    → name ≢ mid_key
    → extract_string_field (command_envelope category name mid) mid_key ≡ map kept_byte mid
unfolding command_envelope params_text mid_text text quoted_key find
envelope_mid category [] mid h ne n nn =
    unfold device_field in
    extract-of_find (command_envelope category [] mid) mid_key mid (text "}")
      (find-envelope mid_key category [] mid (omega arith) h ne)
envelope_mid category (c ∷ cs) mid h ne n nn =
    extract-of_find (command_envelope category (c ∷ cs) mid) mid_key mid (text "}") (
      find-envelope mid_key category (c ∷ cs) mid (omega arith) h ne
      ∙ ap (λ t. find (quoted_key mid_key) (b'"' ∷ t)) (params_text-cons c cs mid)
      ∙ find_past_quoted mid_key (c ∷ cs) (mid_text mid) (omega arith) n nn)

-- The command interface reads the category, the device's name and the mid out of an HTTP envelope
-- as they were, but for line feeds, carriage returns and tabs, which become letters. The category
-- and the name have no double quote; the category is not the key of either field, and the name is
-- neither empty nor the key of the mid.
pub command_envelope-fields :
    (category name mid : Bytes)
    → NoQuote category
    → category ≢ device_name_key
    → category ≢ mid_key
    → NoQuote name
    → name ≢ []
    → name ≢ mid_key
    → (extract_string_field (command_envelope category name mid) (text "category")
        ≡ map kept_byte category)
      × (extract_string_field (command_envelope category name mid) device_name_key
          ≡ map kept_byte name)
      × (extract_string_field (command_envelope category name mid) mid_key ≡ map kept_byte mid)
command_envelope-fields category name mid clean no_name no_mid name_clean given other = (
  envelope_category category name mid,
  envelope_device_name category name mid clean no_name given,
  envelope_mid category name mid clean no_mid name_clean other,
)
