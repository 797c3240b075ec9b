-- ===== src/Driver/MockServer/Paths.antt =====
-- The paths and the numbers of which the answer of the mock driver can be read back.
use collector_service.Util.Json.{escape_byte, escape_json}
use collector_service.Task.Response.{number_chars}
use collector_service.Command.Field.{int_chars}
use collector_service.StdString.{is_member}
use collector_service.Prelude.{
  All, Bool-cases, Bytes, [], arith, false, inl, inr, is_empty, refl, text, true, ℕ, ◌∷◌, ◌≡◌, ◌≢◌,
}
use collector_service.Models.{Double}
use collector_service.Driver.MockServer.{
  value_for_path, description_for_path, item_name_from_path, mentions, pressure_word,
  temperature_word,
}
use collector_service.Driver.MockServer.Tokens.{IsQuiet}
use collector_service.Command.Field.RoundTrip.{IsKey, NoQuote}

-- A text that std::stod reads to its end: its first byte may begin a number.
pub record IsNumeric (t : Bytes) : Type 0 where
  pub head : ℕ
  pub others : Bytes
  pub parts : t ≡ head ∷ others
  pub begins : is_member int_chars head ≡ true
  pub all_fine : All (λ c. is_member number_chars c ≡ true) t

-- The doubles of an answer are printed as numbers: the clock's, and the three that paths have as
-- values, which are 1.2, 2.0 and 0.0.
pub record IsPrinted (fixed_text : Double → Bytes) (timestamp : Double) : Type 0 where
  pub time : IsNumeric (fixed_text timestamp)
  pub pressure : IsNumeric (fixed_text 4608083138725491507)
  pub temperature : IsNumeric (fixed_text 4611686018427387904)
  pub others : IsNumeric (fixed_text 0)

pub printed_value :
    (fixed_text : Double → Bytes) (timestamp : Double)
    → IsPrinted fixed_text timestamp
    → (path : Bytes) → IsNumeric (fixed_text (value_for_path path))
unfolding value_for_path
printed_value fixed_text timestamp p path = elim (Bool-cases (mentions (text "pressure") path)) [
  | inl first ↦ rw first p.pressure
  | inr not_first ↦ elim (Bool-cases (mentions (text "temperature") path)) [
    | inl second ↦ rw (not_first, second) p.temperature
    | inr neither ↦ rw (not_first, neither) p.others
  ]
]

numeric-IsQuiet : (c : ℕ) → is_member number_chars c ≡ true → IsQuiet c
unfolding is_member
numeric-IsQuiet c h = (
  λ e. (let bad = rw e at h in cc bad),
  λ e. (let bad = rw e at h in cc bad),
  λ e. (let bad = rw e at h in cc bad),
  λ e. (let bad = rw e at h in cc bad),
)

pub numerics-IsQuiet : (t : Bytes) → All (λ c. is_member number_chars c ≡ true) t → All IsQuiet t
numerics-IsQuiet [] h = tt
numerics-IsQuiet (c ∷ t) h = (numeric-IsQuiet c h.0, numerics-IsQuiet t h.1)

-- A path that begins with a slash, with no double quote, backslash, colon, line feed, carriage return
-- or tab; behind its last slash stands a name, which is not "item_name".
pub record IsPath (path : Bytes) : Type 0 where
  pub inner : Bytes
  pub slash : path ≡ b'/' ∷ inner
  pub key : IsKey path
  pub plain : All (λ c. (c ≢ b'\n') × (c ≢ b'\r') × (c ≢ b'\t')) path
  pub no_colon : All (λ c. c ≢ b':') path
  pub name_clean : NoQuote (item_name_from_path path)
  pub name_flat : All (λ c. c ≢ b'/') (item_name_from_path path)
  pub name_given : is_empty (item_name_from_path path) ≡ false
  pub name_other : item_name_from_path path ≢ text "item_name"

-- What the description shares with the name.
pub record IsLabel (v : Bytes) : Type 0 where
  pub clean : NoQuote v
  pub flat : All (λ c. c ≢ b'/') v
  pub given : is_empty v ≡ false
  pub other : v ≢ text "item_name"

word-IsLabel : IsLabel pressure_word × IsLabel temperature_word
unfolding is_empty text
word-IsLabel = (
  record { clean = omega arith; flat = omega arith; given = refl; other = λ e. cc e },
  record { clean = omega arith; flat = omega arith; given = refl; other = λ e. cc e },
)

pub description-IsLabel : (path : Bytes) → IsPath path → IsLabel (description_for_path path)
unfolding description_for_path
description-IsLabel path p = elim (Bool-cases (mentions (text "pressure") path)) [
  | inl first ↦ rw first word-IsLabel.0
  | inr not_first ↦ elim (Bool-cases (mentions (text "temperature") path)) [
    | inl second ↦ rw (not_first, second) word-IsLabel.1
    | inr neither ↦
        rw (not_first, neither)
          (record {
            clean = p.name_clean;
            flat = p.name_flat;
            given = p.name_given;
            other = p.name_other;
          })
  ]
]

-- escapeJson leaves such a path alone.
pub escape_json-plain :
    (path : Bytes)
    → IsKey path
    → All (λ c. (c ≢ b'\n') × (c ≢ b'\r') × (c ≢ b'\t')) path
    → escape_json path ≡ path
unfolding escape_json escape_byte
escape_json-plain [] k p = refl
escape_json-plain (c ∷ path) k p = ground (arith, escape_json-plain path k.1 p.1)
