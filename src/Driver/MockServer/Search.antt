-- ===== src/Driver/MockServer/Search.antt =====
-- Where the fields of an object of the answer are found.
use mathlib.Core.Path.{subst}
use collector_service.Models.{Double}
use collector_service.Prelude.{All, Bytes, arith, text, ◌∷◌, ◌≢◌, All-append, refl, sym}
use collector_service.Driver.MockServer.{description_for_path, item_name_from_path}
use collector_service.Driver.MockServer.Tokens.{IsToken, Differs}
use collector_service.Driver.MockServer.Object.{
  item_tokens, mock_path, value_token, timed, value_before_comma, word,
}
use collector_service.Driver.MockServer.Paths.{
  IsPath, IsPrinted, numerics-IsQuiet, description-IsLabel, printed_value,
}
use collector_service.Command.Field.RoundTrip.{NoQuote}

mock_path-NoQuote : (path : Bytes) → IsPath path → NoQuote (mock_path path)
unfolding text
mock_path-NoQuote path p =
    All-append (λ c. c ≢ b'"') (text "/DV:mock/CP:mock/DT:") (item_name_from_path path)
      (omega arith) p.name_clean

module _ (fixed_text : Double → Bytes) (timestamp : Double)
    (numeric : IsPrinted fixed_text timestamp) (path : Bytes) (p : IsPath path) where
  value-IsToken : IsToken (value_token fixed_text timestamp path)
  unfolding text
  value-IsToken = record {
    key_clean = omega arith;
    first_quiet = omega arith;
    gap_quiet = omega arith;
    number_quiet = numerics-IsQuiet _ (printed_value fixed_text timestamp numeric path).all_fine;
    tail_quiet = omega arith;
  }

  timed-IsToken : (key : Bytes) → NoQuote key → IsToken (timed fixed_text timestamp key)
  timed-IsToken key clean = record {
    key_clean = clean;
    first_quiet = omega arith;
    gap_quiet = tt;
    number_quiet = numerics-IsQuiet _ numeric.time.all_fine;
    tail_quiet = omega arith;
  }

  word-IsToken : (key : Bytes) → NoQuote key → IsToken (word key)
  word-IsToken key clean = record {
    key_clean = clean;
    first_quiet = omega arith;
    gap_quiet = tt;
    number_quiet = tt;
    tail_quiet = tt;
  }

  value_before_comma-IsToken : (v : Bytes) → NoQuote v → IsToken (value_before_comma v)
  value_before_comma-IsToken v clean = record {
    key_clean = clean;
    first_quiet = omega arith;
    gap_quiet = tt;
    number_quiet = tt;
    tail_quiet = tt;
  }

  -- The tokens of the object, in their order.
  pub tokens-IsToken : All IsToken (item_tokens fixed_text timestamp path)
  unfolding text
  tokens-IsToken = (
    value-IsToken,
    (
      timed-IsToken (text "dev_time") (omega arith),
      (
        timed-IsToken (text "svr_time") (omega arith),
        (
          word-IsToken (text "item_path") (omega arith),
          (
            value_before_comma-IsToken (mock_path path) (mock_path-NoQuote path p),
            (
              word-IsToken (text "item_description") (omega arith),
              (
                value_before_comma-IsToken (description_for_path path)
                    (description-IsLabel path p).clean,
                (word-IsToken (text "item_name") (omega arith), tt),
              ),
            ),
          ),
        ),
      ),
    ),
  )

  -- None of their strings is a path.
  pub tokens-Differ :
      (inner : Bytes)
      → All (λ c. c ≢ b':') (b'/' ∷ inner)
      → All (Differs b'/' inner) (item_tokens fixed_text timestamp path)
  unfolding text
  tokens-Differ inner no_colon =
      let t = tokens-IsToken in
      (
        (t.0, (λ e. cc e), omega arith),
        (
          (t.1.0, (λ e. cc e), omega arith),
          (
            (t.1.1.0, (λ e. cc e), omega arith),
            (
              (t.1.1.1.0, (λ e. cc e), omega arith),
              (
                (
                  t.1.1.1.1.0,
                  (λ e. (subst (All (λ c. c ≢ b':')) (sym e) no_colon).1.1.1.0 refl),
                  omega arith,
                ),
                (
                  (t.1.1.1.1.1.0, (λ e. cc e), omega arith),
                  (
                    (
                      t.1.1.1.1.1.1.0,
                      (λ e.
                          (subst (All (λ c. c ≢ b'/')) e (description-IsLabel path p).flat).0 refl),
                      omega arith,
                    ),
                    ((t.1.1.1.1.1.1.1.0, (λ e. cc e), omega arith), tt),
                  ),
                ),
              ),
            ),
          ),
        ),
      )
