-- ===== src/Command/Parser/Addr.antt =====
-- parseAddr of an address that was put together as "host:port".
use collector_service.Prelude.Result.{ok}
use collector_service.StdString.Number.RoundTrip.{IsDigit, show_ℕ-IsDigit, stoi-show_int}
use collector_service.StdString.{split_last}
use collector_service.Command.Parser.{parse_addr}
use collector_service.StdString.Number.{show_int, digits}
use collector_service.Prelude.{
  All, Bytes, [], arith, is_empty, none, pos, refl, some, ℕ, ◌++◌, ◌<◌, ◌^◌, ◌∷◌, ◌≡◌, ◌≢◌, false,
  ℤ,
}

split_last-none : (ch : ℕ) (t : Bytes) → All (λ c. c ≢ ch) t → split_last ch t ≡ none
unfolding split_last
split_last-none ch [] h = refl
split_last-none ch (c ∷ t) h = rw (split_last-none ch t h.1) (ground (arith, h.0))

split_last-append :
    (ch : ℕ) (front back : Bytes)
    → All (λ c. c ≢ ch) back
    → split_last ch (front ++ (ch ∷ back)) ≡ some (front, back)
unfolding split_last
split_last-append ch [] back h = rw (split_last-none ch back h) (ground arith)
split_last-append ch (c ∷ front) back h = rw (split_last-append ch front back h) refl

no_colon : (t : Bytes) → All IsDigit t → All (λ c. c ≢ b':') t
no_colon [] h = tt
no_colon (c ∷ t) h = ((λ e. omega arith), no_colon t h.1)

joined_text : (host digits : Bytes) → is_empty (host ++ (b':' ∷ digits)) ≡ false
unfolding is_empty
joined_text [] digits = refl
joined_text (c ∷ host) digits = refl

-- parseAddr takes "host:port" apart at the last colon, whatever the host is and whatever the
-- address and the port were before, for a port below 2^31.
pub parse_addr-joined :
    (host ip : Bytes) (port : ℕ) (before : ℤ)
    → port < 2 ^ 31
    → parse_addr (host ++ (b':' ∷ show_int (pos port))) ip before ≡ ok (host, pos port)
unfolding parse_addr
parse_addr-joined host ip port before h =
    let digits : All IsDigit (show_int (pos port)) = unfold show_int in show_ℕ-IsDigit port in
    rw
      (
        joined_text host (show_int (pos port)),
        split_last-append b':' host (show_int (pos port)) (no_colon (show_int (pos port)) digits),
        stoi-show_int (pos port) h,
      )
      refl
