-- ===== src/StdString/Number.antt =====
-- std::to_string(int) and std::stoi, with libstdc++'s what() text for the two exceptions of stoi.
pub mod RoundTrip
use collector_service.Prelude.{
  ℕ, zero, suc, ◌+◌, ◌-◌, ◌*◌, ◌/◌, ◌%◌, ◌^◌, ◌≤◌, ◌≡◌, Bytes, Bool, true, false, ◌&&◌, ◌||◌,
  Option, none, some, [], ◌∷◌, ◌==◌, ltb, leb, if◌then◌else◌, text, ℤ, pos, negsuc, arith,
}
use collector_service.Prelude.Result.{Result, ok, err}

-- The decimal digits of `n` in front of `out`; `n` is enough fuel.
unfoldable pub digits : ℕ → ℕ → Bytes → Bytes
digits zero n out = (b'0' + n % 10) ∷ out
digits (suc fuel) n out =
    let rest = digits fuel (n / 10) ((b'0' + n % 10) ∷ out) in
    if ltb n 10 then (b'0' + n) ∷ out else rest

unfoldable pub show_ℕ : ℕ → Bytes
unfolding digits
show_ℕ n = digits n n []

-- std::to_string(value), and `out << value`, of an int
unfoldable pub show_int : ℤ → Bytes
unfolding show_ℕ
show_int (pos n) = show_ℕ n
show_int (negsuc n) = b'-' ∷ show_ℕ (suc n)

unfoldable pub is_space : ℕ → Bool
is_space c = c == b' ' || (leb 9 c && leb c 13)

unfoldable pub skip_space : Bytes → Bytes
unfolding is_space
skip_space [] = []
skip_space (c ∷ cs) = let rest = skip_space cs in if is_space c then rest else c ∷ cs

-- The value of a digit in bases up to 16.
unfoldable pub digit_value : ℕ → Option ℕ
digit_value c =
    if leb b'0' c && leb c b'9'
    then some (c - b'0')
    else if leb b'a' c && leb c b'f'
    then some (c - b'a' + 10)
    else if leb b'A' c && leb c b'F'
    then some (c - b'A' + 10)
    else none

unfoldable pub digit_in : ℕ → ℕ → Option ℕ
unfolding digit_value
digit_in base c = elim (digit_value c) [
  | none ↦ none
  | some d ↦ if ltb d base then some d else none
]

-- The number read so far and whether a digit was read: strtol stops at the first other byte.
unfoldable pub scan_digits : ℕ → Option ℕ → Bytes → Option ℕ
unfolding digit_in
scan_digits base seen [] = seen
scan_digits base seen (c ∷ cs) = elim (digit_in base c) [
  | none ↦ seen
  | some d ↦ scan_digits base (elim seen [ none ↦ some d | some n ↦ some (n * base + d) ]) cs
]

-- A prefix 0x is skipped in base 16 where a hexadecimal digit follows it.
unfoldable pub skip_hex_prefix : ℕ → Bytes → Bytes
unfolding digit_in
skip_hex_prefix base (z ∷ x ∷ d ∷ rest) =
    if base == 16
      && z == b'0'
      && (x == b'x' || x == b'X')
      && (elim (digit_in 16 d) [ none ↦ false | some _ ↦ true ])
    then d ∷ rest
    else z ∷ x ∷ d ∷ rest
skip_hex_prefix base t = t

unfoldable pub skip_sign : Bytes → Bool × Bytes
skip_sign [] = (false, [])
skip_sign (c ∷ cs) =
    if c == b'-' then (true, cs) else if c == b'+' then (false, cs) else (false, c ∷ cs)

unfoldable pub int_of : Bool → Option ℕ → Result ℤ
int_of sign none = err (text "stoi")
int_of false (some n) = if ltb n (2 ^ 31) then ok (pos n) else err (text "stoi")
int_of true (some zero) = ok (pos 0)
int_of true (some (suc n)) = if ltb n (2 ^ 31) then ok (negsuc n) else err (text "stoi")

-- std::stoi(text, nullptr, base)
unfoldable pub stoi : ℕ → Bytes → Result ℤ
unfolding int_of scan_digits skip_hex_prefix skip_sign skip_space
stoi base t =
    let (sign, rest) = skip_sign (skip_space t) in
    int_of sign (scan_digits base none (skip_hex_prefix base rest))

-- The digits of `n` continue a number already read.
pub scan_digits-digits :
    (fuel n : ℕ) (out : Bytes)
    → n ≤ fuel
    → scan_digits 10 none (digits fuel n out) ≡ scan_digits 10 (some n) out
unfolding digits scan_digits
scan_digits-digits zero n out h = ground arith
scan_digits-digits (suc fuel) n out h =
    ground (arith, scan_digits-digits fuel (n / 10) ((b'0' + n % 10) ∷ out))
