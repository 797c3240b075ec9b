-- ===== src/StdString/Number/RoundTrip.antt =====
-- std::stoi reads what std::to_string writes.
use collector_service.Prelude.Result.{ok}
use collector_service.Prelude.{
  All, Bool-cases, Bytes, [], arith, false, inl, inr, ltb, negsuc, none, pos, refl, some, suc, zero,
  ℕ, ℤ, ◌%◌, ◌+◌, ◌/◌, ◌<◌, ◌^◌, ◌∷◌, ◌≡◌, ◌≤◌,
}
use collector_service.StdString.Number.{
  digits, int_of, is_space, scan_digits, scan_digits-digits, show_int, show_ℕ, skip_hex_prefix,
  skip_sign, skip_space, stoi,
}

abbrev pub IsDigit : ℕ → Type 0
IsDigit c = (b'0' ≤ c) × (c ≤ b'9')

digits-IsDigit : (fuel n : ℕ) (out : Bytes) → All IsDigit out → All IsDigit (digits fuel n out)
unfolding digits
digits-IsDigit zero n out h = ((omega arith, omega arith), h)
digits-IsDigit (suc fuel) n out h = elim (Bool-cases (ltb n 10)) [
  | inl small ↦ rw small ((omega arith, ground arith), h)
  | inr large ↦
      rw large
        (digits-IsDigit fuel (n / 10) ((b'0' + n % 10) ∷ out) ((omega arith, omega arith), h))
]

pub show_ℕ-IsDigit : (n : ℕ) → All IsDigit (show_ℕ n)
unfolding show_ℕ
show_ℕ-IsDigit n = digits-IsDigit n n [] tt

scan_digits-show_ℕ : (n : ℕ) → scan_digits 10 none (show_ℕ n) ≡ some n
unfolding show_ℕ
scan_digits-show_ℕ n = unfold scan_digits in scan_digits-digits n n [] (omega arith)

skip_space-digits : (t : Bytes) → All IsDigit t → skip_space t ≡ t
unfolding skip_space is_space
skip_space-digits [] h = refl
skip_space-digits (c ∷ cs) h = ground arith

skip_sign-digits : (t : Bytes) → All IsDigit t → skip_sign t ≡ (false, t)
unfolding skip_sign
skip_sign-digits [] h = refl
skip_sign-digits (c ∷ cs) h = ground arith

skip_hex_prefix-decimal : (t : Bytes) → skip_hex_prefix 10 t ≡ t
unfolding skip_hex_prefix
skip_hex_prefix-decimal [] = refl
skip_hex_prefix-decimal (a ∷ []) = refl
skip_hex_prefix-decimal (a ∷ b ∷ []) = refl
skip_hex_prefix-decimal (a ∷ b ∷ c ∷ t) = refl

-- An int: from -2^31 up to below 2^31.
abbrev pub IsInt : ℤ → Type 0
IsInt (pos n) = n < 2 ^ 31
IsInt (negsuc n) = n < 2 ^ 31

-- std::stoi reads every int as it was from the text that std::to_string writes of it.
pub stoi-show_int : (z : ℤ) → IsInt z → stoi 10 (show_int z) ≡ ok z
unfolding stoi show_int
stoi-show_int (pos n) h =
    rw
      (
        skip_space-digits (show_ℕ n) (show_ℕ-IsDigit n),
        skip_sign-digits (show_ℕ n) (show_ℕ-IsDigit n),
        skip_hex_prefix-decimal (show_ℕ n),
        scan_digits-show_ℕ n,
      )
      (unfold int_of in ground arith)
stoi-show_int (negsuc n) h =
    unfold skip_space is_space skip_sign in
    rw (skip_hex_prefix-decimal (show_ℕ (suc n)), scan_digits-show_ℕ (suc n))
      (unfold int_of in ground arith)
