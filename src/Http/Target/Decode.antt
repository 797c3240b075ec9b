-- ===== src/Http/Target/Decode.antt =====
-- What the router reads out of a target: names that were percent-encoded, and names in a path.
-- The upper-case hexadecimal digit of a number below 16.
use collector_service.StdString.Laws.{starts_with-append}
use collector_service.Http.Target.{url_decode, between_path}
use collector_service.Prelude.{
  Bytes, [], ap, arith, false, if◌then◌else◌, length, ltb, refl, take, ℕ, ◌%◌, ◌++◌, ◌+◌, ◌-◌, ◌/◌,
  ◌<◌, ◌∷◌, ◌≡◌, append_assoc, drop, drop-append, equal_refl, length-append, sym, ◌≢◌,
}

abbrev pub hex_digit : ℕ → ℕ
hex_digit d = if ltb d 10 then b'0' + d else b'A' + (d - 10)

abbrev pub hex_pair : ℕ → Bytes
hex_pair c = b'%' ∷ hex_digit (c / 16) ∷ hex_digit (c % 16) ∷ []

-- The texts that a client may send for a name: each byte stands for itself, unless it is a percent
-- sign or a plus, or stands as a percent sign and two hexadecimal digits; a blank may be a plus.
pub data Encodes : Bytes → Bytes → Type 0 where
  nothing : Encodes [] []
  itself : (c : ℕ) {e t : Bytes} → c ≢ b'%' → c ≢ b'+' → Encodes e t → Encodes (c ∷ e) (c ∷ t)
  plus : {e t : Bytes} → Encodes e t → Encodes (b'+' ∷ e) (b' ' ∷ t)
  escaped : (c : ℕ) {e t : Bytes} → c < 256 → Encodes e t → Encodes (hex_pair c ++ e) (c ∷ t)

take-append : (front back : Bytes) → take (length front) (front ++ back) ≡ front
take-append [] back = refl
take-append (c ∷ front) back = ap (◌∷◌ c) (take-append front back)

-- betweenPath of a path that is put together takes the middle out and decodes it.
pub between_path-joined :
    (prefix middle suffix : Bytes)
    → between_path (prefix ++ (middle ++ suffix)) prefix suffix ≡ url_decode middle
unfolding between_path
between_path-joined prefix middle suffix =
    let path = prefix ++ (middle ++ suffix) in
    let size : length path ≡ length prefix + (length middle + length suffix) =
      rw (length-append prefix (middle ++ suffix), length-append middle suffix) refl in
    let fits : ltb (length path) (length prefix + length suffix) ≡ false = ground arith in
    let last : length path - length suffix ≡ length (prefix ++ middle) =
      rw (length-append prefix middle, size) (omega arith) in
    let inner : length path - length prefix - length suffix ≡ length middle =
      rw size (omega arith) in
    let joined : path ≡ (prefix ++ middle) ++ suffix = sym (append_assoc prefix middle suffix) in
    let behind : drop (length path - length suffix) path ≡ suffix =
      rw (last, joined) (drop-append (prefix ++ middle) suffix) in
    rw
      (
        starts_with-append prefix (middle ++ suffix),
        fits,
        behind,
        equal_refl suffix,
        inner,
        drop-append prefix (middle ++ suffix),
        take-append middle suffix,
      )
      refl
