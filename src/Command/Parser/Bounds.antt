-- ===== src/Command/Parser/Bounds.antt =====
-- The numbers that parseDeviceUpsert of src/command/CommandParser.cpp reads.
use collector_service.StdString.{split_last}
use collector_service.Models.{DeviceUpsert}
use collector_service.StdString.Number.{
  int_of, stoi, scan_digits, skip_hex_prefix, skip_sign, skip_space, digits,
}
use collector_service.StdString.Number.RoundTrip.{IsInt}
use collector_service.Command.Field.{extract_int_field, int_text}
use collector_service.Command.Parser.{parse_addr, parse_device_upsert}
use collector_service.Prelude.Result.{Result, err, ok}
use collector_service.Prelude.{
  Bool, Bytes, Option, arith, false, none, some, suc, true, zero, ℕ, ℤ, Bool-cases, inl, inr,
  is_empty, is_zero, ltb, ◌<◌, ◌^◌, ◌≡◌, [], if◌then◌else◌, negsuc, pos, refl, text, ◌∷◌,
}
use collector_service.Prelude.Result.{◌>>=◌}

-- What holds of a result, if there is one.
record Holds {A : Type 0} (P : A → Type 0) (r : Result A) : Type 0 where
  at : (a : A) → r ≡ ok a → P a

Holds-err : {A : Type 0} {P : A → Type 0} (what : Bytes) → Holds P (err what)
Holds-err what = record { at = λ a e. cc e }

Holds-ok : {A : Type 0} {P : A → Type 0} (a : A) → P a → Holds P (ok a)
Holds-ok a p = record { at = λ b e. let same : a ≡ b = cc e in rw (← same) p }

Holds-bind :
    {A B : Type 0} {P : A → Type 0} {Q : B → Type 0} (m : Result A) (f : A → Result B)
    → Holds P m
    → ((a : A) → P a → Holds Q (f a))
    → Holds Q (m >>= f)
Holds-bind (ok a) f p h = h a (p.at a refl)
Holds-bind (err what) f p h = Holds-err what

ltb_bound : (n : ℕ) → ltb n (2 ^ 31) ≡ true → n < 2 ^ 31
ltb_bound n e = ground arith

int_of-IsInt : (sign : Bool) (o : Option ℕ) → Holds IsInt (int_of sign o)
unfolding int_of
int_of-IsInt sign none = Holds-err _
int_of-IsInt false (some n) = elim (Bool-cases (ltb n (2 ^ 31))) [
  | inl low ↦ rw low (Holds-ok _ (ltb_bound n low))
  | inr high ↦ rw high (Holds-err _)
]
int_of-IsInt true (some zero) = Holds-ok _ (omega arith)
int_of-IsInt true (some (suc n)) = elim (Bool-cases (ltb n (2 ^ 31))) [
  | inl low ↦ rw low (Holds-ok _ (ltb_bound n low))
  | inr high ↦ rw high (Holds-err _)
]

stoi-IsInt : (base : ℕ) (t : Bytes) → Holds IsInt (stoi base t)
unfolding stoi
stoi-IsInt base t =
    let (sign, rest) = skip_sign (skip_space t) in
    int_of-IsInt sign (scan_digits base none (skip_hex_prefix base rest))

extract_int_field-IsInt :
    (content name : Bytes) (fallback : ℤ)
    → IsInt fallback
    → Holds IsInt (extract_int_field content name fallback)
unfolding extract_int_field
extract_int_field-IsInt content name fallback h = field_or (int_text content name)
  where
    field_or : (o : Option Bytes) → Holds IsInt (elim o [ none ↦ ok fallback | some t ↦ stoi 10 t ])
    field_or none = Holds-ok _ h
    field_or (some t) = stoi-IsInt 10 t

parse_addr-IsInt :
    (addr ip : Bytes) (port : ℤ)
    → IsInt port
    → Holds (λ (r : Bytes × ℤ). IsInt r.1) (parse_addr addr ip port)
unfolding parse_addr
parse_addr-IsInt addr ip port h =
    elim (is_empty addr)
      as (λ b.
        Holds (λ (r : Bytes × ℤ). IsInt r.1)
          (if b then ok (ip, port) else elim (split_last b':' addr) [
            | none ↦ ok (addr, port)
            | some (host, digits) ↦ do p ← stoi 10 digits; ok (host, p)
          ])) [ true ↦ Holds-ok _ h | false ↦ split_at (split_last b':' addr) ]
  where
    split_at :
        (o : Option (Bytes × Bytes))
        → Holds
            (λ (r : Bytes × ℤ). IsInt r.1)
            (elim o [
              | none ↦ ok (addr, port)
              | some (host, digits) ↦ do p ← stoi 10 digits; ok (host, p)
            ])
    split_at none = Holds-ok _ h
    split_at (some (host, digits)) =
        Holds-bind (stoi 10 digits) _ (stoi-IsInt 10 digits) (λ p i. Holds-ok _ i)

-- The fields that parseDeviceUpsert bounds.
abbrev pub IsFit : DeviceUpsert → Type 0
IsFit u =
    IsInt u.port
    × IsInt u.sample_interval_ms
    × IsInt u.status
    × (is_zero u.port ≡ false)
    × (is_empty u.ip ≡ false)

or_default-IsInt : (z : ℤ) → IsInt z → IsInt (if is_zero z then pos 9001 else z)
or_default-IsInt (pos n) h = ground arith
or_default-IsInt (negsuc n) h = h

or_default-port : (z : ℤ) → is_zero (if is_zero z then pos 9001 else z) ≡ false
or_default-port (pos n) = ground arith
or_default-port (negsuc n) = refl

or_default-ip : (ip : Bytes) → is_empty (if is_empty ip then text "127.0.0.1" else ip) ≡ false
unfolding is_empty text
or_default-ip [] = refl
or_default-ip (c ∷ cs) = refl

-- A device that parseDeviceUpsert reads has a port that is not 0, an address that is not empty, and
-- a port, an interval and a status that fit an int, whatever the request is.
pub parse_device_upsert-IsFit :
    (content : Bytes) (u : DeviceUpsert) → parse_device_upsert content ≡ ok u → IsFit u
unfolding parse_device_upsert
parse_device_upsert-IsFit content u e =
    (Holds-bind {Q = IsFit} (extract_int_field content (text "SampleInterval") (pos 1000)) _
        (extract_int_field-IsInt content (text "SampleInterval") (pos 1000) (omega arith))
        (λ interval i.
          Holds-bind (extract_int_field content (text "status") (pos 1)) _
            (extract_int_field-IsInt content (text "status") (pos 1) (omega arith))
            (λ lower l.
              Holds-bind (extract_int_field content (text "Status") lower) _
                (extract_int_field-IsInt content (text "Status") lower l)
                (λ status s.
                  Holds-bind (extract_int_field content (text "Port") (pos 0)) _
                    (extract_int_field-IsInt content (text "Port") (pos 0) (omega arith))
                    (λ port p. Holds-bind _ _ (parse_addr-IsInt _ _ port p) (λ r a. Holds-ok _ (
                      or_default-IsInt r.1 a,
                      i,
                      s,
                      or_default-port r.1,
                      or_default-ip r.0,
                    ))))))).at
      u e
