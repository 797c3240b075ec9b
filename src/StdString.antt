-- ===== src/StdString.antt =====
-- The searches of std::string that the program calls. A position in a text is the suffix that
-- starts there, and npos is `none`.
pub mod Laws
pub mod Number
use collector_service.Prelude.{
  ℕ, Bytes, Bool, true, false, not, ◌&&◌, ◌||◌, Option, none, some, List, [], ◌∷◌, ◌==◌,
  if◌then◌else◌,
}

-- text.rfind(prefix, 0) == 0, and text.compare(0, prefix.size(), prefix) == 0
unfoldable pub starts_with : Bytes → Bytes → Bool
starts_with [] t = true
starts_with (p ∷ ps) [] = false
starts_with (p ∷ ps) (c ∷ cs) = p == c && starts_with ps cs

-- text.find(key)
unfoldable pub find : Bytes → Bytes → Option Bytes
unfolding starts_with
find [] [] = some []
find (k ∷ ks) [] = none
find key (c ∷ cs) =
    let rest = find key cs in if starts_with key (c ∷ cs) then some (c ∷ cs) else rest

abbrev pub is_found {ℓ} : {A : Type ℓ} → Option A → Bool
is_found none = false
is_found (some a) = true

-- text.find(ch)
unfoldable pub find_char : ℕ → Bytes → Option Bytes
find_char ch [] = none
find_char ch (c ∷ cs) = let rest = find_char ch cs in if c == ch then some (c ∷ cs) else rest

-- Whether a byte is in a set of bytes.
unfoldable pub is_member : Bytes → ℕ → Bool
is_member [] c = false
is_member (x ∷ xs) c = x == c || is_member xs c

-- text.find_first_of(set)
unfoldable pub find_first_of : Bytes → Bytes → Option Bytes
unfolding is_member
find_first_of chars [] = none
find_first_of chars (c ∷ cs) =
    let rest = find_first_of chars cs in if is_member chars c then some (c ∷ cs) else rest

-- text.find_first_not_of(set)
unfoldable pub find_first_not_of : Bytes → Bytes → Option Bytes
unfolding is_member
find_first_not_of chars [] = none
find_first_not_of chars (c ∷ cs) =
    let rest = find_first_not_of chars cs in if is_member chars c then rest else some (c ∷ cs)

-- text.substr(start, text.find_first_not_of(set, start) - start), for a text at `start`
unfoldable pub run_of : Bytes → Bytes → Bytes
unfolding is_member
run_of chars [] = []
run_of chars (c ∷ cs) = let rest = run_of chars cs in if is_member chars c then c ∷ rest else []

-- The text before the first `ch` (all of it, if there is none), and that up to and with it.
unfoldable pub before_char : ℕ → Bytes → Bytes
before_char ch [] = []
before_char ch (c ∷ cs) = let rest = before_char ch cs in if c == ch then [] else c ∷ rest

-- text.find_last_of(ch): the text before it and behind it
unfoldable pub split_last : ℕ → Bytes → Option (Bytes × Bytes)
split_last ch [] = none
split_last ch (c ∷ cs) = elim (split_last ch cs) [
  | none ↦ if c == ch then some ([], cs) else none
  | some (before, after) ↦ some (c ∷ before, after)
]
