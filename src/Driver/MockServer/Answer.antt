-- ===== src/Driver/MockServer/Answer.antt =====
-- The answer of the mock driver, as processResponse takes it apart.
use collector_service.Driver.MockServer.Search.{tokens-Differ}
use mathlib.Core.Path.{subst}
use collector_service.StdString.Laws.{find-append}
use collector_service.Command.Field.{quoted_key}
use collector_service.StdString.{find, starts_with}
use collector_service.Util.Json.{comma_separated, escape_json}
use collector_service.Models.{Double}
use collector_service.Prelude.{
  Bool, Bytes, List, [], ap, append_assoc, equal, false, refl, some, ◌++◌, ◌||◌, ◌∙◌, ◌∷◌, ◌≡◌, ◌≢◌,
  All, Bool-cases, arith, equal_iff, inl, inr, sym, true,
}
use collector_service.Driver.MockServer.{path_items, path_json, item_name_from_path}
use collector_service.Driver.MockServer.Tokens.{skip_quoted, skip_tokens}
use collector_service.Driver.MockServer.Object.{item_tokens, object_text, item_text, path_json-text}
use collector_service.Driver.MockServer.Paths.{IsPath, IsPrinted, escape_json-plain}
use collector_service.Command.Field.RoundTrip.{IsKey, NoQuote}

IsKey-NoQuote : (v : Bytes) → IsKey v → NoQuote v
IsKey-NoQuote [] h = tt
IsKey-NoQuote (c ∷ v) h = (h.0.0, IsKey-NoQuote v h.1)

-- Whether a path is in a list.
unfoldable pub contains : Bytes → List Bytes → Bool
contains path [] = false
contains path (x ∷ xs) = equal x path || contains path xs

skip_comma :
    (inner t : Bytes)
    → find (quoted_key (b'/' ∷ inner)) (b',' ∷ t) ≡ find (quoted_key (b'/' ∷ inner)) t
unfolding find starts_with quoted_key
skip_comma inner t = refl

module _ (fixed_text : Double → Bytes) (timestamp : Double)
    (numeric : IsPrinted fixed_text timestamp) where
  abbrev pub items_text : List Bytes → Bytes → Bytes
  items_text [] rest = rest
  items_text (x ∷ []) rest = item_text fixed_text timestamp x rest
  items_text (x ∷ y ∷ ys) rest = item_text fixed_text timestamp x (b',' ∷ items_text (y ∷ ys) rest)

  pub items-text :
      (paths : List Bytes) (rest : Bytes)
      → comma_separated (path_items fixed_text timestamp paths) ++ rest ≡ items_text paths rest
  unfolding path_items comma_separated
  items-text [] rest = refl
  items-text (x ∷ []) rest = path_json-text fixed_text timestamp x rest
  items-text (x ∷ y ∷ ys) rest =
      append_assoc (path_json fixed_text timestamp x)
        (b',' ∷ comma_separated (path_items fixed_text timestamp (y ∷ ys))) rest
      ∙ path_json-text fixed_text timestamp x
          (b',' ∷ (comma_separated (path_items fixed_text timestamp (y ∷ ys)) ++ rest))
      ∙ ap (λ t. item_text fixed_text timestamp x (b',' ∷ t)) (items-text (y ∷ ys) rest)

  -- Past the item of another path.
  skip_item :
      (inner x rest : Bytes)
      → IsPath (b'/' ∷ inner)
      → IsPath x
      → x ≢ b'/' ∷ inner
      → find (quoted_key (b'/' ∷ inner)) (item_text fixed_text timestamp x rest)
        ≡ find (quoted_key (b'/' ∷ inner)) rest
  unfolding find starts_with quoted_key
  skip_item inner x rest p q ne =
      let end = b'"' ∷ (escape_json (item_name_from_path x) ++ (b'"' ∷ b'}' ∷ rest)) in
      skip_quoted b'/' inner x b':' (object_text fixed_text timestamp x rest) p.key
        (IsKey-NoQuote x q.key) ne (omega arith)
      ∙ skip_tokens b'/' inner (item_tokens fixed_text timestamp x) end p.key
          (tokens-Differ fixed_text timestamp numeric x q inner p.no_colon)
      ∙ skip_quoted b'/' inner (item_name_from_path x) b'}' rest p.key q.name_clean
          (λ e. (subst (All (λ c. c ≢ b'/')) e q.name_flat).0 refl) (omega arith)

  -- At the item of the path itself.
  at_item :
      (path rest : Bytes)
      → IsPath path
      → find (quoted_key path) (item_text fixed_text timestamp path rest)
        ≡ some (quoted_key path ++ (b':' ∷ object_text fixed_text timestamp path rest))
  unfolding quoted_key
  at_item path rest p =
      let behind = b':' ∷ object_text fixed_text timestamp path rest in
      ap (λ v. find (quoted_key path) (b'"' ∷ (v ++ (b'"' ∷ behind))))
        (escape_json-plain path p.key p.plain)
      ∙ ap (λ v. find (quoted_key path) (b'"' ∷ v)) (sym (append_assoc path (b'"' ∷ []) behind))
      ∙ find-append b'"' (path ++ b'"' ∷ []) behind

  -- Some item of the path among those of the list.
  abbrev pub IsFoundIn : Bytes → Bytes → Type 0
  IsFoundIn path t =
      (rest : Bytes) × (find (quoted_key path) t
        ≡ some (quoted_key path ++ (b':' ∷ object_text fixed_text timestamp path rest)))

  at_or_behind :
      (inner x t : Bytes)
      → IsPath (b'/' ∷ inner)
      → IsPath x
      → (equal x (b'/' ∷ inner) ≡ false → IsFoundIn (b'/' ∷ inner) t)
      → IsFoundIn (b'/' ∷ inner) (item_text fixed_text timestamp x t)
  at_or_behind inner x t p q later = elim (Bool-cases (equal x (b'/' ∷ inner))) [
    | inl same ↦
        let e : x ≡ b'/' ∷ inner = (equal_iff x (b'/' ∷ inner)).0 same in
        (
          t,
          ap (λ y. find (quoted_key (b'/' ∷ inner)) (item_text fixed_text timestamp y t)) e
              ∙ at_item (b'/' ∷ inner) t p,
        )
    | inr other ↦
        let (rest, f) = later other in
        (
          rest,
          skip_item inner x t p q
                (λ e. let bad = (equal_iff x (b'/' ∷ inner)).1 e in cc (bad, other))
              ∙ f,
        )
  ]

  pub items-found :
      (inner : Bytes) (paths : List Bytes) (rest : Bytes)
      → IsPath (b'/' ∷ inner)
      → All IsPath paths
      → contains (b'/' ∷ inner) paths ≡ true
      → IsFoundIn (b'/' ∷ inner) (items_text paths rest)
  unfolding contains
  items-found inner [] rest p h m = cc m
  items-found inner (x ∷ []) rest p h m =
      at_or_behind inner x rest p h.0 (λ other. let bad = rw other at m in cc bad)
  items-found inner (x ∷ y ∷ ys) rest p h m =
      at_or_behind inner x (b',' ∷ items_text (y ∷ ys) rest) p h.0 (λ other.
        let m' = rw other at m in
        let (end, f) = items-found inner (y ∷ ys) rest p h.1 m' in
        (end, skip_comma inner (items_text (y ∷ ys) rest) ∙ f))
