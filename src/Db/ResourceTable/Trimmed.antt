-- ===== src/Db/ResourceTable/Trimmed.antt =====
-- The rows of a device that stay where those beyond the first ones go.
use collector_service.Db.ResourceTable.Order.{
  Before, All-weaker, IsTimeOrder, All-newest_first, InOrder, newest_first-InOrder,
}
use collector_service.Db.{ResourceRow}
use collector_service.Db.ResourceTable.Retention.{
  has_row-drop, has_row-without_iff, length-without-newest_first, newest_first-Distinct,
  rows_without-drop, Distinct,
}
use collector_service.Db.ResourceTable.{TimeOrder, has_row, newest_first, rows_without}
use collector_service.Prelude.{
  Bool-cases, List, [], ap, arith, drop, false, inl, inr, length, length-take-le, refl, sym, take,
  true, ℕ, ◌∙◌, ◌∷◌, ◌≡◌, ◌≤◌, All, suc, zero, ◌⊎◌, not,
}

pub rows_without-none :
    (gone rs : List ResourceRow)
    → ((id : ℕ) → has_row id rs ≡ true → has_row id gone ≡ false)
    → rows_without gone rs ≡ rs
unfolding rows_without has_row
rows_without-none gone [] h = refl
rows_without-none gone (r ∷ rs) h =
    rw (h r.row_id (ground arith))
      (ap (◌∷◌ r) (rows_without-none gone rs (λ id e. h id (ground arith))))

length-take-cases : (n : ℕ) (rs : List ResourceRow) → (length (take n rs) ≡ n) ⊎ (drop n rs ≡ [])
length-take-cases zero rs = inl refl
length-take-cases (suc n) [] = inr refl
length-take-cases (suc n) (r ∷ rs) = elim (length-take-cases n rs) [
  | inl full ↦ inl (ap suc full)
  | inr spent ↦ inr spent
]

rows_without-same :
    (g k rs : List ResourceRow)
    → All (λ r. has_row r.row_id g ≡ has_row r.row_id k) rs
    → rows_without g rs ≡ rows_without k rs
unfolding rows_without
rows_without-same g k [] h = refl
rows_without-same g k (r ∷ rs) h = rw (h.0, rows_without-same g k rs h.1) refl

has_row_self : (rs : List ResourceRow) → All (λ r. has_row r.row_id rs ≡ true) rs
unfolding has_row
has_row_self [] = tt
has_row_self (r ∷ rs) = (ground arith, All-weaker rs (λ x e. ground arith) (has_row_self rs))

All-split :
    (P : ResourceRow → Type 0) (n : ℕ) (rs : List ResourceRow)
    → All P (take n rs)
    → All P (drop n rs)
    → All P rs
All-split P zero rs h k = k
All-split P (suc n) [] h k = tt
All-split P (suc n) (r ∷ rs) h k = (h.0, All-split _ n rs h.1 k)

All-drop : (P : ResourceRow → Type 0) (n : ℕ) (rs : List ResourceRow) → All P rs → All P (drop n rs)
All-drop P zero rs h = h
All-drop P (suc n) [] h = tt
All-drop P (suc n) (r ∷ rs) h = All-drop _ n rs h.1

take-Before :
    (newest : TimeOrder) (n : ℕ) (rs : List ResourceRow)
    → InOrder newest rs
    → All (λ a. All (Before newest a) (drop n rs)) (take n rs)
take-Before newest zero rs h = tt
take-Before newest (suc n) [] h = tt
take-Before newest (suc n) (r ∷ rs) h = (All-drop _ n rs h.0, take-Before newest n rs h.1)

take-Distinct :
    (n : ℕ) (rs : List ResourceRow)
    → Distinct rs
    → All (λ a. has_row a.row_id (drop n rs) ≡ false) (take n rs)
take-Distinct zero rs d = tt
take-Distinct (suc n) [] d = tt
take-Distinct (suc n) (r ∷ rs) d = (has_row-drop r.row_id n rs d.0, take-Distinct n rs d.1)

-- What holds of the rows that are not among `g`.
All-without :
    (P : ResourceRow → Type 0) (g rs : List ResourceRow)
    → All (λ a. has_row a.row_id g ≡ false → P a) rs
    → All P (rows_without g rs)
unfolding rows_without
All-without P g [] h = tt
All-without P g (r ∷ rs) h = elim (Bool-cases (has_row r.row_id g)) [
  | inl gone ↦ rw gone (All-without _ g rs h.1)
  | inr stays ↦ rw stays (h.0 stays, All-without _ g rs h.1)
]

-- What holds of the rows that stay away where those not among `g` stay.
All-gone :
    (P : ResourceRow → Type 0) (g rs : List ResourceRow)
    → All (λ b. has_row b.row_id g ≡ true → P b) rs
    → (k : List ResourceRow) → All (λ b. has_row b.row_id k ≡ not (has_row b.row_id g)) rs
    → All P (rows_without k rs)
unfolding rows_without
All-gone P g [] h k same = tt
All-gone P g (r ∷ rs) h k same = elim (Bool-cases (has_row r.row_id g)) [
  | inl gone ↦ rw (same.0, gone) (h.0 gone, All-gone _ g rs h.1 k same.1)
  | inr stays ↦ rw (same.0, stays) (All-gone _ g rs h.1 k same.1)
]

-- What a cleanup makes of the rows of a device: at most `bound` stay, in the order of the table, and
-- a row goes only where `bound` stay, each of which stands before every one that goes.
pub record IsTrimmed (newest : TimeOrder) (bound : ℕ) (before after : List ResourceRow)
    : Type 0 where
  pub count : length after ≤ bound
  pub full : (length after ≡ bound) ⊎ (after ≡ before)
  pub kept : after ≡ rows_without (rows_without after before) before
  pub first : All (λ a. All (Before newest a) (rows_without after before)) after

module _ (newest : TimeOrder) (bound : ℕ) (rs : List ResourceRow) where
  abbrev ordered : List ResourceRow
  ordered = newest_first newest rs

  abbrev dropped : List ResourceRow
  dropped = drop bound ordered

  abbrev left : List ResourceRow
  left = rows_without dropped rs

  left-length : Distinct rs → length left ≡ length (take bound ordered)
  left-length d =
      sym (length-without-newest_first newest dropped rs)
      ∙ ap length (rows_without-drop bound ordered (newest_first-Distinct newest rs d))

  left-full : Distinct rs → (length left ≡ bound) ⊎ (left ≡ rs)
  unfolding has_row
  left-full d = elim (length-take-cases bound ordered) [
    | inl full ↦ inl (left-length d ∙ full)
    | inr all_of_it ↦ inr (rows_without-none dropped rs (λ id e. rw all_of_it refl))
  ]

  -- Whether a row is gone can be told from what is left.
  gone_at :
      (r : ResourceRow)
      → has_row r.row_id rs ≡ true
      → has_row r.row_id (rows_without left rs) ≡ has_row r.row_id dropped
  gone_at r there =
      rw (has_row-without_iff r.row_id left rs, has_row-without_iff r.row_id dropped rs)
        (ground arith)

  gone_iff : All (λ r. has_row r.row_id (rows_without left rs) ≡ has_row r.row_id dropped) rs
  gone_iff = All-weaker rs gone_at (has_row_self rs)

  left_at :
      (r : ResourceRow)
      → has_row r.row_id rs ≡ true
      → has_row r.row_id left ≡ not (has_row r.row_id dropped)
  left_at r there = rw (has_row-without_iff r.row_id dropped rs) (ground arith)

  left_iff : All (λ r. has_row r.row_id left ≡ not (has_row r.row_id dropped)) rs
  left_iff = All-weaker rs left_at (has_row_self rs)

  left-kept : left ≡ rows_without (rows_without left rs) rs
  left-kept = sym (rows_without-same (rows_without left rs) dropped rs gone_iff)

  -- A row that stays stands before all that go.
  stays_in_front :
      IsTimeOrder newest
      → Distinct ordered
      → All (λ a. has_row a.row_id dropped ≡ false → All (Before newest a) dropped) ordered
  stays_in_front order d =
      All-split _ bound ordered
        (All-weaker (take bound ordered) (λ a h out. h)
          (take-Before newest bound ordered (newest_first-InOrder newest order rs)))
        (All-weaker dropped (λ a there out. cc (there, out)) (has_row_self dropped))

  gone_too :
      (a : ResourceRow)
      → Distinct ordered
      → All (Before newest a) dropped
      → All (λ b. has_row b.row_id dropped ≡ true → Before newest a b) ordered
  gone_too a d h =
      All-split _ bound ordered
        (All-weaker (take bound ordered) (λ b out there. cc (there, out))
          (take-Distinct bound ordered d))
        (All-weaker dropped (λ b before there. before) h)

  left-first :
      IsTimeOrder newest
      → Distinct rs
      → All (λ a. All (Before newest a) (rows_without left rs)) left
  left-first order d =
      let d' = newest_first-Distinct newest rs d in
      All-weaker left
        (λ a h.
          All-gone _ dropped rs (All-newest_first _ newest rs (gone_too a d' h)) left left_iff)
        (All-without _ dropped rs (All-newest_first _ newest rs (stays_in_front order d')))

  pub left-IsTrimmed : IsTimeOrder newest → Distinct rs → IsTrimmed newest bound rs left
  left-IsTrimmed order d = record {
    count = rw (left-length d) (length-take-le bound ordered);
    full = left-full d;
    kept = left-kept;
    first = left-first order d;
  }
