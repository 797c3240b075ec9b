-- ===== src/Db/ResourceTable/Rows.antt =====
-- The Ids of Resources: each statement on the table keeps them distinct, and at most the last one
-- that was given.
-- No row has the Id of a later one, and none has one above `last`.
use collector_service.Prelude.Result.{err, ok}
use collector_service.Db.{ResourceRow, Tables}
use collector_service.Models.{ResourceRecord}
use collector_service.Prelude.{
  Bool-cases, List, [], ap, arith, false, inl, inr, refl, suc, ℕ, ◌++◌, ◌∷◌, ◌≡◌, ◌≢◌, ◌≤◌,
}
use collector_service.Db.ResourceTable.{
  TimeOrder, has_row, insert_resource, rows_beyond, rows_within, rows_without, stored_record,
}

abbrev pub Numbered : ℕ → List ResourceRow → Type 0
Numbered last [] = Unit {0}
Numbered last (r ∷ rs) = (r.row_id ≤ last) × (has_row r.row_id rs ≡ false) × Numbered last rs

Numbered-suc : (last : ℕ) (rs : List ResourceRow) → Numbered last rs → Numbered (suc last) rs
Numbered-suc last [] h = tt
Numbered-suc last (r ∷ rs) h =
    let (below, fresh, rest) = h in (omega arith, fresh, Numbered-suc last rs rest)

has_row-append :
    (id : ℕ) (rs : List ResourceRow) (r : ResourceRow)
    → has_row id rs ≡ false
    → r.row_id ≢ id
    → has_row id (rs ++ r ∷ []) ≡ false
unfolding has_row
has_row-append id [] r e ne = ground arith
has_row-append id (x ∷ rs) r e ne = ground (arith, has_row-append id rs r)

append-Numbered :
    (last : ℕ) (rs : List ResourceRow) (r : ResourceRow)
    → Numbered last rs
    → r.row_id ≡ suc last
    → Numbered (suc last) (rs ++ r ∷ [])
unfolding has_row
append-Numbered last [] r h e = (omega arith, refl, tt)
append-Numbered last (x ∷ rs) r h e =
    let (below, fresh, rest) = h in
    (
      omega arith,
      has_row-append x.row_id rs r fresh (λ p. omega arith),
      append-Numbered last rs r rest e,
    )

pub insert_resource-Numbered :
    (r : ResourceRecord) (t v : Tables)
    → Numbered t.resource_seq t.resources
    → insert_resource r t ≡ ok v
    → Numbered v.resource_seq v.resources
unfolding insert_resource
insert_resource-Numbered r t v h e =
    let rows : t.resources ++ record { row_id = suc t.resource_seq; entry = stored_record r } ∷ []
        ≡ v.resources =
      ap (λ x. elim x [ ok y ↦ y.resources | err what ↦ [] ]) e in
    let seq : suc t.resource_seq ≡ v.resource_seq =
      ap (λ x. elim x [ ok y ↦ y.resource_seq | err what ↦ 0 ]) e in
    rw (← rows, ← seq)
      (append-Numbered t.resource_seq t.resources
        (record { row_id = suc t.resource_seq; entry = stored_record r }) h refl)

has_row-without :
    (id : ℕ) (gone rs : List ResourceRow)
    → has_row id rs ≡ false
    → has_row id (rows_without gone rs) ≡ false
unfolding has_row rows_without
has_row-without id gone [] e = refl
has_row-without id gone (r ∷ rs) e = ground (arith, has_row-without id gone rs)

pub rows_without-Numbered :
    (last : ℕ) (gone rs : List ResourceRow)
    → Numbered last rs
    → Numbered last (rows_without gone rs)
unfolding rows_without
rows_without-Numbered last gone [] h = tt
rows_without-Numbered last gone (r ∷ rs) h = elim (Bool-cases (has_row r.row_id gone)) [
  | inl yes_it_is ↦ rw yes_it_is (rows_without-Numbered last gone rs h.2)
  | inr no_it_is ↦
      rw no_it_is
        (h.0, has_row-without r.row_id gone rs h.1, rows_without-Numbered last gone rs h.2)
]

module _ (newest : TimeOrder) (bound : ℕ) (all_rows : List ResourceRow) where
  has_row-within :
      (id : ℕ) (rs : List ResourceRow)
      → has_row id rs ≡ false
      → has_row id (rows_within newest bound all_rows rs) ≡ false
  unfolding has_row rows_within
  has_row-within id [] e = refl
  has_row-within id (r ∷ rs) e =
      elim (Bool-cases (has_row r.row_id (rows_beyond newest r.entry.device_name bound all_rows))) [
        | inl gone ↦ rw gone (has_row-within id rs (ground arith))
        | inr kept ↦ rw kept (ground (arith, has_row-within id rs))
      ]

  pub rows_within-Numbered :
      (last : ℕ) (rs : List ResourceRow)
      → Numbered last rs
      → Numbered last (rows_within newest bound all_rows rs)
  unfolding rows_within
  rows_within-Numbered last [] h = tt
  rows_within-Numbered last (r ∷ rs) h =
      elim (Bool-cases (has_row r.row_id (rows_beyond newest r.entry.device_name bound all_rows))) [
        | inl gone ↦ rw gone (rows_within-Numbered last rs h.2)
        | inr kept ↦ rw kept (h.0, has_row-within r.row_id rs h.1, rows_within-Numbered last rs h.2)
      ]
