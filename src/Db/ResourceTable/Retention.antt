-- ===== src/Db/ResourceTable/Retention.antt =====
-- What a cleanup of one device leaves of Resources.
-- No row has the Id of a later one.
use collector_service.Db.{ResourceRow}
use collector_service.Db.ResourceTable.Rows.{Numbered}
use collector_service.Db.ResourceTable.{
  TimeOrder, has_row, insert_newest, is_newer, newest_first, resources_of, rows_without,
}
use collector_service.Prelude.{
  Bool-cases, Bytes, List, [], ap, arith, drop, equal, false, inl, inr, length, not, refl, suc,
  take, true, zero, ℕ, ◌&&◌, ◌==◌, ◌∙◌, ◌∷◌, ◌≡◌,
}

abbrev pub Distinct : List ResourceRow → Type 0
Distinct [] = Unit {0}
Distinct (r ∷ rs) = (has_row r.row_id rs ≡ false) × Distinct rs

has_row-insert_newest :
    (newest : TimeOrder) (id : ℕ) (r : ResourceRow) (rs : List ResourceRow)
    → has_row id (insert_newest newest r rs) ≡ has_row id (r ∷ rs)
unfolding has_row insert_newest
has_row-insert_newest newest id r [] = refl
has_row-insert_newest newest id r (x ∷ rs) = elim (Bool-cases (is_newer newest r x)) [
  | inl front ↦ rw front refl
  | inr behind ↦ rw (behind, has_row-insert_newest newest id r rs) (ground arith)
]

pub has_row-newest_first :
    (newest : TimeOrder) (id : ℕ) (rs : List ResourceRow)
    → has_row id (newest_first newest rs) ≡ has_row id rs
unfolding newest_first has_row
has_row-newest_first newest id [] = refl
has_row-newest_first newest id (r ∷ rs) =
    rw
      (
        has_row-insert_newest newest id r (newest_first newest rs),
        has_row-newest_first newest id rs,
      )
      refl

insert_newest-Distinct :
    (newest : TimeOrder) (r : ResourceRow) (rs : List ResourceRow)
    → has_row r.row_id rs ≡ false
    → Distinct rs
    → Distinct (insert_newest newest r rs)
unfolding insert_newest has_row
insert_newest-Distinct newest r [] e d = (refl, tt)
insert_newest-Distinct newest r (x ∷ rs) e d = elim (Bool-cases (is_newer newest r x)) [
  | inl front ↦ rw front (e, d)
  | inr behind ↦
      let other : (r.row_id == x.row_id) ≡ false = ground arith in
      let later : has_row r.row_id rs ≡ false = ground arith in
      rw (behind, has_row-insert_newest newest x.row_id r rs)
        (rw (other, d.0) refl, insert_newest-Distinct newest r rs later d.1)
]

pub newest_first-Distinct :
    (newest : TimeOrder) (rs : List ResourceRow) → Distinct rs → Distinct (newest_first newest rs)
unfolding newest_first
newest_first-Distinct newest [] d = tt
newest_first-Distinct newest (r ∷ rs) d =
    insert_newest-Distinct newest r (newest_first newest rs)
      (has_row-newest_first newest r.row_id rs ∙ d.0) (newest_first-Distinct newest rs d.1)

length-without-insert :
    (newest : TimeOrder) (gone : List ResourceRow) (r : ResourceRow) (rs : List ResourceRow)
    → length (rows_without gone (insert_newest newest r rs)) ≡ length (rows_without gone (r ∷ rs))
unfolding insert_newest rows_without
length-without-insert newest gone r [] = refl
length-without-insert newest gone r (x ∷ rs) =
    ground (arith, length-without-insert newest gone r rs)

pub length-without-newest_first :
    (newest : TimeOrder) (gone rs : List ResourceRow)
    → length (rows_without gone (newest_first newest rs)) ≡ length (rows_without gone rs)
unfolding newest_first rows_without
length-without-newest_first newest gone [] = refl
length-without-newest_first newest gone (r ∷ rs) =
    length-without-insert newest gone r (newest_first newest rs)
    ∙ ground (arith, length-without-newest_first newest gone rs)

pub has_row-without_iff :
    (id : ℕ) (gone rs : List ResourceRow)
    → has_row id (rows_without gone rs) ≡ (has_row id rs && not (has_row id gone))
unfolding has_row rows_without
has_row-without_iff id gone [] = refl
has_row-without_iff id gone (r ∷ rs) = ground (arith, has_row-without_iff id gone rs)

pub resources_of-without :
    (name : Bytes) (gone rs : List ResourceRow)
    → resources_of name (rows_without gone rs) ≡ rows_without gone (resources_of name rs)
unfolding resources_of rows_without
resources_of-without name gone [] = refl
resources_of-without name gone (r ∷ rs) = ground (arith, resources_of-without name gone rs)

pub has_row-resources_of :
    (id : ℕ) (name : Bytes) (rs : List ResourceRow)
    → has_row id rs ≡ false
    → has_row id (resources_of name rs) ≡ false
unfolding has_row resources_of
has_row-resources_of id name [] e = refl
has_row-resources_of id name (r ∷ rs) e = ground (arith, has_row-resources_of id name rs)

pub resources_of-Distinct :
    (last : ℕ) (name : Bytes) (rs : List ResourceRow)
    → Numbered last rs
    → Distinct (resources_of name rs)
unfolding resources_of
resources_of-Distinct last name [] h = tt
resources_of-Distinct last name (r ∷ rs) h = elim (Bool-cases (equal r.entry.device_name name)) [
  | inl own ↦
      rw own (has_row-resources_of r.row_id name rs h.1, resources_of-Distinct last name rs h.2)
  | inr foreign ↦ rw foreign (resources_of-Distinct last name rs h.2)
]

pub has_row-drop :
    (id n : ℕ) (rs : List ResourceRow) → has_row id rs ≡ false → has_row id (drop n rs) ≡ false
unfolding has_row
has_row-drop id zero rs e = e
has_row-drop id (suc n) [] e = refl
has_row-drop id (suc n) (r ∷ rs) e = has_row-drop id n rs (ground arith)

rows_without-all :
    (gone rs : List ResourceRow)
    → ((id : ℕ) → has_row id rs ≡ true → has_row id gone ≡ true)
    → rows_without gone rs ≡ []
unfolding rows_without has_row
rows_without-all gone [] h = refl
rows_without-all gone (r ∷ rs) h =
    rw (h r.row_id (ground arith)) (rows_without-all gone rs (λ id e. h id (ground arith)))

-- Of rows with distinct Ids, those that are not behind the first `n` are the first `n`.
pub rows_without-drop :
    (n : ℕ) (rs : List ResourceRow) → Distinct rs → rows_without (drop n rs) rs ≡ take n rs
unfolding rows_without
rows_without-drop zero rs d = rows_without-all rs rs (λ id e. e)
rows_without-drop (suc n) [] d = refl
rows_without-drop (suc n) (r ∷ rs) d =
    rw (has_row-drop r.row_id n rs d.0) (ap (◌∷◌ r) (rows_without-drop n rs d.1))
