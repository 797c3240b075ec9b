-- ===== src/Db/ResourceTable/Cleanup.antt =====
-- cleanupResourcesForDevice on the table: which rows stay.
use collector_service.Db.ResourceTable.Trimmed.{IsTrimmed, left-IsTrimmed, rows_without-none}
use collector_service.Db.ResourceTable.Order.{IsTimeOrder}
use collector_service.Prelude.Result.{ok}
use collector_service.Db.{ResourceRow, Tables}
use collector_service.Db.ResourceTable.Rows.{Numbered}
use collector_service.Db.ResourceTable.Retention.{
  has_row-drop, has_row-newest_first, has_row-resources_of, resources_of-Distinct,
  resources_of-without,
}
use collector_service.Db.ResourceTable.{
  TimeOrder, has_row, newest_first, resources_of, rows_beyond, rows_without, trim_device,
}
use collector_service.Prelude.{
  Bool-cases, Bytes, List, [], arith, drop, equal, equal_iff, equal_refl, false, inl, inr, refl,
  true, ℕ, ◌∙◌, ◌∷◌, ◌≡◌,
}

-- An Id stands in the rows of one device only.
own_rows :
    (last id : ℕ) (name other : Bytes) (rs : List ResourceRow)
    → equal name other ≡ false
    → Numbered last rs
    → has_row id (resources_of other rs) ≡ true
    → has_row id (resources_of name rs) ≡ false
unfolding has_row resources_of
own_rows last id name other [] ne h e = refl
own_rows last id name other (r ∷ rs) ne h e =
    let before = own_rows last id name other rs ne h.2 in
    let mine = has_row-resources_of r.row_id name rs h.1 in
    let theirs = has_row-resources_of r.row_id other rs h.1 in
    ground (
      arith,
      equal_iff r.entry.device_name name,
      equal_iff r.entry.device_name other,
      equal_refl name,
    )

has_row-take_drop :
    (id n : ℕ) (rs : List ResourceRow) → has_row id (drop n rs) ≡ true → has_row id rs ≡ true
has_row-take_drop id n rs e = elim (Bool-cases (has_row id rs)) [
  | inl there ↦ there
  | inr missing ↦ let bad = has_row-drop id n rs missing in cc (bad, e)
]

-- The rows beyond the bound are rows of the device.
beyond-own :
    (newest : TimeOrder) (name : Bytes) (bound id : ℕ) (rs : List ResourceRow)
    → has_row id (rows_beyond newest name bound rs) ≡ true
    → has_row id (resources_of name rs) ≡ true
unfolding rows_beyond
beyond-own newest name bound id rs e =
    rw (← has_row-newest_first newest id (resources_of name rs))
      (has_row-take_drop id bound (newest_first newest (resources_of name rs)) e)

module _ (newest : TimeOrder) (name : Bytes) (bound last : ℕ) (rs : List ResourceRow) where
  others_kept :
      (other : Bytes)
      → equal name other ≡ false
      → Numbered last rs
      → resources_of other (rows_without (rows_beyond newest name bound rs) rs)
        ≡ resources_of other rs
  others_kept other ne h =
      resources_of-without other (rows_beyond newest name bound rs) rs
      ∙ rows_without-none (rows_beyond newest name bound rs) (resources_of other rs) (λ id e.
        elim (Bool-cases (has_row id (rows_beyond newest name bound rs))) [
          | inr stays ↦ stays
          | inl goes ↦
              let mine = beyond-own newest name bound id rs goes in
              let none_mine = own_rows last id name other rs ne h e in cc (mine, none_mine)
        ])

-- A cleanup of one device trims its rows: at most `bound` stay, and just those that stand first by falling
-- time and Id. The rows of another device, the other tables and the Ids given are as before. The
-- order of times is total, and the Ids of the table are distinct before.
pub trim_device-IsTrimmed :
    (newest : TimeOrder) (name other : Bytes) (bound : ℕ) (t v : Tables)
    → IsTimeOrder newest
    → Numbered t.resource_seq t.resources
    → equal name other ≡ false
    → trim_device newest name bound t ≡ ok v
    → IsTrimmed newest bound (resources_of name t.resources) (resources_of name v.resources)
      × (resources_of other v.resources ≡ resources_of other t.resources)
      × (v.devices ≡ t.devices)
      × (v.points ≡ t.points)
      × (v.resource_seq ≡ t.resource_seq)
unfolding trim_device
trim_device-IsTrimmed newest name other bound t v order h ne e =
    let same : v.resources ≡ rows_without (rows_beyond newest name bound t.resources) t.resources =
      ground arith in
    (
      rw (same, resources_of-without name (rows_beyond newest name bound t.resources) t.resources)
          (unfold rows_beyond in
            left-IsTrimmed newest bound (resources_of name t.resources) order
              (resources_of-Distinct t.resource_seq name t.resources h)),
      rw same (others_kept newest name bound t.resource_seq t.resources other ne h),
      ground arith,
      ground arith,
      ground arith,
    )
