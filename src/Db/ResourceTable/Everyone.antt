-- ===== src/Db/ResourceTable/Everyone.antt =====
-- cleanupResources beside cleanupResourcesForDevice.
use collector_service.Db.ResourceTable.Trimmed.{IsTrimmed, left-IsTrimmed}
use collector_service.Db.ResourceTable.Retention.{resources_of-Distinct, resources_of-without}
use collector_service.Db.ResourceTable.Rows.{Numbered}
use collector_service.Db.ResourceTable.Order.{IsTimeOrder}
use collector_service.Db.{ResourceRow, Tables}
use collector_service.Prelude.Result.{ok}
use collector_service.Prelude.{
  Bool-cases, Bytes, List, [], arith, equal, equal_iff, inl, inr, refl, ℕ, ◌∷◌, ◌≡◌,
}
use collector_service.Db.ResourceTable.{
  TimeOrder, resources_of, rows_beyond, rows_within, rows_without, trim_all,
}

-- A row that stays in the cleanup of all devices is one that stays in that of its own.
rows_within-without :
    (newest : TimeOrder) (name : Bytes) (bound : ℕ) (all_rows rs : List ResourceRow)
    → resources_of name (rows_within newest bound all_rows rs)
      ≡ resources_of name (rows_without (rows_beyond newest name bound all_rows) rs)
unfolding rows_within rows_without resources_of
rows_within-without newest name bound all_rows [] = refl
rows_within-without newest name bound all_rows (r ∷ rs) =
    let later = rows_within-without newest name bound all_rows rs in
    elim (Bool-cases (equal r.entry.device_name name)) [
      | inl mine ↦
          let same : r.entry.device_name ≡ name = (equal_iff r.entry.device_name name).0 mine in
          rw same (ground (arith, later, mine))
      | inr other ↦ ground (arith, later, other)
    ]

-- The cleanup of all devices trims the rows of each: at most `bound` stay, and just those that stand
-- first by falling time and Id. The other tables and the Ids given are as before. The order of times
-- is total, and the Ids of the table are distinct before.
pub trim_all-IsTrimmed :
    (newest : TimeOrder) (name : Bytes) (bound : ℕ) (t v : Tables)
    → IsTimeOrder newest
    → Numbered t.resource_seq t.resources
    → trim_all newest bound t ≡ ok v
    → IsTrimmed newest bound (resources_of name t.resources) (resources_of name v.resources)
      × (v.devices ≡ t.devices)
      × (v.points ≡ t.points)
      × (v.resource_seq ≡ t.resource_seq)
unfolding trim_all
trim_all-IsTrimmed newest name bound t v order h e =
    let all : rows_within newest bound t.resources t.resources ≡ v.resources = ground arith in
    (
      rw
          (
            ← all,
            rows_within-without newest name bound t.resources t.resources,
            resources_of-without name (rows_beyond newest name bound t.resources) t.resources,
          )
          (unfold rows_beyond in
            left-IsTrimmed newest bound (resources_of name t.resources) order
              (resources_of-Distinct t.resource_seq name t.resources h)),
      ground arith,
      ground arith,
      ground arith,
    )
