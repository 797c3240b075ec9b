-- ===== src/Db/ResourceTable.antt =====
-- src/db/ResourceRepository.cpp and src/db/ResourceRetentionService.cpp: the Resources table.
pub mod Rows
pub mod Retention
pub mod Order
pub mod Trimmed
pub mod Cleanup
pub mod Everyone
use collector_service.Prelude.Result.{Result, ok}
use collector_service.Db.{
  Database, Fault, ResourceRow, Tables, c_str, prepare, step_done, step_rows,
}
use collector_service.Prelude.{
  Bool, Bytes, List, [], equal, if◌then◌else◌, is_empty, leb, map, not, pos, suc, take, ℕ, ℤ, ◌&&◌,
  ◌++◌, ◌==◌, ◌||◌, ◌∷◌, drop, false,
}
use collector_service.Models.{Double, ResourceRecord}
use collector_service.Prelude.Exec.{◌>>◌, Exec, pure}

-- ORDER BY SvrTime DESC: whether one time stands before or level with another. The order of REAL
-- values is SQLite's, so it is an argument; a law that a theorem needs is a hypothesis of it.
abbrev pub TimeOrder : Type 0
TimeOrder = Double → Double → Bool

-- The row that INSERT INTO Resources writes.
unfoldable pub stored_record : ResourceRecord → ResourceRecord
unfolding c_str
stored_record r = record {
  device_name = c_str r.device_name;
  data_item_name_path = c_str r.data_item_name_path;
  content = c_str r.content;
  dev_time = r.dev_time;
  svr_time = r.svr_time;
  data_item_path = c_str r.data_item_path;
  data_item_name = c_str r.data_item_name;
  data_item_description = c_str r.data_item_description;
}

-- INSERT INTO Resources
unfoldable pub insert_resource : ResourceRecord → Tables → Result Tables
unfolding stored_record
insert_resource r t = ok (record t {
  resources = t.resources ++ record { row_id = suc t.resource_seq; entry = stored_record r } ∷ [];
  resource_seq = suc t.resource_seq;
})

unfoldable pub resources_of : Bytes → List ResourceRow → List ResourceRow
resources_of name [] = []
resources_of name (r ∷ rs) =
    let rest = resources_of name rs in if equal r.entry.device_name name then r ∷ rest else rest

-- Whether `a` stands in front of `b` under ORDER BY SvrTime DESC, Id DESC.
unfoldable pub is_newer : TimeOrder → ResourceRow → ResourceRow → Bool
is_newer newest a b =
    newest a.entry.svr_time b.entry.svr_time
    && (not (newest b.entry.svr_time a.entry.svr_time) || leb b.row_id a.row_id)

unfoldable pub insert_newest : TimeOrder → ResourceRow → List ResourceRow → List ResourceRow
unfolding is_newer
insert_newest newest r [] = r ∷ []
insert_newest newest r (x ∷ xs) =
    let rest = x ∷ insert_newest newest r xs in if is_newer newest r x then r ∷ x ∷ xs else rest

unfoldable pub newest_first : TimeOrder → List ResourceRow → List ResourceRow
unfolding insert_newest
newest_first newest [] = []
newest_first newest (r ∷ rs) = insert_newest newest r (newest_first newest rs)

-- Id IN (…)
unfoldable pub has_row : ℕ → List ResourceRow → Bool
has_row id [] = false
has_row id (r ∷ rs) = r.row_id == id || has_row id rs

-- The rows whose Id is none of those of `dead`.
unfoldable pub rows_without : List ResourceRow → List ResourceRow → List ResourceRow
unfolding has_row
rows_without dead [] = []
rows_without dead (r ∷ rs) =
    let rest = rows_without dead rs in if has_row r.row_id dead then rest else r ∷ rest

-- The rows of a device with ROW_NUMBER() OVER (ORDER BY SvrTime DESC, Id DESC) above `bound`.
unfoldable pub rows_beyond : TimeOrder → Bytes → ℕ → List ResourceRow → List ResourceRow
unfolding newest_first resources_of
rows_beyond newest name bound rows = drop bound (newest_first newest (resources_of name rows))

-- DELETE FROM Resources WHERE Id IN (… WHERE DeviceName = ?) WHERE rn > ?
unfoldable pub trim_device : TimeOrder → Bytes → ℕ → Tables → Result Tables
unfolding rows_without rows_beyond
trim_device newest name bound t =
    ok (record t {
      resources = rows_without (rows_beyond newest name bound t.resources) t.resources;
    })

-- The rows that stay where each is numbered among the rows of its own device.
unfoldable pub rows_within : TimeOrder → ℕ → List ResourceRow → List ResourceRow → List ResourceRow
unfolding has_row rows_beyond
rows_within newest bound all_rows [] = []
rows_within newest bound all_rows (r ∷ rs) =
    let rest = rows_within newest bound all_rows rs in
    if has_row r.row_id (rows_beyond newest r.entry.device_name bound all_rows)
    then rest
    else r ∷ rest

-- DELETE FROM Resources WHERE Id IN (… PARTITION BY DeviceName …) WHERE rn > ?
unfoldable pub trim_all : TimeOrder → ℕ → Tables → Result Tables
unfolding rows_within
trim_all newest bound t =
    ok (record t { resources = rows_within newest bound t.resources t.resources })

module _ (fault : Fault) where
  -- ResourceRepository::insert; one statement serves all records.
  unfoldable pub insert_rows : List ResourceRecord → Exec Database (Unit {0})
  unfolding prepare step_done
  insert_rows [] = pure tt
  insert_rows (r ∷ rs) = do prepare fault; step_done fault (insert_resource r); insert_rows rs

  unfoldable pub insert : List ResourceRecord → Exec Database (Unit {0})
  unfolding prepare insert_rows
  insert records = do prepare fault; insert_rows records

  -- ResourceRepository::getLatest
  unfoldable pub get_latest : TimeOrder → Bytes → Exec Database (List ResourceRecord)
  unfolding prepare step_rows newest_first resources_of
  get_latest newest name = do
    prepare fault
    step_rows fault (λ t.
        map (λ r. r.entry) (take 100 (newest_first newest (resources_of (c_str name) t.resources))))

  -- ResourceRetentionService::cleanupResources
  unfoldable pub cleanup_resources : TimeOrder → ℤ → Exec Database (Unit {0})
  unfolding prepare step_done
  cleanup_resources newest (pos (suc n)) = do
    prepare fault
    step_done fault (trim_all newest (suc n))
  cleanup_resources newest _ = pure tt

  -- ResourceRetentionService::cleanupResourcesForDevice
  unfoldable pub cleanup_resources_for_device : TimeOrder → Bytes → ℤ → Exec Database (Unit {0})
  unfolding prepare step_done is_empty
  cleanup_resources_for_device newest name (pos (suc n)) =
      if is_empty name
      then pure tt
      else do prepare fault; step_done fault (trim_device newest (c_str name) (suc n))
  cleanup_resources_for_device newest name _ = pure tt
