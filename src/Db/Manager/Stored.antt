-- ===== src/Db/Manager/Stored.antt =====
-- What insertResources does to the table Resources.
use collector_service.Db.Writes.{insert_all_resources}
use collector_service.Models.{ResourceRecord}
use collector_service.Db.ResourceTable.{insert_resource, stored_record}
use collector_service.Prelude.Result.{ok}
use collector_service.Db.{ResourceRow, Tables, c_str}
use collector_service.Prelude.{
  List, [], append-nil, append_assoc, arith, length, suc, ℕ, ◌++◌, ◌+◌, ◌∷◌, ◌≡◌,
}

-- The columns of a record, texts as far as their first zero byte.
abbrev columns_of : ResourceRecord → ResourceRecord
columns_of r = record {
  device_name = c_str r.device_name;
  data_item_name_path = c_str r.data_item_name_path;
  content = c_str r.content;
  dev_time = r.dev_time;
  svr_time = r.svr_time;
  data_item_path = c_str r.data_item_path;
  data_item_name = c_str r.data_item_name;
  data_item_description = c_str r.data_item_description;
}

-- The rows of the records, whose Ids go on from the last one given.
unfoldable pub numbered_rows : ℕ → List ResourceRecord → List ResourceRow
numbered_rows last [] = []
numbered_rows last (r ∷ rs) =
    record { row_id = suc last; entry = columns_of r } ∷ numbered_rows (suc last) rs

-- The tables with the records added to Resources.
unfoldable pub with_records : List ResourceRecord → Tables → Tables
with_records rs t = record t {
  resources = t.resources ++ numbered_rows t.resource_seq rs;
  resource_seq = t.resource_seq + length rs;
}

pub insert_all_resources-with_records :
    (rs : List ResourceRecord) (t : Tables) → insert_all_resources rs t ≡ ok (with_records rs t)
unfolding insert_all_resources with_records numbered_rows insert_resource stored_record
insert_all_resources-with_records [] t = rw (append-nil t.resources) (ground arith)
insert_all_resources-with_records (r ∷ rs) t =
    let row : ResourceRow = record { row_id = suc t.resource_seq; entry = stored_record r } in
    rw
      (
        insert_all_resources-with_records rs
            (record t { resources = t.resources ++ row ∷ []; resource_seq = suc t.resource_seq }),
        append_assoc t.resources (row ∷ []) (numbered_rows (suc t.resource_seq) rs),
      )
      (ground arith)
