-- ===== src/Db/Writes.antt =====
-- The methods of SQLiteManager that write in a transaction, and what each does to the tables.
use collector_service.Db.DeviceTable.{delete_devices, remove}
use collector_service.Db.ResourceTable
use collector_service.Models.{DataPoint, Device, ResourceRecord}
use collector_service.Prelude.Exec.Keeps.{Keeps, Keeps-bind, Keeps-pure}
use collector_service.Db.PointTable.{
  insert_point, insert_points, delete_by_device_name, delete_points, replace_for_device,
}
use collector_service.Db.{Database, Fault, Tables, prepare, step_done, c_str, transaction}
use collector_service.Prelude.{
  List, Option, [], arith, ◌∷◌, ◌≡◌, Bool-cases, Bytes, if◌then◌else◌, inl, inr, is_empty, pos, suc,
  ℤ, none,
}
use collector_service.Prelude.Result.{Result, ok}
use collector_service.Db.Atomic.{
  Yields, and_then, KeepsSaved, AllOrNothing, transaction-AllOrNothing,
}
use collector_service.Db.Statement.{
  Yields-then, prepare-Yields, prepare-Keeps, step_done-Yields, step_done-Keeps,
}
use collector_service.Prelude.Exec.{◌>>◌, pure, Exec, ◌>>◌, ◌>>◌, ◌>>◌, ◌>>◌}
use collector_service.Db.ResourceTable.{
  insert_resource, TimeOrder, insert, insert_rows, trim_all, trim_device,
}

abbrev SavedIs : Option Tables → Database → Type 0
SavedIs o db = db.saved ≡ o

-- The rows that one INSERT after another adds.
unfoldable pub insert_all_points : Device → List DataPoint → Tables → Result Tables
insert_all_points device [] t = ok t
insert_all_points device (p ∷ ps) t =
    and_then (insert_point device p t) (insert_all_points device ps)

unfoldable pub insert_all_resources : List ResourceRecord → Tables → Result Tables
insert_all_resources [] t = ok t
insert_all_resources (r ∷ rs) t = and_then (insert_resource r t) (insert_all_resources rs)

module _ (fault : Fault) where
  statement-Keeps :
      (change : Tables → Result Tables) (o : Option Tables)
      → Keeps (SavedIs o) (do prepare fault; step_done fault change)
  statement-Keeps change o =
      Keeps-bind (prepare fault) _ (prepare-Keeps fault (λ s p. p))
        (λ _. step_done-Keeps fault change (λ s p. p) (λ s t e p. p))

  pub statement-Yields :
      (change : Tables → Result Tables) → Yields change (do prepare fault; step_done fault change)
  statement-Yields change =
      Yields-then ok change (prepare fault) (step_done fault change) (prepare-Yields fault)
        (step_done-Yields fault change)

  insert_points-Keeps :
      (device : Device) (ps : List DataPoint) (o : Option Tables)
      → Keeps (SavedIs o) (insert_points fault device ps)
  unfolding insert_points
  insert_points-Keeps device [] o = Keeps-pure tt
  insert_points-Keeps device (p ∷ ps) o =
      Keeps-bind (prepare fault) _ (prepare-Keeps fault (λ s p. p)) (λ _.
        Keeps-bind (step_done fault (insert_point device p)) _
          (step_done-Keeps fault _ (λ s p. p) (λ s t e p. p))
          (λ _. insert_points-Keeps device ps o))

  pure-Yields : Yields ok (pure tt)
  unfolding pure
  pure-Yields = record { at = λ s t e. ground arith }

  insert_points-Yields :
      (device : Device) (ps : List DataPoint)
      → Yields (insert_all_points device ps) (insert_points fault device ps)
  unfolding insert_points insert_all_points
  insert_points-Yields device [] = record { at = pure-Yields.at }
  insert_points-Yields device (p ∷ ps) = record {
    at =
        (Yields-then ok _ (prepare fault) _ (prepare-Yields fault) (
          Yields-then (insert_point device p) (insert_all_points device ps) _ _
            (step_done-Yields fault (insert_point device p)) (insert_points-Yields device ps))).at;
  }

  insert_rows-Keeps :
      (rs : List ResourceRecord) (o : Option Tables) → Keeps (SavedIs o) (insert_rows fault rs)
  unfolding insert_rows
  insert_rows-Keeps [] o = Keeps-pure tt
  insert_rows-Keeps (r ∷ rs) o = Keeps-bind (prepare fault) _ (prepare-Keeps fault (λ s p. p)) (λ _.
      Keeps-bind (step_done fault (insert_resource r)) _
        (step_done-Keeps fault _ (λ s p. p) (λ s t e p. p)) (λ _. insert_rows-Keeps rs o))

  insert_rows-Yields :
      (rs : List ResourceRecord) → Yields (insert_all_resources rs) (insert_rows fault rs)
  unfolding insert_rows insert_all_resources
  insert_rows-Yields [] = record { at = pure-Yields.at }
  insert_rows-Yields (r ∷ rs) = record {
    at =
        (Yields-then ok _ (prepare fault) _ (prepare-Yields fault) (
          Yields-then (insert_resource r) (insert_all_resources rs) _ _
            (step_done-Yields fault (insert_resource r)) (insert_rows-Yields rs))).at;
  }

-- A call of a method that writes in a transaction.
pub data Write : Type 0 where
  delete_device : Bytes → Write
  replace_data_points : Device → List DataPoint → Write
  insert_resources : List ResourceRecord → Write
  cleanup_resources : ℤ → Write
  cleanup_resources_for_device : Bytes → ℤ → Write

-- The body of its transaction.
unfoldable pub body_of : Fault → TimeOrder → Write → Exec Database (Unit {0})
body_of fault newest (delete_device name) = do delete_by_device_name fault name; remove fault name
body_of fault newest (replace_data_points device points) = replace_for_device fault device points
body_of fault newest (insert_resources records) = insert fault records
body_of fault newest (cleanup_resources max_rows) =
    ResourceTable.cleanup_resources fault newest max_rows
body_of fault newest (cleanup_resources_for_device name max_rows) =
    ResourceTable.cleanup_resources_for_device fault newest name max_rows

-- What it is to do to the tables, with no word of statements and transactions.
unfoldable pub effect : TimeOrder → Write → Tables → Result Tables
effect newest (delete_device name) t =
    and_then (delete_points (c_str name) t) (delete_devices (c_str name))
effect newest (replace_data_points device points) t =
    and_then (delete_points (c_str device.name) t) (insert_all_points device points)
effect newest (insert_resources records) t = insert_all_resources records t
effect newest (cleanup_resources (pos (suc n))) t = trim_all newest (suc n) t
effect newest (cleanup_resources _) t = ok t
effect newest (cleanup_resources_for_device name (pos (suc n))) t =
    if is_empty name then ok t else trim_device newest (c_str name) (suc n) t
effect newest (cleanup_resources_for_device name _) t = ok t

module _ (fault : Fault) (newest : TimeOrder) where
  pub body_of-Keeps : (w : Write) → KeepsSaved (body_of fault newest w)
  unfolding body_of remove delete_by_device_name replace_for_device insert
      ResourceTable.cleanup_resources ResourceTable.cleanup_resources_for_device
  body_of-Keeps (delete_device name) o =
      Keeps-bind _ _ (statement-Keeps fault (delete_points (c_str name)) o)
        (λ _. statement-Keeps fault (delete_devices (c_str name)) o)
  body_of-Keeps (replace_data_points device points) o =
      Keeps-bind _ _ (statement-Keeps fault (delete_points (c_str device.name)) o) (λ _.
        Keeps-bind (prepare fault) _ (prepare-Keeps fault (λ s p. p))
          (λ _. insert_points-Keeps fault device points o))
  body_of-Keeps (insert_resources records) o =
      Keeps-bind (prepare fault) _ (prepare-Keeps fault (λ s p. p))
        (λ _. insert_rows-Keeps fault records o)
  body_of-Keeps (cleanup_resources (pos (suc n))) o =
      statement-Keeps fault (trim_all newest (suc n)) o
  body_of-Keeps (cleanup_resources _) o = Keeps-pure tt
  body_of-Keeps (cleanup_resources_for_device name (pos (suc n))) o =
      elim (Bool-cases (is_empty name)) [
        | inl e ↦ rw e (Keeps-pure tt)
        | inr e ↦ rw e (statement-Keeps fault (trim_device newest (c_str name) (suc n)) o)
      ]
  body_of-Keeps (cleanup_resources_for_device name _) o = Keeps-pure tt

  body_of-Yields : (w : Write) → Yields (effect newest w) (body_of fault newest w)
  unfolding body_of effect remove delete_by_device_name replace_for_device insert
      ResourceTable.cleanup_resources ResourceTable.cleanup_resources_for_device is_empty
  body_of-Yields (delete_device name) = record {
    at =
        (Yields-then (delete_points (c_str name)) (delete_devices (c_str name)) _ _
          (statement-Yields fault _) (statement-Yields fault _)).at;
  }
  body_of-Yields (replace_data_points device points) = record {
    at =
        (Yields-then (delete_points (c_str device.name)) (insert_all_points device points) _ _
          (statement-Yields fault _)
          (record {
            at =
                (Yields-then ok (insert_all_points device points) _ _ (prepare-Yields fault)
                  (insert_points-Yields fault device points)).at;
          })).at;
  }
  body_of-Yields (insert_resources records) = record {
    at =
        (Yields-then ok (insert_all_resources records) _ _ (prepare-Yields fault)
          (insert_rows-Yields fault records)).at;
  }
  body_of-Yields (cleanup_resources (pos (suc n))) = record {
    at = (statement-Yields fault (trim_all newest (suc n))).at;
  }
  body_of-Yields (cleanup_resources _) = record { at = (pure-Yields fault).at }
  body_of-Yields (cleanup_resources_for_device [] (pos (suc n))) = record {
    at = (pure-Yields fault).at;
  }
  body_of-Yields (cleanup_resources_for_device (c ∷ cs) (pos (suc n))) = record {
    at = (statement-Yields fault (trim_device newest (c_str (c ∷ cs)) (suc n))).at;
  }
  body_of-Yields (cleanup_resources_for_device name _) = record { at = (pure-Yields fault).at }

  -- Every write in a transaction does all that it is to do, and leaves no transaction open, or
  -- throws and changes nothing that lasts, whichever calls of SQLite fail on the way.
  pub write-AllOrNothing :
      (w : Write) (db : Database)
      → db.saved ≡ none
      → AllOrNothing (effect newest w) db.tables (transaction fault (body_of fault newest w) db)
  write-AllOrNothing w db closed =
      transaction-AllOrNothing fault (effect newest w) (body_of fault newest w) db (body_of-Keeps w)
        (body_of-Yields w) closed
