-- ===== src/Db/Reads.antt =====
-- The methods of src/db that read change nothing but the count of the calls.
use collector_service.Models.{Device}
use collector_service.Db.{Database, Fault, Tables, fetch, prepare, step_row, step_rows, tick}
use collector_service.StdString.{is_found}
use collector_service.Prelude.Exec.Keeps.{Keeps, Keeps-bind, Keeps-pure, Keeps-raise}
use collector_service.Db.PointTable.{get_by_device_name}
use collector_service.Db.DeviceTable.{exists, get_all, get_by_name, or_not_found}
use collector_service.Db.Statement.{IgnoresCalls, prepare-Keeps, step_row-Keeps}
use collector_service.Db.ResourceTable.{TimeOrder, get_latest}
use collector_service.Prelude.{
  Bytes, List, Option, Option-cases, [], inl, inr, none, some, ◌∷◌, ◌≡◌,
}

module _ (fault : Fault) {P : Database → Type 0} (ticked : IgnoresCalls P) where
  fetch-Keeps : {A : Type 0} (rows : List A) → Keeps P (fetch fault rows)
  unfolding fetch
  fetch-Keeps [] = record { at = λ s h. ticked s h }
  fetch-Keeps (row ∷ rows) = record {
    at = λ s h. elim (Option-cases (fault s.calls)) [
      | inl fine ↦
          rw (fine, fetch)
            ((Keeps-bind (fetch fault rows) _ (fetch-Keeps rows)
                (λ fetched. Keeps-pure (row ∷ fetched))).at
              (tick s) (ticked s h))
      | inr (what, failed) ↦ rw (failed, fetch) (ticked s h)
    ];
  }

  step_rows-Keeps : {A : Type 0} (rows : Tables → List A) → Keeps P (step_rows fault rows)
  unfolding step_rows
  step_rows-Keeps rows = record { at = λ s h. (fetch-Keeps (rows s.tables)).at s h }

  pub exists-Keeps : (name : Bytes) → Keeps P (exists fault name)
  unfolding exists
  exists-Keeps name = Keeps-bind (prepare fault) _ (prepare-Keeps fault ticked) (λ _.
      Keeps-bind (step_row fault _) _ (step_row-Keeps fault _ ticked)
        (λ row. Keeps-pure (is_found row)))

  or_not_found-Keeps : (name : Bytes) (o : Option Device) → Keeps P (or_not_found name o)
  unfolding or_not_found
  or_not_found-Keeps name none = Keeps-raise _
  or_not_found-Keeps name (some d) = Keeps-pure d

  pub get_by_name-Keeps : (name : Bytes) → Keeps P (get_by_name fault name)
  unfolding get_by_name
  get_by_name-Keeps name = Keeps-bind (prepare fault) _ (prepare-Keeps fault ticked) (λ _.
      Keeps-bind (step_row fault _) _ (step_row-Keeps fault _ ticked)
        (λ row. or_not_found-Keeps name row))

  pub get_all-Keeps : Keeps P (get_all fault)
  unfolding get_all
  get_all-Keeps = Keeps-bind (prepare fault) _ (prepare-Keeps fault ticked) (λ _. step_rows-Keeps _)

  pub get_by_device_name-Keeps : (name : Bytes) → Keeps P (get_by_device_name fault name)
  unfolding get_by_device_name
  get_by_device_name-Keeps name =
      Keeps-bind (prepare fault) _ (prepare-Keeps fault ticked) (λ _. step_rows-Keeps _)

  pub get_latest-Keeps :
      (newest : TimeOrder) (name : Bytes) → Keeps P (get_latest fault newest name)
  unfolding get_latest
  get_latest-Keeps newest name =
      Keeps-bind (prepare fault) _ (prepare-Keeps fault ticked) (λ _. step_rows-Keeps _)

-- The database is `d`, but for the calls it counted.
pub record SameTables (d db : Database) : Type 0 where
  pub tables : db.tables ≡ d.tables
  pub saved : db.saved ≡ d.saved

pub SameTables-ticked : (d : Database) → IgnoresCalls (SameTables d)
SameTables-ticked d s h = record { tables = h.tables; saved = h.saved }
