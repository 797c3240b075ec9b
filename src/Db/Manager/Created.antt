-- ===== src/Db/Manager/Created.antt =====
-- createDevice, and getDeviceByName behind it.
use collector_service.Db.Manager.AllOrNothing.{exists-cases}
use collector_service.Db.Writes.{statement-Yields}
use collector_service.Db.{Database, Fault, Tables, c_str, prepare, sqlite_call, step_row, tick}
use collector_service.Models.{Device, DeviceUpsert}
use collector_service.Prelude.Result.{err, ok}
use collector_service.Db.DeviceTable.{
  create, inserted_row, find_device, get_by_name, insert_device, or_not_found,
}
use collector_service.Prelude.{
  Bytes, List, Option-cases, [], ap, arith, equal, equal_refl, false, if◌then◌else◌, inl, inr, none,
  refl, some, suc, true, ◌++◌, ◌∷◌, ◌≡◌, Option, ℕ,
}
use collector_service.Prelude.Exec.{pure, raise, returned}
use collector_service.Db.Manager

find_device-append_other :
    (name : Bytes) (ds : List Device) (d : Device)
    → find_device name ds ≡ none
    → find_device name (ds ++ d ∷ []) ≡ (if equal d.name name then some d else none)
unfolding find_device
find_device-append_other name [] d e = refl
find_device-append_other name (x ∷ ds) d e = ground (arith, find_device-append_other name ds d)

pub insert_device-found :
    (u : DeviceUpsert) (t v : Tables)
    → insert_device u t ≡ ok v
    → find_device (c_str u.name) v.devices ≡ some (inserted_row (suc t.device_seq) u)
unfolding insert_device inserted_row
insert_device-found u t v e = elim (Option-cases (find_device (c_str u.name) t.devices)) [
  | inr (d, found) ↦ let bad = rw found at e in cc bad
  | inl free ↦
      let done = rw free at e in
      let same : t.devices ++ inserted_row (suc t.device_seq) u ∷ [] ≡ v.devices =
        ap (λ r. elim r [ ok x ↦ x.devices | err what ↦ [] ]) done in
      rw
        (
          ← same,
          find_device-append_other (c_str u.name) t.devices (inserted_row (suc t.device_seq) u)
              free,
          equal_refl (c_str u.name),
        )
        refl
]

pub create_device-inserts :
    (fault : Fault) (u : DeviceUpsert) (db v : Database)
    → Manager.create_device fault u db ≡ returned tt v
    → insert_device u db.tables ≡ ok v.tables
unfolding Manager.create_device create raise
create_device-inserts fault u db v e = elim (exists-cases fault u.name db) [
  | inr (what, failed) ↦ let bad = rw failed at e in cc bad
  | inl (true, found) ↦ let bad = rw found at e in cc bad
  | inl (false, found) ↦
      let done = rw found at e in
      (statement-Yields fault (insert_device u)).at (tick (tick db)) v done
]

prepare-fine :
    (fault : Fault) (s : Database) → fault s.calls ≡ none → prepare fault s ≡ returned tt (tick s)
unfolding prepare sqlite_call
prepare-fine fault s e = rw (e, prepare, sqlite_call)

step_row-fine :
    {A : Type 0} (fault : Fault) (row : Tables → Option A) (s : Database)
    → fault s.calls ≡ none
    → step_row fault row s ≡ returned (row s.tables) (tick s)
unfolding step_row
step_row-fine fault row s e = rw (e, step_row)

-- A device as createDevice is to store it, under a new Id.
pub record IsCreated (u : DeviceUpsert) (seq : ℕ) (d : Device) : Type 0 where
  pub id : d.id ≡ suc seq
  pub name : d.name ≡ c_str u.name
  pub ip : d.ip ≡ c_str u.ip
  pub port : d.port ≡ u.port
  pub sample_interval_ms : d.sample_interval_ms ≡ u.sample_interval_ms
  pub status : d.status ≡ u.status
  pub model : d.model ≡ c_str u.model
  pub model_version : d.model_version ≡ c_str u.model_version
  pub driver_path : d.driver_path ≡ c_str u.driver_path

inserted_row-IsCreated : (u : DeviceUpsert) (seq : ℕ) → IsCreated u seq (inserted_row (suc seq) u)
unfolding inserted_row
inserted_row-IsCreated u seq = record {
  id = refl;
  name = refl;
  ip = refl;
  port = refl;
  sample_interval_ms = refl;
  status = refl;
  model = refl;
  model_version = refl;
  driver_path = refl;
}

-- A device that createDevice made is read back by getDeviceByName, if the two calls of SQLite behind
-- it do not fail: its numbers are those that were given, its texts are those that were given up to a zero
-- byte, and its Id is the next one.
pub create_device-IsCreated :
    (fault : Fault) (u : DeviceUpsert) (db v : Database)
    → Manager.create_device fault u db ≡ returned tt v
    → fault v.calls ≡ none
    → fault (suc v.calls) ≡ none
    → (d : Device) × (Manager.get_device_by_name fault u.name v ≡ returned d (tick (tick v)))
      × IsCreated u db.tables.device_seq d
unfolding Manager.get_device_by_name get_by_name or_not_found pure
create_device-IsCreated fault u db v e first second =
    let there = insert_device-found u db.tables v.tables (create_device-inserts fault u db v e) in
    (
      inserted_row (suc db.tables.device_seq) u,
      rw (prepare-fine fault v first, Manager.get_device_by_name, get_by_name)
          (rw
            (step_row-fine fault (λ t. find_device (c_str u.name) t.devices) (tick v) second, there)
            refl),
      inserted_row-IsCreated u db.tables.device_seq,
    )
