-- ===== src/Db/Sound.antt =====
-- The constraints of scripts/init.sql, and the statements that src/db runs on the tables.
-- Device names are unique, and so are a point's device and path; Ids of Resources are unique and at
-- most the last one given.
pub mod Methods
use collector_service.Db.PointTable.Paths.{
  UniquePaths, insert_point-UniquePaths, points_without-UniquePaths,
}
use collector_service.Db.PointTable.Rename.{move_points-UniquePaths}
use collector_service.Db.ResourceTable.{
  TimeOrder, insert_resource, rows_beyond, rows_within, rows_without, trim_all, trim_device,
}
use collector_service.Db.PointTable.{delete_points, insert_point, move_points, points_without}
use collector_service.Db.ResourceTable.Rows.{
  Numbered, insert_resource-Numbered, rows_within-Numbered, rows_without-Numbered,
}
use collector_service.Db.DeviceTable.Names.{
  UniqueNames, insert_device-UniqueNames, update_devices-UniqueNames, without_device-UniqueNames,
}
use collector_service.Db.DeviceTable.{insert_device, delete_devices, update_devices, without_device}
use collector_service.Models.{DeviceUpsert, DataPoint, Device, ResourceRecord}
use collector_service.Prelude.Result.{Result, ok}
use collector_service.Prelude.{some, ◌≡◌, arith, Bytes, ℕ}
use collector_service.Db.{Database, Tables}

pub record IsSound (t : Tables) : Type 0 where
  pub names : UniqueNames t.devices
  pub paths : UniquePaths t.points
  pub rows : Numbered t.resource_seq t.resources

-- A statement that keeps the constraints.
pub record KeepsSound (change : Tables → Result Tables) : Type 0 where
  pub sound : (t v : Tables) → change t ≡ ok v → IsSound t → IsSound v

-- The state of a connection in which also a roll-back leads to sound tables.
pub record IsSoundDb (db : Database) : Type 0 where
  pub now : IsSound db.tables
  pub before : (t : Tables) → db.saved ≡ some t → IsSound t

-- A statement changes one table.
module _ (t v : Tables) where
  abbrev SameRows : Type 0
  SameRows = (v.resources ≡ t.resources) × (v.resource_seq ≡ t.resource_seq)

  devices-IsSound : UniqueNames v.devices → v.points ≡ t.points → SameRows → IsSound t → IsSound v
  devices-IsSound names same rows s = record {
    names = names;
    paths = rw same s.paths;
    rows = rw (rows.0, rows.1) s.rows;
  }

  points-IsSound : UniquePaths v.points → v.devices ≡ t.devices → SameRows → IsSound t → IsSound v
  points-IsSound paths same rows s = record {
    names = rw same s.names;
    paths = paths;
    rows = rw (rows.0, rows.1) s.rows;
  }

  resources-IsSound :
      Numbered v.resource_seq v.resources
      → v.devices ≡ t.devices
      → v.points ≡ t.points
      → IsSound t
      → IsSound v
  resources-IsSound rows devices points s = record {
    names = rw devices s.names;
    paths = rw points s.paths;
    rows = rows;
  }

pub insert_device-KeepsSound : (u : DeviceUpsert) → KeepsSound (insert_device u)
unfolding insert_device
insert_device-KeepsSound u = record {
  sound = λ t v e s.
      devices-IsSound t v (insert_device-UniqueNames u t v s.names e) (ground arith) (ground arith)
        s;
}

pub update_devices-KeepsSound :
    (u : DeviceUpsert) (target : Bytes) → KeepsSound (update_devices u target)
unfolding update_devices
update_devices-KeepsSound u target = record {
  sound = λ t v e s.
      devices-IsSound t v (update_devices-UniqueNames u target t v s.names e) (ground arith)
        (ground arith) s;
}

pub delete_devices-KeepsSound : (name : Bytes) → KeepsSound (delete_devices name)
unfolding delete_devices
delete_devices-KeepsSound name = record {
  sound = λ t v e s.
      devices-IsSound t v
        (let same : v.devices ≡ without_device name t.devices = ground arith in
          rw same (without_device-UniqueNames name t.devices s.names))
        (ground arith) (ground arith) s;
}

pub move_points-KeepsSound : (from to : Bytes) → KeepsSound (move_points from to)
unfolding move_points
move_points-KeepsSound from to = record {
  sound = λ t v e s.
      points-IsSound t v (move_points-UniquePaths from to t v s.paths e) (ground arith)
        (ground arith) s;
}

pub delete_points-KeepsSound : (name : Bytes) → KeepsSound (delete_points name)
unfolding delete_points
delete_points-KeepsSound name = record {
  sound = λ t v e s.
      points-IsSound t v
        (let same : v.points ≡ points_without name t.points = ground arith in
          rw same (points_without-UniquePaths name t.points s.paths))
        (ground arith) (ground arith) s;
}

pub insert_point-KeepsSound : (device : Device) (p : DataPoint) → KeepsSound (insert_point device p)
unfolding insert_point
insert_point-KeepsSound device p = record {
  sound = λ t v e s.
      points-IsSound t v (insert_point-UniquePaths device p t v s.paths e) (ground arith)
        (ground arith) s;
}

pub insert_resource-KeepsSound : (r : ResourceRecord) → KeepsSound (insert_resource r)
unfolding insert_resource
insert_resource-KeepsSound r = record {
  sound = λ t v e s.
      resources-IsSound t v (insert_resource-Numbered r t v s.rows e) (ground arith) (ground arith)
        s;
}

pub trim_device-KeepsSound :
    (newest : TimeOrder) (name : Bytes) (bound : ℕ) → KeepsSound (trim_device newest name bound)
unfolding trim_device
trim_device-KeepsSound newest name bound = record {
  sound = λ t v e s.
      resources-IsSound t v
        (let same : (v.resources
                ≡ rows_without (rows_beyond newest name bound t.resources) t.resources)
              × (v.resource_seq ≡ t.resource_seq) =
            ground arith in
          rw (same.0, same.1)
            (rows_without-Numbered t.resource_seq (rows_beyond newest name bound t.resources)
              t.resources s.rows))
        (ground arith) (ground arith) s;
}

pub trim_all-KeepsSound : (newest : TimeOrder) (bound : ℕ) → KeepsSound (trim_all newest bound)
unfolding trim_all
trim_all-KeepsSound newest bound = record {
  sound = λ t v e s.
      resources-IsSound t v
        (let same : (v.resources ≡ rows_within newest bound t.resources t.resources)
              × (v.resource_seq ≡ t.resource_seq) =
            ground arith in
          rw (same.0, same.1)
            (rows_within-Numbered newest bound t.resources t.resource_seq t.resources s.rows))
        (ground arith) (ground arith) s;
}
