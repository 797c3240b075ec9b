-- ===== src/Db/PointTable.antt =====
-- src/db/DataPointRepository.cpp: the DataPoint table.
pub mod Paths
pub mod Rename
use collector_service.Models.{DataPoint, Device}
use collector_service.Prelude.Result.{Result, err, ok}
use collector_service.Db.{Database, Fault, Tables, c_str, prepare, step_done, step_rows}
use collector_service.Prelude.{
  Bool, Bytes, List, [], equal, false, if◌then◌else◌, not, suc, text, ℕ, ◌&&◌, ◌++◌, ◌||◌, ◌∷◌,
}
use collector_service.Prelude.Exec.{◌>>◌, Exec, pure}

unfoldable pub points_of : Bytes → List DataPoint → List DataPoint
points_of name [] = []
points_of name (p ∷ ps) =
    let rest = points_of name ps in if equal p.device_name name then p ∷ rest else rest

unfoldable pub points_without : Bytes → List DataPoint → List DataPoint
points_without name [] = []
points_without name (p ∷ ps) =
    let rest = points_without name ps in if equal p.device_name name then rest else p ∷ rest

-- Whether a row has this DName and NamePath.
unfoldable pub has_point : Bytes → Bytes → List DataPoint → Bool
has_point name path [] = false
has_point name path (p ∷ ps) =
    equal p.device_name name && equal p.name_path path || has_point name path ps

abbrev pub unique_point : Bytes
unique_point = text "UNIQUE constraint failed: DataPoint.DName, DataPoint.NamePath"

-- DELETE FROM DataPoint WHERE DName = ?
unfoldable pub delete_points : Bytes → Tables → Result Tables
unfolding points_without
delete_points name t = ok (record t { points = points_without name t.points })

unfoldable pub rename_points : Bytes → Bytes → List DataPoint → List DataPoint
rename_points from to [] = []
rename_points from to (p ∷ ps) =
    (if equal p.device_name from then record p { device_name = to } else p)
    ∷ rename_points from to ps

-- Whether a row of `from` has the path of a row of `to`.
unfoldable pub rename_clashes : Bytes → Bytes → List DataPoint → List DataPoint → Bool
unfolding has_point
rename_clashes from to all_points [] = false
rename_clashes from to all_points (p ∷ ps) =
    equal p.device_name from && has_point to p.name_path all_points
    || rename_clashes from to all_points ps

-- UPDATE DataPoint SET DName = to WHERE DName = from
unfoldable pub move_points : Bytes → Bytes → Tables → Result Tables
unfolding rename_points rename_clashes
move_points from to t =
    if not (equal from to) && rename_clashes from to t.points t.points
    then err unique_point
    else ok (record t { points = rename_points from to t.points })

-- The row that INSERT INTO DataPoint writes.
unfoldable pub point_row : ℕ → Device → DataPoint → DataPoint
unfolding c_str
point_row id device p = record {
  id = id;
  device_id = device.id;
  device_name = c_str device.name;
  name_path = c_str p.name_path;
  item_path = c_str p.item_path;
  item_name = c_str p.item_name;
  item_description = c_str p.item_description;
}

-- INSERT INTO DataPoint
unfoldable pub insert_point : Device → DataPoint → Tables → Result Tables
unfolding has_point point_row
insert_point device p t =
    if has_point (c_str device.name) (c_str p.name_path) t.points
    then err unique_point
    else ok (record t {
      points = t.points ++ point_row (suc t.point_seq) device p ∷ [];
      point_seq = suc t.point_seq;
    })

module _ (fault : Fault) where
  -- DataPointRepository::deleteByDeviceName
  unfoldable pub delete_by_device_name : Bytes → Exec Database (Unit {0})
  unfolding prepare step_done
  delete_by_device_name name = do prepare fault; step_done fault (delete_points (c_str name))

  -- DataPointRepository::renameDevice
  unfoldable pub rename_device : Bytes → Bytes → Exec Database (Unit {0})
  unfolding prepare step_done
  rename_device from to = do prepare fault; step_done fault (move_points (c_str from) (c_str to))

  -- The loop of replaceForDevice.
  unfoldable pub insert_points : Device → List DataPoint → Exec Database (Unit {0})
  unfolding prepare step_done
  insert_points device [] = pure tt
  insert_points device (p ∷ ps) = do
    prepare fault
    step_done fault (insert_point device p)
    insert_points device ps

  -- DataPointRepository::replaceForDevice
  unfoldable pub replace_for_device : Device → List DataPoint → Exec Database (Unit {0})
  unfolding delete_by_device_name prepare insert_points
  replace_for_device device points = do
    delete_by_device_name device.name
    prepare fault
    insert_points device points

  -- DataPointRepository::getByDeviceName
  unfoldable pub get_by_device_name : Bytes → Exec Database (List DataPoint)
  unfolding prepare step_rows
  get_by_device_name name = do prepare fault; step_rows fault (λ t. points_of (c_str name) t.points)
