-- ===== src/Db/Registry/Methods.antt =====
-- createDevice and updateDevice of src/SQLiteManager.cpp on the registry.
use collector_service.Db.Manager.Constraints.{Request}
use collector_service.Models.{Device, DeviceUpsert}
use collector_service.Db.Registry.{act}
use collector_service.Db.PointTable.{delete_by_device_name, move_points, rename_device}
use collector_service.Db.Statement.{prepare-Keeps, step_done-Keeps, step_row-cases}
use collector_service.Db.DeviceTable.{
  create, exists, find_device, get_by_name, insert_device, or_not_found, update, update_devices,
}
use collector_service.Prelude.Exec.Triple.{
  Post, Triple, Triple-bind, Triple-fact, Triple-if, Triple-invariant, Triple-raise, Triple-weaken,
}
use collector_service.Db.Registry.Statements.{insert_device-registry, update_devices-registry}
use collector_service.Prelude.Result.{Result, ok}
use collector_service.Db.Reads.{exists-Keeps}
use collector_service.Db.Registry.Logic.{
  Before, Before-Failed, Before-ticked, Done, Done-Failed, Done-ticked, delete_points-devices,
  move_points-devices, statement_of,
}
use collector_service.Prelude.Exec.Keeps.{Keeps, Keeps-bind, Keeps-if, Keeps-pure}
use collector_service.Prelude.{
  Bytes, List, Option, equal, false, if◌then◌else◌, inl, inr, none, not, refl, some, sym, ◌≡◌, ◌⊎◌,
}
use collector_service.Db.{Database, Fault, Tables, c_str, prepare, step_done, tick}
use collector_service.Db.Manager
use collector_service.Db.Registry.Logic.{Failed}
use collector_service.Db.Manager.{target_name}
use collector_service.Prelude.Exec.{◌>>◌, pure, raise, ◌>>◌, ◌>>◌}

module _ (fault : Fault) (ds : List Device) where
  pub creates-Triple :
      (u : DeviceUpsert)
      → Triple
          (Before ds)
          (λ (x : Unit {0}). Done (Request.creates u) ds)
          (Failed (Request.creates u) ds)
          (Manager.create_device fault u)
  unfolding Manager.create_device create act
  creates-Triple u =
      Triple-bind (exists fault u.name) _
        (Triple-invariant {Q = λ found. Before ds} (exists fault u.name)
          (exists-Keeps fault (Before-ticked ds) u.name) (λ s b. b) (λ a s b. b)
          (λ s b. Before-Failed (Request.creates u) ds s b))
        (λ found.
          Triple-if found _ _ (Triple-raise _ (λ s b. Before-Failed (Request.creates u) ds s b)) (
            statement_of fault ds (Request.creates u) (insert_device u)
              (λ t v name same made. rw (← same) (insert_device-registry u t v name made))))

  -- The statements on the points, in an update whose device is done.
  points_kept :
      (q : Request) (change : Tables → Result Tables)
      → ((t v : Tables) → change t ≡ ok v → v.devices ≡ t.devices)
      → Keeps (Done q ds) (do prepare fault; step_done fault change)
  points_kept q change h =
      Keeps-bind (prepare fault) _ (prepare-Keeps fault (Done-ticked q ds)) (λ _.
        step_done-Keeps fault change (Done-ticked q ds) (λ s t e d. record {
          reads = λ name. rw (h s.tables t e) (d.reads name);
          closed = d.closed;
        }))

  row_found :
      (name : Bytes) (row : Option Device) (s : Database)
      → Before ds s
      → (row ≡ find_device (c_str name) ds) ⊎ (row ≡ none)
      → Post
          (λ d s. Before ds s × (find_device (c_str name) ds ≡ some d))
          (Before ds)
          (or_not_found name row s)
  unfolding or_not_found pure raise
  row_found name none s b e = b
  row_found name (some d) s b (inl e) = (b, sym e)
  row_found name (some d) s b (inr e) = cc e

  pub get_by_name-Triple :
      (name : Bytes)
      → Triple
          (Before ds)
          (λ d s. Before ds s × (find_device (c_str name) ds ≡ some d))
          (Before ds)
          (get_by_name fault name)
  unfolding get_by_name prepare
  get_by_name-Triple name =
      Triple-bind (prepare fault) _
        (Triple-invariant {Q = λ u. Before ds} (prepare fault)
          (prepare-Keeps fault (Before-ticked ds)) (λ s b. b) (λ a s b. b) (λ s b. b))
        (λ u. record {
          at = λ s b. elim (step_row-cases fault (λ t. find_device (c_str name) t.devices) s) [
            | inl e ↦
                rw e (row_found name _ (tick s) (Before-ticked ds s b) (inl (rw (b.devices) refl)))
            | inr e ↦ rw e (row_found name none (tick s) (Before-ticked ds s b) (inr refl))
          ];
        })

  name_taken-Before :
      (u : DeviceUpsert) (target : Bytes) → Keeps (Before ds) (Manager.name_taken fault u target)
  unfolding Manager.name_taken
  name_taken-Before u target =
      Keeps-if (not (equal u.name target)) _ _ (exists-Keeps fault (Before-ticked ds) u.name)
        (Keeps-pure false)

  -- updateDevice from its first write on.
  apply_update-Triple :
      (u : DeviceUpsert) (existing : Device)
      → find_device (c_str (target_name u)) ds ≡ some existing
      → Triple
          (Before ds)
          (λ (x : Unit {0}). Done (Request.updates u) ds)
          (Failed (Request.updates u) ds)
          (Manager.apply_update fault existing u (target_name u))
  unfolding Manager.apply_update update rename_device delete_by_device_name act
  apply_update-Triple u existing found =
      Triple-bind (do prepare fault; step_done fault (update_devices u (c_str (target_name u)))) _
        (statement_of fault ds (Request.updates u) _ (λ t v name same made. rw (← same) (
          update_devices-registry u (c_str (target_name u)) existing t v name (rw same found)
            made)))
        (λ _.
          Triple-invariant _
            (Keeps-bind
              (if not (equal u.name (target_name u))
                then (do
                  prepare fault
                  step_done fault (move_points (c_str (target_name u)) (c_str u.name)))
                else pure tt)
              _
              (Keeps-if (not (equal u.name (target_name u))) _ _
                (points_kept _ _
                  (λ t v e. move_points-devices (c_str (target_name u)) (c_str u.name) t v e))
                (Keeps-pure tt))
              (λ _.
                Keeps-if (Manager.model_differs existing u) _ _
                  (points_kept _ _ (λ t v e. delete_points-devices (c_str u.name) t v e))
                  (Keeps-pure tt)))
            (λ s d. d) (λ a s d. d) (λ s d. Done-Failed (Request.updates u) ds s d))

  pub updates-Triple :
      (u : DeviceUpsert)
      → Triple
          (Before ds)
          (λ (x : Unit {0}). Done (Request.updates u) ds)
          (Failed (Request.updates u) ds)
          (Manager.update_device fault u)
  unfolding Manager.update_device
  updates-Triple u =
      Triple-bind (get_by_name fault (target_name u)) _
        (Triple-weaken _ (get_by_name-Triple (target_name u)) (λ s b. b) (λ d s h. h)
          (λ s b. Before-Failed (Request.updates u) ds s b))
        (λ existing. Triple-fact _ (λ found.
          Triple-bind (Manager.name_taken fault u (target_name u)) _
            (Triple-invariant {Q = λ taken. Before ds} _ (name_taken-Before u (target_name u))
              (λ s b. b) (λ a s b. b) (λ s b. Before-Failed (Request.updates u) ds s b))
            (λ taken.
              Triple-if taken _ _ (Triple-raise _ (λ s b. Before-Failed (Request.updates u) ds s b))
                (apply_update-Triple u existing found))))
