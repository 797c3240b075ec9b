-- ===== src/Db/Registry/Refinement.antt =====
-- The methods of src/SQLiteManager.cpp that write, as acts on the registry.
use collector_service.Db.Manager.AllOrNothing.{run_write-AllOrNothing}
use collector_service.Prelude.Exec.Triple.{Post, Triple}
use collector_service.Db.Manager.Constraints.{Request, run_request}
use collector_service.Db.Registry.Statements.{delete_devices-registry}
use collector_service.Db.PointTable.{delete_by_device_name, delete_points, insert_point, has_point}
use collector_service.Db.Registry.Methods.{creates-Triple, updates-Triple}
use collector_service.Prelude.Exec.{Outcome, returned, thrown}
use collector_service.Db.Atomic.{AllOrNothing}
use collector_service.Db.Writes.{Write, effect, insert_all_points, insert_all_resources}
use collector_service.Prelude.Result.{ok}
use collector_service.Db.Registry.Logic.{Before, Done, delete_points-devices, statement_of}
use collector_service.Models.{DataPoint, Device, ResourceRecord}
use collector_service.Prelude.{
  Bytes, List, [], arith, inl, none, pos, refl, suc, ◌∙◌, ◌∷◌, ◌≡◌, Bool-cases, inr,
}
use collector_service.Db.ResourceTable.{TimeOrder, insert_resource, trim_all, trim_device}
use collector_service.Db.{Database, Fault, Tables, c_str}
use collector_service.Db.Manager
use collector_service.Db.Registry.Logic.{Failed}
use collector_service.Db.Registry.{act, registry_of}

insert_all_points-devices :
    (device : Device) (ps : List DataPoint) (t v : Tables)
    → insert_all_points device ps t ≡ ok v
    → v.devices ≡ t.devices
unfolding insert_all_points insert_point
insert_all_points-devices device [] t v e = ground arith
insert_all_points-devices device (p ∷ ps) t v e =
    elim (Bool-cases (has_point (c_str device.name) (c_str p.name_path) t.points)) [
      | inl clash ↦ let bad = rw clash at e in cc bad
      | inr free ↦ let done = rw free at e in insert_all_points-devices device ps _ v done
    ]

insert_all_resources-devices :
    (rs : List ResourceRecord) (t v : Tables)
    → insert_all_resources rs t ≡ ok v
    → v.devices ≡ t.devices
unfolding insert_all_resources insert_resource
insert_all_resources-devices [] t v e = ground arith
insert_all_resources-devices (r ∷ rs) t v e = insert_all_resources-devices rs _ v e

same_devices :
    (t v : Tables) (name : Bytes)
    → v.devices ≡ t.devices
    → registry_of v.devices name ≡ registry_of t.devices name
same_devices t v name e = rw e refl

pub effect-registry :
    (newest : TimeOrder) (w : Write) (t v : Tables) (name : Bytes)
    → effect newest w t ≡ ok v
    → registry_of v.devices name ≡ act (Request.writes w) (registry_of t.devices) name
unfolding effect act delete_points trim_all trim_device
effect-registry newest (Write.delete_device gone) t v name e =
    delete_devices-registry (c_str gone) _ v name e
effect-registry newest (Write.replace_data_points d ps) t v name e =
    same_devices t v name (insert_all_points-devices d ps _ v e)
effect-registry newest (Write.insert_resources rs) t v name e =
    same_devices t v name (insert_all_resources-devices rs t v e)
effect-registry newest (Write.cleanup_resources (pos (suc n))) t v name e =
    same_devices t v name (ground arith)
effect-registry newest (Write.cleanup_resources _) t v name e = same_devices t v name (ground arith)
effect-registry newest (Write.cleanup_resources_for_device d (pos (suc n))) t v name e =
    same_devices t v name (ground arith)
effect-registry newest (Write.cleanup_resources_for_device d _) t v name e =
    same_devices t v name (ground arith)

-- The request on the registry of the tables: done where the method returns, and where it throws,
-- what lasts is as before it or as behind it.
abbrev pub Refines : Request → List Device → Outcome Database (Unit {0}) → Type 0
Refines q ds (returned _ v) = Done q ds v
Refines q ds (thrown what v) = Failed q ds v

write-Refines :
    (newest : TimeOrder) (w : Write) (t : Tables) (o : Outcome Database (Unit {0}))
    → AllOrNothing (effect newest w) t o
    → Refines (Request.writes w) t.devices o
write-Refines newest w t (returned _ v) h = record {
  reads = λ name. effect-registry newest w t v.tables name h.0;
  closed = h.1;
}
write-Refines newest w t (thrown what v) h = inl (λ name. rw h refl)

Post-Refines :
    (q : Request) (ds : List Device) (o : Outcome Database (Unit {0}))
    → Post (λ u. Done q ds) (Failed q ds) o
    → Refines q ds o
Post-Refines q ds (returned _ v) h = h
Post-Refines q ds (thrown what v) h = h

drops-Triple :
    (fault : Fault) (ds : List Device) (name : Bytes)
    → Triple
        (Before ds)
        (λ (x : Unit {0}). Done (Request.drops_points name) ds)
        (Failed (Request.drops_points name) ds)
        (delete_by_device_name fault name)
unfolding delete_by_device_name act
drops-Triple fault ds name =
    statement_of fault ds (Request.drops_points name) (delete_points (c_str name))
      (λ t v other same made.
        let e : v.devices ≡ ds = delete_points-devices (c_str name) t v made ∙ same in rw e refl)

-- Every method of SQLiteManager that writes, called where no transaction is open, acts on the
-- registry of devices as its request says where it returns, with no transaction open; where it
-- throws, the durable tables read as the same registry as before, or as that of the whole request.
pub run_request-Refines :
    (fault : Fault) (newest : TimeOrder) (q : Request) (db : Database)
    → db.saved ≡ none
    → Refines q db.tables.devices (run_request fault newest q db)
unfolding run_request Manager.delete_data_points_by_device_name
run_request-Refines fault newest (Request.creates u) db closed =
    Post-Refines _ _ _ (
      (creates-Triple fault db.tables.devices u).at db (record { devices = refl; closed = closed }))
run_request-Refines fault newest (Request.updates u) db closed =
    Post-Refines _ _ _ (
      (updates-Triple fault db.tables.devices u).at db (record { devices = refl; closed = closed }))
run_request-Refines fault newest (Request.drops_points name) db closed =
    Post-Refines _ _ _ (
      (drops-Triple fault db.tables.devices name).at db
        (record { devices = refl; closed = closed }))
run_request-Refines fault newest (Request.writes w) db closed =
    write-Refines newest w db.tables _ (run_write-AllOrNothing fault newest w db closed)
