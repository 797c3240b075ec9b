-- ===== src/Task/Shown.antt =====
-- The registry of devices behind methods of src/DataTask.cpp.
use collector_service.Models.{DataPoint, Device}
use collector_service.Db.DeviceTable.{device_not_found}
use collector_service.ModelFile.Parser.{parse_model_to_data_points}
use collector_service.Db.ResourceTable.{TimeOrder}
use collector_service.Db.Reads.{exists-Keeps, get_by_name-Keeps}
use collector_service.Prelude.Exec.Triple.{Post, Triple}
use collector_service.ModelFile.Repository.{load_model_text}
use collector_service.Db.Atomic.{AllOrNothing, durable}
use collector_service.Db.Statement.{IgnoresCalls, sqlite_call-cases}
use collector_service.Db.Registry.Refinement.{effect-registry}
use collector_service.Task.Worker.{
  Environment, World, init_data_points, init_data_points_by_device, on_db,
}
use collector_service.Db.PointTable.{replace_for_device}
use collector_service.Db.{
  Database, Fault, Tables, begin_change, begin_transaction, tick, transaction,
}
use collector_service.Db.Writes.{Write, body_of, effect, write-AllOrNothing}
use collector_service.Prelude.Exec.Keeps.{
  Keeps, Keeps-bind, Keeps-catch, Keeps-if, Keeps-lift, Keeps-pure, Keeps-raise,
}
use collector_service.Prelude.{
  Bytes, List, Option-cases, if◌then◌else◌, inl, inr, refl, some, ◌∙◌, ◌≡◌, text, ap,
}
use collector_service.Db.Manager
use collector_service.Db.Registry.{Registry, act}
use collector_service.Db.Registry.Logic.{Reads}
use collector_service.Prelude.Exec.{Exec, Outcome, after, lift, pure, raise, returned, thrown}

-- The durable tables read as the registry `r`.
abbrev pub Shows : Registry → Database → Type 0
Shows r db = Reads r (durable db).devices

pub Shows-ticked : (r : Registry) → IgnoresCalls (Shows r)
Shows-ticked r s h = h

-- A method of SQLiteManager in the world.
module _ {A : Type 0} where
  on_db-Post :
      (Q : A → Database → Type 0) (R : Database → Type 0) (w : World) (o : Outcome Database A)
      → Post Q R o
      → Post
          (λ a v. Q a v.db)
          (λ (v : World). R v.db)
          (elim o [
            | returned a db ↦ returned a (record w { db = db })
            | thrown what db ↦ thrown what (record w { db = db })
          ])
  on_db-Post Q R w (returned a db) h = h
  on_db-Post Q R w (thrown what db) h = h

  pub on_db-Triple :
      {P : Database → Type 0} {Q : A → Database → Type 0} {R : Database → Type 0}
      (m : Exec Database A)
      → Triple P Q R m
      → Triple (λ w. P w.db) (λ a (w : World). Q a w.db) (λ w. R w.db) (on_db m)
  unfolding on_db
  on_db-Triple m t = record { at = λ w p. on_db-Post _ _ w (m w.db) (t.at w.db p) }

  on_db_after :
      (P : Database → Type 0) (w : World) (o : Outcome Database A)
      → P (after o)
      → P
          (after {S = World} {A = A} (elim o [
            | returned a db ↦ returned a (record w { db = db })
            | thrown what db ↦ thrown what (record w { db = db })
          ])).db
  on_db_after P w (returned a db) h = h
  on_db_after P w (thrown what db) h = h

  pub on_db-Keeps :
      {P : Database → Type 0} (m : Exec Database A)
      → Keeps P m
      → Keeps (λ (w : World). P w.db) (on_db m)
  unfolding on_db
  on_db-Keeps {P} m k = record { at = λ w p. on_db_after P w (m w.db) (k.at w.db p) }

replaced-Shows :
    (newest : TimeOrder) (r : Registry) (d : Device) (ps : List DataPoint) (t : Tables)
    (o : Outcome Database (Unit {0}))
    → AllOrNothing (effect newest (Write.replace_data_points d ps)) t o
    → Reads r t.devices
    → Shows r (after o)
unfolding act
replaced-Shows newest r d ps t (returned u v) h reads = λ name.
    rw (h.1)
      (effect-registry newest (Write.replace_data_points d ps) t v.tables name h.0 ∙ reads name)
replaced-Shows newest r d ps t (thrown what v) h reads = λ name. rw h (reads name)

-- A transaction does not begin where one is open.
abbrev already_open : Bytes
already_open = text "cannot start a transaction within a transaction"

begin_refused :
    (fault : Fault) (body : Exec Database (Unit {0})) (db : Database) (t : Tables)
    → db.saved ≡ some t
    → (what : Bytes) × (transaction fault body db ≡ thrown what (tick db))
unfolding transaction begin_transaction begin_change
begin_refused fault body db t e = elim (sqlite_call-cases fault db) [
  | inl c ↦ (
    already_open,
    rw (c, begin_transaction)
        (rw (e, begin_change) (ap (λ o. thrown already_open (record (tick db) { saved = o })) e)),
  )
  | inr (what, c) ↦ (what, rw (c, begin_transaction) refl)
]

module _ (env : Environment) (r : Registry) where
  replace-Shows :
      (d : Device) (ps : List DataPoint)
      → Keeps (Shows r) (Manager.replace_data_points_for_device env.fault d ps)
  unfolding Manager.replace_data_points_for_device body_of
  replace-Shows d ps = record {
    at = λ db h. elim (Option-cases db.saved) [
      | inl none_open ↦
          let reads : Reads r db.tables.devices = λ name. rw none_open at (h name) in
          replaced-Shows env.newest r d ps db.tables _
            (write-AllOrNothing env.fault env.newest (Write.replace_data_points d ps) db none_open)
            reads
      | inr (t, e) ↦
          let (what, back) = begin_refused env.fault (replace_for_device env.fault d ps) db t e in
          rw back h
    ];
  }

  init_data_points-Shows : (name : Bytes) → Keeps (λ w. Shows r w.db) (init_data_points env name)
  unfolding init_data_points Manager.device_exists Manager.get_device_by_name
  init_data_points-Shows name =
      Keeps-bind (on_db (Manager.device_exists env.fault name)) _
        (on_db-Keeps _ (exists-Keeps env.fault (Shows-ticked r) name))
        (λ found.
          Keeps-bind (if found then pure tt else raise (device_not_found name)) _
            (Keeps-if found _ _ (Keeps-pure tt) (Keeps-raise _))
            (λ _.
              Keeps-bind (on_db (Manager.get_device_by_name env.fault name)) _
                (on_db-Keeps _ (get_by_name-Keeps env.fault (Shows-ticked r) name))
                (λ d.
                  Keeps-bind
                    (lift (load_model_text env.files env.repository d.model d.model_version)) _
                    (Keeps-lift _)
                    (λ model_text.
                      Keeps-bind (lift (parse_model_to_data_points d model_text)) _ (Keeps-lift _)
                        (λ ps. on_db-Keeps _ (replace-Shows d ps))))))

  pub init_data_points_by_device-Shows :
      (name mid : Bytes) → Keeps (λ w. Shows r w.db) (init_data_points_by_device env name mid)
  unfolding init_data_points_by_device
  init_data_points_by_device-Shows name mid =
      Keeps-catch _ _
        (Keeps-bind (init_data_points env name) _ (init_data_points-Shows name) (λ _. Keeps-pure _))
        (λ what. Keeps-pure _)
