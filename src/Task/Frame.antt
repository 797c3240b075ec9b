-- ===== src/Task/Frame.antt =====
-- The methods that only use the database leave the threads, the flags and the status store alone.
use collector_service.Models.{is_ok}
use collector_service.Task.Status.{is_active}
use collector_service.Task.Control.{check_start}
use collector_service.Db.DeviceTable.{device_not_found}
use collector_service.Db.{Database}
use collector_service.Prelude.Exec.Keeps.{
  Keeps, keeps_rules, Keeps-bind, Keeps-catch, Keeps-gets, Keeps-if, Keeps-pure,
}
use collector_service.Task.Worker.{
  Environment, World, init_data_points, on_db, device_offline, init_data_points_by_device,
  points_or_init,
}
use collector_service.Prelude.{Bytes, refl, ◌≡◌, if◌then◌else◌, is_empty, is_zero}
use collector_service.Prelude.Exec.{Exec, Outcome, after, returned, thrown, pure, raise, gets}
use collector_service.Db.Manager

-- The world is `w`, but for its database.
pub record SameThreads (w v : World) : Type 0 where
  pub store : v.store ≡ w.store
  pub flags : v.flags ≡ w.flags
  pub workers : v.workers ≡ w.workers
  pub started : v.started ≡ w.started

pub SameThreads-refl : (w : World) → SameThreads w w
SameThreads-refl w = record { store = refl; flags = refl; workers = refl; started = refl }

module _ (w : World) where
  on_db_outcome :
      {A : Type 0} (v : World) (o : Outcome Database A)
      → SameThreads w v
      → SameThreads w (
          after {S = World} {A = A} (elim o [
            | returned a db ↦ returned a (record v { db = db })
            | thrown what db ↦ thrown what (record v { db = db })
          ]))
  on_db_outcome v (returned a db) h = record {
    store = h.store;
    flags = h.flags;
    workers = h.workers;
    started = h.started;
  }
  on_db_outcome v (thrown what db) h = record {
    store = h.store;
    flags = h.flags;
    workers = h.workers;
    started = h.started;
  }

  pub on_db-Same : {A : Type 0} (m : Exec Database A) → Keeps (SameThreads w) (on_db m)
  unfolding on_db
  on_db-Same m = record { at = λ v h. on_db_outcome v (m v.db) h }

  pub ruleset same_rules = (keeps_rules, on_db-Same)

module _ (env : Environment) (w : World) where
  init_data_points-Same : (name : Bytes) → Keeps (SameThreads w) (init_data_points env name)
  unfolding init_data_points
  init_data_points-Same name =
      Keeps-bind (on_db (Manager.device_exists env.fault name)) _ (on_db-Same w _) (λ found.
        Keeps-bind (if found then pure tt else raise (device_not_found name)) _ (search same_rules)
          (λ _.
            Keeps-bind (on_db (Manager.get_device_by_name env.fault name)) _ (on_db-Same w _)
              (λ d. search same_rules)))

  pub init_data_points_by_device-Same :
      (name mid : Bytes) → Keeps (SameThreads w) (init_data_points_by_device env name mid)
  unfolding init_data_points_by_device
  init_data_points_by_device-Same name mid =
      Keeps-catch _ _
        (Keeps-bind (init_data_points env name) _ (init_data_points-Same name)
          (λ _. search same_rules))
        (λ what. search same_rules)

  pub points_or_init-Same : (name mid : Bytes) → Keeps (SameThreads w) (points_or_init env name mid)
  unfolding points_or_init
  points_or_init-Same name mid =
      Keeps-bind (on_db (Manager.get_data_points_by_device_name env.fault name)) _ (on_db-Same w _)
        (λ points.
          Keeps-if (is_empty points) _ _
            (Keeps-bind (init_data_points_by_device env name mid) _
              (init_data_points_by_device-Same name mid)
              (λ r.
                Keeps-bind (if is_ok r then pure tt else raise r.msg) _ (search same_rules) (λ _.
                  Keeps-bind (on_db (Manager.get_data_points_by_device_name env.fault name)) _
                    (on_db-Same w _) (λ again. search same_rules))))
            (Keeps-pure points))

  pub check_start-Same : (name mid : Bytes) → Keeps (SameThreads w) (check_start env name mid)
  unfolding check_start
  check_start-Same name mid =
      Keeps-bind (on_db (Manager.device_exists env.fault name)) _ (on_db-Same w _) (λ found.
        Keeps-bind (if found then pure tt else raise (device_not_found name)) _ (search same_rules)
          (λ _.
            Keeps-bind (on_db (Manager.get_device_by_name env.fault name)) _ (on_db-Same w _) (λ d.
              Keeps-bind (if is_zero d.status then raise (device_offline name) else pure tt) _
                (search same_rules)
                (λ _.
                  Keeps-bind (points_or_init env name mid) _ (points_or_init-Same name mid)
                    (λ points.
                      Keeps-bind (gets (λ v. is_active name v.store)) _ (Keeps-gets _)
                        (λ running. search same_rules))))))
