-- ===== src/Http/Router/Get.antt =====
-- A request with GET only reads.
use collector_service.StdString.{find, is_found, starts_with}
use collector_service.Http.Target.{path_only, query_param}
use collector_service.Models.{DeviceStatus}
use collector_service.Command.Serializer.{ShowDouble}
use collector_service.Task.Status.{get_status}
use collector_service.Task.Worker.{Environment, World, on_db}
use collector_service.Db.{Database}
use collector_service.Task.Frame.{SameThreads, SameThreads-refl}
use collector_service.Http.Router.{
  HttpRequest, find_status, find_status_or_default, is_get, latest_of_device, route, route_get,
  route_method, status_of_device, default_status, device_required,
}
use collector_service.Db.Reads.{
  SameTables, SameTables-ticked, exists-Keeps, get_all-Keeps, get_latest-Keeps,
}
use collector_service.Prelude.Exec.Keeps.{
  Keeps, Keeps-bind, Keeps-catch, Keeps-gets, Keeps-if, Keeps-pure, Keeps-raise,
}
use collector_service.Prelude.{
  Bytes, List, Option-cases, inl, inr, refl, some, true, ◌≡◌, equal, is_empty, text, ◌&&◌, ◌||◌,
}
use collector_service.Prelude.Exec.{Exec, Outcome, after, gets, returned, thrown}
use collector_service.Db.Manager

-- The world is `w`, but for the calls that the database counted.
pub record OnlyRead (w v : World) : Type 0 where
  pub threads : SameThreads w v
  pub storage : SameTables w.db v.db

pub OnlyRead-refl : (w : World) → OnlyRead w w
OnlyRead-refl w = record {
  threads = SameThreads-refl w;
  storage = record { tables = refl; saved = refl };
}

module _ (w : World) where
  on_db_read :
      {A : Type 0} (v : World) (o : Outcome Database A)
      → SameThreads w v
      → SameTables w.db (after o)
      → OnlyRead w (
          after {S = World} {A = A} (elim o [
            | returned a db ↦ returned a (record v { db = db })
            | thrown what db ↦ thrown what (record v { db = db })
          ]))
  on_db_read v (returned a db) h s = record {
    threads = record { store = h.store; flags = h.flags; workers = h.workers; started = h.started };
    storage = record { tables = s.tables; saved = s.saved };
  }
  on_db_read v (thrown what db) h s = record {
    threads = record { store = h.store; flags = h.flags; workers = h.workers; started = h.started };
    storage = record { tables = s.tables; saved = s.saved };
  }

  on_db-OnlyRead :
      {A : Type 0} (m : Exec Database A) → Keeps (SameTables w.db) m → Keeps (OnlyRead w) (on_db m)
  unfolding on_db
  on_db-OnlyRead m k = record { at = λ v h. on_db_read v (m v.db) h.threads (k.at v.db h.storage) }

module _ (env : Environment) (show_double : ShowDouble) (w : World) where
  find_status-OnlyRead :
      (ss : List DeviceStatus) (name : Bytes)
      → Keeps (OnlyRead w) (find_status_or_default env show_double ss name)
  unfolding find_status_or_default
  find_status-OnlyRead ss name = elim (Option-cases (find_status name ss)) [
    | inr (s, e) ↦ rw (e, find_status_or_default) (Keeps-pure s)
    | inl e ↦
        rw (e, find_status_or_default)
          (Keeps-bind (on_db (Manager.device_exists env.fault name)) _
            (on_db-OnlyRead w _ (
              unfold Manager.device_exists in exists-Keeps env.fault (SameTables-ticked w.db) name))
            (λ found. Keeps-if found _ _ (Keeps-pure (default_status name)) (Keeps-raise _)))
  ]

  status_of_device-OnlyRead :
      (name : Bytes) → Keeps (OnlyRead w) (status_of_device env show_double name)
  unfolding status_of_device
  status_of_device-OnlyRead name =
      Keeps-bind (gets (λ v. get_status v.store)) _ (Keeps-gets _) (λ ss.
        Keeps-bind (find_status_or_default env show_double ss name) _ (find_status-OnlyRead ss name)
          (λ s. Keeps-pure _))

  latest_of_device-OnlyRead :
      (name : Bytes) → Keeps (OnlyRead w) (latest_of_device env show_double name)
  unfolding latest_of_device
  latest_of_device-OnlyRead name =
      Keeps-bind (on_db (Manager.get_latest_resources env.fault env.newest name)) _
        (on_db-OnlyRead w _ (
          unfold Manager.get_latest_resources in
          get_latest-Keeps env.fault (SameTables-ticked w.db) env.newest name))
        (λ rs. Keeps-pure _)

  route_get-OnlyRead :
      (target path : Bytes) → Keeps (OnlyRead w) (route_get env show_double target path)
  unfolding route_get
  route_get-OnlyRead target path =
      let name = query_param target (text "device") in
      let no_name = is_empty name in
      Keeps-if (equal path (text "/health")) _ _ (Keeps-pure _) (
        Keeps-if (equal path (text "/devices")) _ _
          (Keeps-bind (on_db (Manager.get_devices env.fault)) _
            (on_db-OnlyRead w _
              (unfold Manager.get_devices in get_all-Keeps env.fault (SameTables-ticked w.db)))
            (λ ds. Keeps-pure _))
          (Keeps-if (equal path (text "/status") || equal path (text "/devices/status")) _ _
            (Keeps-if no_name _ _
              (Keeps-bind (gets (λ v. get_status v.store)) _ (Keeps-gets _) (λ ss. Keeps-pure _))
              (status_of_device-OnlyRead name))
            (Keeps-if (equal path (text "/latest")) _ _
              (Keeps-if no_name _ _ (Keeps-pure device_required) (latest_of_device-OnlyRead name))
              (Keeps-if
                (starts_with (text "/devices/") path && is_found (find (text "/status") path)) _ _
                (status_of_device-OnlyRead _)
                (Keeps-if
                  (starts_with (text "/devices/") path
                    && is_found (find (text "/resources/latest") path))
                  _ _ (latest_of_device-OnlyRead _) (Keeps-pure _))))))

  pub route-Keeps :
      (request : HttpRequest)
      → is_get request.method ≡ true
      → Keeps (OnlyRead w) (route env show_double request)
  unfolding route route_method
  route-Keeps request e =
      Keeps-catch _ _
        (rw e (
          Keeps-bind (route_get env show_double request.target (path_only request.target)) _
            (route_get-OnlyRead request.target (path_only request.target))
            (λ r. Keeps-pure (some r))))
        (λ what. Keeps-pure _)

-- A GET request changes nothing: tables, open transaction, statuses, active devices, stop flags and
-- workers are as before, also where the response is an error.
pub route-OnlyRead :
    (env : Environment) (show_double : ShowDouble) (request : HttpRequest) (w : World)
    → is_get request.method ≡ true
    → OnlyRead w (after (route env show_double request w))
route-OnlyRead env show_double request w e =
    (route-Keeps env show_double w request e).at w (OnlyRead-refl w)
