-- ===== src/Task/Control/Unchanged.antt =====
-- src/DataTask.cpp: starts and stops, seen from the registry of devices.
use collector_service.Db.Registry.{Registry}
use mathlib.Core.Path.{subst}
use collector_service.Task.Status.{
  erase_stop_flag, is_active, mark_start_failed, take_thread, request_stop_all, take_all_threads,
}
use collector_service.Task.Shown.{
  Shows, Shows-ticked, init_data_points_by_device-Shows, on_db-Keeps,
}
use collector_service.Task.Cycle.{find_worker, finish}
use collector_service.Prelude.Exec.{Exec, after, gets, pure, raise}
use collector_service.Prelude.Exec.Keeps.{
  Keeps, Keeps-bind, Keeps-catch, Keeps-gets, Keeps-if, Keeps-option, Keeps-pure, keeps_rules,
}
use collector_service.Db.DeviceTable.{device_not_found}
use collector_service.Task.Control.{
  ask_to_stop, check_start, clear_stale, cleared_if_back, join, join_all, join_everyone,
  join_if_joinable, join_stopped, join_worker, launch, launch_if_back, relaunch, start_all,
  start_device_collect, start_each, stop_all, stop_device_collect, stopped_if_back,
}
use collector_service.Models.{Device, is_ok}
use collector_service.Db.Reads.{
  exists-Keeps, get_all-Keeps, get_by_device_name-Keeps, get_by_name-Keeps,
}
use collector_service.Task.Worker.{
  Environment, Worker, World, device_offline, init_data_points_by_device, on_db, on_store,
  points_or_init, error_result, ok_result,
}
use collector_service.Prelude.{
  Bool, Bool-cases, Bytes, List, Option, [], false, if◌then◌else◌, inl, inr, is_empty, is_zero,
  none, refl, some, sym, true, ℕ, ◌∙◌, ◌∷◌, ◌≡◌, text, ◌++◌,
}
use collector_service.Db.Manager

-- The joins, the flags and the threads are not the database's.
join_worker-db : (o : Option Worker) (w : World) → (join_worker o w).1.db ≡ w.db
unfolding join_worker finish
join_worker-db none w = refl
join_worker-db (some k) w = elim (Bool-cases (w.flags k.thread)) [
  | inl up ↦ rw up refl
  | inr down ↦ rw down refl
]

join_if_joinable-db : (o : Option ℕ) (w : World) → (join_if_joinable o w).1.db ≡ w.db
unfolding join_if_joinable join
join_if_joinable-db none w = refl
join_if_joinable-db (some thread) w = join_worker-db (find_worker thread w.workers) w

clear_stale-db : (name : Bytes) (w : World) → (clear_stale name w).1.db ≡ w.db
unfolding clear_stale
clear_stale-db name w =
    let (stale, store) = take_thread name w.store in
    join_if_joinable-db stale (record w { store = erase_stop_flag name store })

join_all-db : (threads : List ℕ) (p : Bool × World) → (join_all threads p).1.db ≡ p.1.db
unfolding join_all join
join_all-db threads (false, w) = refl
join_all-db [] (true, w) = refl
join_all-db (thread ∷ threads) (true, w) =
    join_all-db threads (join thread w) ∙ join_worker-db (find_worker thread w.workers) w

launch_if_back-db :
    (name : Bytes) (d : Device) (p : Bool × World) → (after (launch_if_back name d p)).db ≡ p.1.db
unfolding launch_if_back launch
launch_if_back-db name d (true, w) = refl
launch_if_back-db name d (false, w) = refl

stopped_if_back-db :
    (name mid : Bytes) (p : Bool × World) → (after (stopped_if_back name mid p)).db ≡ p.1.db
unfolding stopped_if_back
stopped_if_back-db name mid (true, w) = refl
stopped_if_back-db name mid (false, w) = refl

cleared_if_back-db : (p : Bool × World) → (after (cleared_if_back p)).db ≡ p.1.db
unfolding cleared_if_back
cleared_if_back-db (true, w) = refl
cleared_if_back-db (false, w) = refl

module _ (env : Environment) (r : Registry) where
  abbrev pub KeepsShown : {A : Type 0} → Exec World A → Type 0
  KeepsShown m = Keeps (λ (w : World). Shows r w.db) m

  -- An action that leaves the database alone.
  same_db-Shown :
      {A : Type 0} (m : Exec World A) → ((w : World) → (after (m w)).db ≡ w.db) → KeepsShown m
  same_db-Shown m same = record { at = λ w h. subst (Shows r) (sym (same w)) h }

  exists-Shown : (name : Bytes) → KeepsShown (on_db (Manager.device_exists env.fault name))
  unfolding Manager.device_exists
  exists-Shown name = on_db-Keeps _ (exists-Keeps env.fault (Shows-ticked r) name)

  points-Shown :
      (name : Bytes) → KeepsShown (on_db (Manager.get_data_points_by_device_name env.fault name))
  unfolding Manager.get_data_points_by_device_name
  points-Shown name = on_db-Keeps _ (get_by_device_name-Keeps env.fault (Shows-ticked r) name)

  device-Shown : (name : Bytes) → KeepsShown (on_db (Manager.get_device_by_name env.fault name))
  unfolding Manager.get_device_by_name
  device-Shown name = on_db-Keeps _ (get_by_name-Keeps env.fault (Shows-ticked r) name)

  points_or_init-Shown : (name mid : Bytes) → KeepsShown (points_or_init env name mid)
  unfolding points_or_init
  points_or_init-Shown name mid =
      Keeps-bind (on_db (Manager.get_data_points_by_device_name env.fault name)) _
        (points-Shown name)
        (λ points.
          Keeps-if (is_empty points) _ _
            (Keeps-bind (init_data_points_by_device env name mid) _
              (init_data_points_by_device-Shows env r name mid)
              (λ result.
                Keeps-bind (if is_ok result then pure tt else raise result.msg) _
                  (search keeps_rules)
                  (λ _.
                    Keeps-bind (on_db (Manager.get_data_points_by_device_name env.fault name)) _
                      (points-Shown name) (λ again. search keeps_rules))))
            (Keeps-pure points))

  check_start-Shown : (name mid : Bytes) → KeepsShown (check_start env name mid)
  unfolding check_start
  check_start-Shown name mid =
      Keeps-bind (on_db (Manager.device_exists env.fault name)) _ (exists-Shown name) (λ found.
        Keeps-bind (if found then pure tt else raise (device_not_found name)) _ (search keeps_rules)
          (λ _.
            Keeps-bind (on_db (Manager.get_device_by_name env.fault name)) _ (device-Shown name)
              (λ d.
                Keeps-bind (if is_zero d.status then raise (device_offline name) else pure tt) _
                  (search keeps_rules)
                  (λ _.
                    Keeps-bind (points_or_init env name mid) _ (points_or_init-Shown name mid)
                      (λ points.
                        Keeps-bind (gets (λ v. is_active name v.store)) _ (Keeps-gets _)
                          (λ running. search keeps_rules))))))

  pub start-Shown : (name mid : Bytes) → KeepsShown (start_device_collect env name mid)
  unfolding start_device_collect relaunch on_store
  start-Shown name mid =
      Keeps-catch _ _
        (Keeps-bind (check_start env name mid) _ (check_start-Shown name mid) (λ d.
          Keeps-bind (relaunch name d) _
            (same_db-Shown (relaunch name d)
              (λ w. launch_if_back-db name d (clear_stale name w) ∙ clear_stale-db name w))
            (λ back. Keeps-pure _)))
        (λ what.
          Keeps-bind (on_store (mark_start_failed name)) _
            (same_db-Shown (on_store (mark_start_failed name)) (λ w. refl))
            (λ _. Keeps-pure (some (error_result mid what))))

  pub stop-Shown : (name mid : Bytes) → KeepsShown (stop_device_collect env name mid)
  unfolding stop_device_collect join_stopped ask_to_stop
  stop-Shown name mid =
      Keeps-bind (on_db (Manager.device_exists env.fault name)) _ (exists-Shown name) (λ found.
        Keeps-if found _ _
          (Keeps-bind (ask_to_stop name) _ (same_db-Shown (ask_to_stop name) (λ w. refl))
            (λ running.
              Keeps-if running (join_stopped name mid) _
                (same_db-Shown (join_stopped name mid)
                  (λ w. stopped_if_back-db name mid (clear_stale name w) ∙ clear_stale-db name w))
                (Keeps-pure
                  (some (ok_result mid (text "device collection is not running: " ++ name))))))
          (Keeps-pure (some (error_result mid (device_not_found name)))))

  start_each-Shown : (ds : List Device) → KeepsShown (start_each env ds)
  unfolding start_each
  start_each-Shown [] = Keeps-pure true
  start_each-Shown (d ∷ ds) = Keeps-if (is_zero d.status) _ _ (start_each-Shown ds) (
      Keeps-bind (start_device_collect env d.name []) _ (start-Shown d.name [])
        (λ result. Keeps-option result _ _ (Keeps-pure false) (λ r'. start_each-Shown ds)))

  pub start_all-Shown : KeepsShown (start_all env)
  unfolding start_all Manager.get_devices
  start_all-Shown =
      Keeps-bind (on_db (Manager.get_devices env.fault)) _
        (on_db-Keeps _ (get_all-Keeps env.fault (Shows-ticked r))) start_each-Shown

  pub stop_all-Shown : KeepsShown stop_all
  unfolding stop_all join_everyone
  stop_all-Shown = same_db-Shown stop_all (λ w.
      let flags = request_stop_all w.store w.flags in
      let (threads, store) = take_all_threads w.store in
      cleared_if_back-db (join_everyone w)
      ∙ join_all-db threads (true, record w { flags = flags; store = store }))
