-- ===== src/Task/Control/Kept.antt =====
-- The methods of DataTask keep active devices registered where they come back.
use collector_service.Task.Control.Start.{check_start-inactive}
use collector_service.Task.Cycle.{finish, find_worker}
use collector_service.Task.Control.Stop.{IsRegistered}
use collector_service.Models.{CommandResult, Device}
use collector_service.Db.DeviceTable.{device_not_found}
use collector_service.Task.Worker.{
  Environment, World, error_result, ok_result, on_db, on_store, Worker,
}
use collector_service.Prelude.Dict.{lookup, lookup-erase, erase}
use collector_service.Task.Status.{
  clear_all_workers, is_active, mark_start_failed, request_stop, erase_stop_flag, mark_stopped,
  take_thread,
}
use collector_service.Task.Frame.{SameThreads-refl, check_start-Same, on_db-Same}
use collector_service.Prelude.{
  Bool, Bool-cases, Bytes, List, Option, [], false, if◌then◌else◌, inl, inr, is_zero, none, refl,
  some, text, true, ◌++◌, ◌∷◌, Option-cases, arith, equal, equal_iff, ◌≡◌,
}
use collector_service.Task.Control.Registered.{
  IsRegistered-same, IsRegisteredBut, clear_stale-But, launch-IsRegistered,
  mark_start_failed-IsRegistered, mark_stopped-IsRegistered,
}
use collector_service.Task.Control.{
  ask_to_stop, check_start, clear_stale, cleared_if_back, join_stopped, launch_if_back, relaunch,
  start_all, start_device_collect, start_each, start_result, stop_device_collect, stopped_if_back,
  join, join_if_joinable, join_worker,
}
use collector_service.Prelude.Exec.{
  ◌>>=◌, ◌>>◌, Exec, Outcome, after, continue, handled, pure, returned, thrown,
}
use collector_service.Db.Manager

abbrev pub RegisteredIfBack : Outcome World (Option CommandResult) → Type 0
RegisteredIfBack (returned (some r) v) = IsRegistered v
RegisteredIfBack (returned none v) = Unit {0}
RegisteredIfBack (thrown what v) = IsRegistered v

abbrev pub RegisteredIfTrue : Outcome World Bool → Type 0
RegisteredIfTrue (returned true v) = IsRegistered v
RegisteredIfTrue (returned false v) = Unit {0}
RegisteredIfTrue (thrown what v) = IsRegistered v

join_worker-inactive :
    (name : Bytes) (o : Option Worker) (w : World)
    → is_active name w.store ≡ false
    → is_active name (join_worker o w).1.store ≡ false
unfolding join_worker finish mark_stopped is_active
join_worker-inactive name none w off = off
join_worker-inactive name (some k) w off = elim (Bool-cases (w.flags k.thread)) [
  | inr down ↦ rw (down, join_worker) off
  | inl up ↦
      rw (up, join_worker)
        (rw (lookup-erase k.device.name name w.store.active_devices) (ground (arith, off)))
]

-- What clear_stale does to a device that is not active leaves it so.
clear_stale-inactive :
    (name : Bytes) (w : World)
    → is_active name w.store ≡ false
    → is_active name (clear_stale name w).1.store ≡ false
unfolding clear_stale take_thread erase_stop_flag join_if_joinable join is_active
clear_stale-inactive name w off = elim (Option-cases (lookup name w.store.worker_threads)) [
  | inl nothing_there ↦ rw (nothing_there, clear_stale, take_thread, join_if_joinable) off
  | inr (i, there) ↦
      rw (there, clear_stale, take_thread, join_if_joinable, join)
        (join_worker-inactive name (find_worker i w.workers)
          (record w {
            store =
                erase_stop_flag name
                  (record w.store { worker_threads = erase name w.store.worker_threads });
          })
          off)
]

But-IsRegistered :
    (name : Bytes) (w : World)
    → IsRegisteredBut name w.store
    → is_active name w.store ≡ false
    → IsRegistered w
But-IsRegistered name w h off = record {
  at_name = λ n on. elim (Bool-cases (equal name n)) [
    | inr no_it_is ↦ h.at_other n no_it_is on
    | inl yes_it_is ↦
        let same = (equal_iff name n).0 yes_it_is in let on' = rw (← same) at on in cc (on', off)
  ];
}

relaunched :
    (name mid : Bytes) (d : Device) (r : Bool × World)
    → IsRegisteredBut name r.1.store
    → is_active name r.1.store ≡ false
    → IsRegistered
        (after (continue (launch_if_back name d r) (λ back. pure (start_result name mid back))))
unfolding launch_if_back pure start_result
relaunched name mid d (true, w) h off = launch-IsRegistered name d w h
relaunched name mid d (false, w) h off = But-IsRegistered name w h off

relaunched_handled :
    (name mid : Bytes) (o : Outcome World (Option CommandResult))
    → IsRegistered (after o)
    → IsRegistered (
        after (
          handled o
            (λ what. do on_store (mark_start_failed name); pure (some (error_result mid what)))))
unfolding on_store pure
relaunched_handled name mid (returned r v) h = h
relaunched_handled name mid (thrown what v) h = mark_start_failed-IsRegistered name v h

start_kept :
    (name mid : Bytes) (o : Outcome World Device)
    → IsRegistered (after o)
    → ((d : Device) (v : World) → o ≡ returned d v → is_active name v.store ≡ false)
    → IsRegistered
        (after (continue o (λ d. do back ← relaunch name d; pure (start_result name mid back))))
unfolding relaunch
start_kept name mid (returned d v) h off =
    relaunched name mid d (clear_stale name v) (clear_stale-But name v h)
      (clear_stale-inactive name v (off d v refl))
start_kept name mid (thrown what v) h off = h

-- A start leaves active devices registered, also where it is blocked in a join.
pub start-Registered :
    (env : Environment) (name mid : Bytes) (w : World)
    → IsRegistered w
    → IsRegistered (after (start_device_collect env name mid w))
unfolding start_device_collect
start-Registered env name mid w h =
    relaunched_handled name mid
      (continue (check_start env name mid w)
        (λ d. do back ← relaunch name d; pure (start_result name mid back)))
      (start_kept name mid (check_start env name mid w)
        (IsRegistered-same w (after (check_start env name mid w))
          ((check_start-Same env w name mid).at w (SameThreads-refl w)).store h)
        ((check_start-inactive env name mid).at w))

stopped-Registered :
    (name mid : Bytes) (r : Bool × World)
    → IsRegisteredBut name r.1.store
    → RegisteredIfBack (stopped_if_back name mid r)
unfolding stopped_if_back
stopped-Registered name mid (true, w) h = mark_stopped-IsRegistered name w h
stopped-Registered name mid (false, w) h = tt

stop_asked-Registered :
    (name mid : Bytes) (running : Bool) (v : World)
    → IsRegistered v
    → RegisteredIfBack (
        (if running
            then join_stopped name mid
            else pure (some (ok_result mid (text "device collection is not running: " ++ name))))
          v)
unfolding join_stopped pure
stop_asked-Registered name mid true v h =
    stopped-Registered name mid (clear_stale name v) (clear_stale-But name v h)
stop_asked-Registered name mid false v h = h

stop_found-Registered :
    (name mid : Bytes) (o : Outcome World Bool)
    → IsRegistered (after o)
    → RegisteredIfBack (
        continue o (λ found.
          if found
          then (do
            running ← ask_to_stop name
            if running
                then join_stopped name mid
                else pure
                    (some (ok_result mid (text "device collection is not running: " ++ name))))
          else pure (some (error_result mid (device_not_found name)))))
unfolding ask_to_stop pure
stop_found-Registered name mid (thrown what v) h = h
stop_found-Registered name mid (returned true v) h =
    let (running, flags) = request_stop name v.store v.flags in
    let u : World = record v { flags = flags } in
    stop_asked-Registered name mid running u (IsRegistered-same v u refl h)
stop_found-Registered name mid (returned false v) h = h

pub stop-Registered :
    (env : Environment) (name mid : Bytes) (w : World)
    → IsRegistered w
    → RegisteredIfBack (stop_device_collect env name mid w)
unfolding stop_device_collect
stop-Registered env name mid w h =
    stop_found-Registered name mid (on_db (Manager.device_exists env.fault name) w) (
      IsRegistered-same w _
        ((on_db-Same w (Manager.device_exists env.fault name)).at w (SameThreads-refl w)).store h)

rest_started :
    (o : Outcome World (Option CommandResult)) (rest : Exec World Bool)
    → IsRegistered (after o)
    → ((v : World) → IsRegistered v → IsRegistered (after (rest v)))
    → IsRegistered
        (after (continue o (λ result. elim result [ none ↦ pure false | some r ↦ rest ])))
unfolding pure
rest_started (returned (some r) v) rest h go = go v h
rest_started (returned none v) rest h go = h
rest_started (thrown what v) rest h go = h

start_each-Registered :
    (env : Environment) (ds : List Device) (w : World)
    → IsRegistered w
    → IsRegistered (after (start_each env ds w))
unfolding start_each pure
start_each-Registered env [] w h = h
start_each-Registered env (d ∷ ds) w h = elim (Bool-cases (is_zero d.status)) [
  | inl off ↦ rw (off, start_each) (start_each-Registered env ds w h)
  | inr on ↦
      rw (on, start_each)
        (rest_started (start_device_collect env d.name [] w) (start_each env ds)
          (start-Registered env d.name [] w h) (start_each-Registered env ds))
]

devices_started :
    (env : Environment) (o : Outcome World (List Device))
    → IsRegistered (after o)
    → IsRegistered (after (continue o (start_each env)))
devices_started env (returned ds v) h = start_each-Registered env ds v h
devices_started env (thrown what v) h = h

pub start_all-Registered :
    (env : Environment) (w : World) → IsRegistered w → IsRegistered (after (start_all env w))
unfolding start_all
start_all-Registered env w h = devices_started env (on_db (Manager.get_devices env.fault) w) (
    IsRegistered-same w _
      ((on_db-Same w (Manager.get_devices env.fault)).at w (SameThreads-refl w)).store h)

pub cleared-Registered : (r : Bool × World) → RegisteredIfTrue (cleared_if_back r)
unfolding cleared_if_back clear_all_workers
cleared-Registered (true, w) = record { at_name = λ n on. unfold is_active lookup in cc on }
cleared-Registered (false, w) = tt
