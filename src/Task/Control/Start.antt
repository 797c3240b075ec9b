-- ===== src/Task/Control/Start.antt =====
-- startDeviceCollect: what it makes of the threads and of the status store.
use collector_service.Models.{CommandResult, Device}
use collector_service.Db.DeviceTable.{device_not_found}
use collector_service.Prelude.Dict.{lookup-erase, erase}
use collector_service.Task.Control.{
  already_running, check_start, relaunch, start_device_collect, start_result,
}
use collector_service.Task.Frame.{SameThreads, SameThreads-refl, check_start-Same}
use collector_service.Prelude.{
  Bytes, Option, ap, equal_refl, false, if◌then◌else◌, is_zero, none, refl, some, true, ◌≡◌,
}
use collector_service.Prelude.Exec.Keeps.{Ensures, Ensures-bind, Ensures-guard}
use collector_service.Task.Status.{is_active, mark_start_failed}
use collector_service.Task.Worker.{
  Environment, World, device_offline, error_result, on_db, on_store, points_or_init,
}
use collector_service.Prelude.Exec.{
  ◌>>=◌, ◌>>◌, Outcome, after, continue, handled, pure, raise, returned, thrown,
}
use collector_service.Db.Manager

pub check_start-inactive :
    (env : Environment) (name mid : Bytes)
    → Ensures (λ d w. is_active name w.store ≡ false) (check_start env name mid)
unfolding check_start
check_start-inactive env name mid =
    Ensures-bind (on_db (Manager.device_exists env.fault name)) _ (λ found.
      Ensures-bind (if found then pure tt else raise (device_not_found name)) _ (λ _.
        Ensures-bind (on_db (Manager.get_device_by_name env.fault name)) _ (λ d.
          Ensures-bind (if is_zero d.status then raise (device_offline name) else pure tt) _ (λ _.
            Ensures-bind (points_or_init env name mid) _
              (λ points. Ensures-guard (λ w. is_active name w.store) (already_running name) d)))))

-- The store after a start that failed: the device is not active and has no stop flag, whatever it
-- had before; its thread stays.
abbrev pub Detached : Bytes → World → World → Type 0
Detached name w v =
    (is_active name v.store ≡ false)
    × (v.store.stop_flags ≡ erase name w.store.stop_flags)
    × (v.store.worker_threads ≡ w.store.worker_threads)
    × (v.workers ≡ w.workers)
    × (v.flags ≡ w.flags)

mark_start_failed-Detached :
    (name : Bytes) (w v : World)
    → SameThreads w v
    → Detached name w (record v { store = mark_start_failed name v.store })
unfolding mark_start_failed is_active
mark_start_failed-Detached name w v s = (
  rw (lookup-erase name name v.store.active_devices, equal_refl name),
  ap (λ st. erase name st.stop_flags) s.store,
  ap (λ st. st.worker_threads) s.store,
  s.workers,
  s.flags,
)

-- What a start of a device that is collected from comes to.
abbrev pub RefusedAndDetached : Bytes → World → Outcome World (Option CommandResult) → Type 0
RefusedAndDetached name w (returned (some r) v) = (r.code ≡ 500) × Detached name w v
RefusedAndDetached name w (returned none v) = ⊥
RefusedAndDetached name w (thrown what v) = ⊥

start_outcome :
    (env : Environment) (name mid : Bytes) (w : World) (o : Outcome World Device)
    → is_active name w.store ≡ true
    → check_start env name mid w ≡ o
    → SameThreads w (after o)
    → RefusedAndDetached name w (
        handled
          (continue o (λ d. do back ← relaunch name d; pure (start_result name mid back)))
          (λ what. do on_store (mark_start_failed name); pure (some (error_result mid what))))
unfolding on_store pure
start_outcome env name mid w (returned d v) on e s =
    let off = (check_start-inactive env name mid).at w d v e in
    let on' : is_active name v.store ≡ true = rw s.store on in absurd (cc (off, on'))
start_outcome env name mid w (thrown what v) on e s = (refl, mark_start_failed-Detached name w v s)

-- Starting a device whose collection runs is refused, and takes the running device out of the set
-- of active devices and its stop flag out of the store, while its thread and its worker stay.
pub start_device_collect-detaches :
    (env : Environment) (name mid : Bytes) (w : World)
    → is_active name w.store ≡ true
    → RefusedAndDetached name w (start_device_collect env name mid w)
unfolding start_device_collect
start_device_collect-detaches env name mid w on =
    start_outcome env name mid w (check_start env name mid w) on refl
      ((check_start-Same env w name mid).at w (SameThreads-refl w))
