-- ===== src/Task/Control/Registered.antt =====
-- What the methods of DataTask and its workers keep of the status store.
use collector_service.Models.{Device}
use collector_service.Task.Worker.{Worker, World}
use collector_service.Prelude.Dict.{lookup, lookup-erase, lookup-put}
use collector_service.Task.Status.{
  StatusStore, add_worker, erase_stop_flag, is_active, mark_start_failed, mark_stopped, take_thread,
}
use collector_service.Task.Control.{clear_stale, join, join_if_joinable, join_worker, launch}
use collector_service.Task.Cycle.{find_worker, finish}
use collector_service.Prelude.{
  Bool-cases, Bytes, Option, equal, false, inl, inr, none, refl, some, true, ℕ, ◌≡◌,
}
use collector_service.Task.Control.Stop.{IsRegistered}

-- The thread and the stop flag of a device, as the store has them.
abbrev pub Registered : Bytes → StatusStore → Type 0
Registered name st =
    (i : ℕ) × (lookup name st.stop_flags ≡ some i) × (lookup name st.worker_threads ≡ some i)

-- Every active device but `name` has its thread and its stop flag.
pub record IsRegisteredBut (name : Bytes) (st : StatusStore) : Type 0 where
  pub at_other : (n : Bytes) → equal name n ≡ false → is_active n st ≡ true → Registered n st

pub IsRegistered-But : (name : Bytes) (w : World) → IsRegistered w → IsRegisteredBut name w.store
IsRegistered-But name w h = record { at_other = λ n ne on. h.at_name n on }

pub IsRegistered-same : (w v : World) → v.store ≡ w.store → IsRegistered w → IsRegistered v
IsRegistered-same w v e h = record {
  at_name = λ n on.
      let on' : is_active n w.store ≡ true = rw (← e) on in
      let (i, fl, th) = h.at_name n on' in (i, rw e fl, rw e th);
}

mark_stopped-But :
    (name gone : Bytes) (st : StatusStore)
    → IsRegisteredBut name st
    → IsRegisteredBut name (mark_stopped gone st)
unfolding mark_stopped is_active
mark_stopped-But name gone st h = record {
  at_other = λ n ne on. elim (Bool-cases (equal gone n)) [
    | inl yes_it_is ↦
        let bad = rw (lookup-erase gone n st.active_devices, yes_it_is) at on in cc bad
    | inr no_it_is ↦
        let on' = rw (lookup-erase gone n st.active_devices, no_it_is) at on in
        let (i, fl, th) = h.at_other n ne on' in
        (i, rw (lookup-erase gone n st.stop_flags, no_it_is) fl, th)
  ];
}

-- A device that is stopped, or whose start failed, need not be registered.
pub mark_stopped-IsRegistered :
    (name : Bytes) (w : World)
    → IsRegisteredBut name w.store
    → IsRegistered (record w { store = mark_stopped name w.store })
unfolding mark_stopped is_active
mark_stopped-IsRegistered name w h = record {
  at_name = λ n on. elim (Bool-cases (equal name n)) [
    | inl yes_it_is ↦
        let bad = rw (lookup-erase name n w.store.active_devices, yes_it_is) at on in cc bad
    | inr no_it_is ↦ (mark_stopped-But name name w.store h).at_other n no_it_is on
  ];
}

pub mark_start_failed-IsRegistered :
    (name : Bytes) (w : World)
    → IsRegistered w
    → IsRegistered (record w { store = mark_start_failed name w.store })
unfolding mark_start_failed
mark_start_failed-IsRegistered name w h =
    unfold mark_stopped in mark_stopped-IsRegistered name w (IsRegistered-But name w h)

take_thread-But :
    (name : Bytes) (st : StatusStore)
    → IsRegisteredBut name st
    → IsRegisteredBut name (erase_stop_flag name (take_thread name st).1)
unfolding take_thread erase_stop_flag is_active
take_thread-But name st h = record {
  at_other = λ n ne on.
      let (i, fl, th) = h.at_other n ne on in
      (
        i,
        rw (lookup-erase name n st.stop_flags, ne) fl,
        rw (lookup-erase name n st.worker_threads, ne) th,
      );
}

join_worker-But :
    (name : Bytes) (o : Option Worker) (w : World)
    → IsRegisteredBut name w.store
    → IsRegisteredBut name (join_worker o w).1.store
unfolding join_worker finish
join_worker-But name none w h = h
join_worker-But name (some k) w h = elim (Bool-cases (w.flags k.thread)) [
  | inl up ↦ rw (up, join_worker) (mark_stopped-But name k.device.name w.store h)
  | inr down ↦ rw (down, join_worker) h
]

join_if_joinable-But :
    (name : Bytes) (o : Option ℕ) (w : World)
    → IsRegisteredBut name w.store
    → IsRegisteredBut name (join_if_joinable o w).1.store
unfolding join_if_joinable join
join_if_joinable-But name none w h = h
join_if_joinable-But name (some t) w h = join_worker-But name (find_worker t w.workers) w h

pub clear_stale-But :
    (name : Bytes) (w : World) → IsRegistered w → IsRegisteredBut name (clear_stale name w).1.store
unfolding clear_stale
clear_stale-But name w h =
    unfold take_thread in
    join_if_joinable-But name ((take_thread name w.store).0)
      (record w { store = erase_stop_flag name (take_thread name w.store).1 })
      (take_thread-But name w.store (IsRegistered-But name w h))

pub launch-IsRegistered :
    (name : Bytes) (d : Device) (w : World)
    → IsRegisteredBut name w.store
    → IsRegistered (launch name d w)
unfolding launch add_worker is_active
launch-IsRegistered name d w h = record {
  at_name = λ n on. elim (Bool-cases (equal name n)) [
    | inl yes_it_is ↦ (
      w.started,
      rw (lookup-put name n w.started w.store.stop_flags, yes_it_is) refl,
      rw (lookup-put name n w.started w.store.worker_threads, yes_it_is) refl,
    )
    | inr no_it_is ↦
        let on' = rw (lookup-put name n tt w.store.active_devices, no_it_is) at on in
        let (i, fl, th) = h.at_other n no_it_is on' in
        (
          i,
          rw (lookup-put name n w.started w.store.stop_flags, no_it_is) fl,
          rw (lookup-put name n w.started w.store.worker_threads, no_it_is) th,
        )
  ];
}
