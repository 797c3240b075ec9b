-- ===== src/Task/Race.antt =====
-- startDeviceCollect of src/DataTask.cpp from isActive on, split at each call of the status store: a
-- method of the store holds its mutex, but nothing holds one from isActive to addWorker. Several
-- threads, the callers, start one device, and its workers end when they like.
pub mod Overlap
pub mod Clash
use collector_service.Prelude.Dict.{lookup}
use collector_service.StdString.{is_found}
use collector_service.Task.Status.{
  StatusStore, add_worker, erase_stop_flag, is_active, mark_start_failed, mark_stopped, take_thread,
}
use collector_service.Prelude.{
  Bool, Bytes, Option, false, if◌then◌else◌, none, some, suc, true, ℕ, ◌==◌, ◌≡◌,
}

-- How far a call has come.
pub data Phase : Type 0 where
  checks : Phase
  may_take : Phase
  took : Option ℕ → Phase
  joins : Option ℕ → Phase
  may_make : Phase
  made : ℕ → Phase
  added : Phase
  fails : Phase
  refused : Phase

-- `alive` are the threads that have not ended; `terminated` is std::terminate.
pub record Race : Type 0 where
  pub store : StatusStore
  pub phases : ℕ → Phase
  pub alive : ℕ → Bool
  pub started : ℕ
  pub is_terminated : Bool

abbrev pub to_phase : ℕ → Phase → Race → Race
to_phase i p w = record w { phases = λ j. if j == i then p else w.phases j }

-- if (statusStore_.isActive(deviceName)) { throw …; }
unfoldable pub check_active : Bytes → ℕ → Race → Race
unfolding is_active
check_active name i w =
    to_phase i (if is_active name w.store then Phase.fails else Phase.may_take) w

-- The handler of the exception.
unfoldable pub fail_start : Bytes → ℕ → Race → Race
unfolding mark_start_failed
fail_start name i w = to_phase i Phase.refused (record w { store = mark_start_failed name w.store })

unfoldable pub take_stale : Bytes → ℕ → Race → Race
unfolding take_thread
take_stale name i w =
    let (stale, store) = take_thread name w.store in
    to_phase i (Phase.took stale) (record w { store = store })

unfoldable pub erase_flag : Bytes → ℕ → Option ℕ → Race → Race
unfolding erase_stop_flag
erase_flag name i stale w =
    to_phase i (Phase.joins stale) (record w { store = erase_stop_flag name w.store })

-- std::thread(&DataTask::runDeviceTask, …), an argument of addWorker
unfoldable pub make_thread : ℕ → Race → Race
make_thread i w = to_phase i (Phase.made w.started) (record w {
  alive = (λ t. if t == w.started then true else w.alive t);
  started = suc w.started;
})

-- addWorker: an assignment to a joinable std::thread is std::terminate.
unfoldable pub add_thread : Bytes → ℕ → ℕ → Race → Race
unfolding add_worker lookup
add_thread name i t w =
    if is_found (lookup name w.store.worker_threads)
    then record w { is_terminated = true }
    else to_phase i Phase.added (record w { store = add_worker name t t w.store })

-- The end of runDeviceTask.
unfoldable pub end_thread : Bytes → ℕ → Race → Race
unfolding mark_stopped
end_thread name t w = record w {
  store = mark_stopped name w.store;
  alive = (λ s. if s == t then false else w.alive s);
}

module _ (name : Bytes) where
  -- A step of caller `i`.
  pub data Move (i : ℕ) (w : Race) : Race → Type 0 where
    check : w.phases i ≡ Phase.checks → Move i w (check_active name i w)
    take_it : w.phases i ≡ Phase.may_take → Move i w (take_stale name i w)
    erase_it : {o : Option ℕ} → w.phases i ≡ Phase.took o → Move i w (erase_flag name i o w)
    join_none : w.phases i ≡ Phase.joins none → Move i w (to_phase i Phase.may_make w)
    join_ended :
        {t : ℕ}
        → w.phases i ≡ Phase.joins (some t)
        → w.alive t ≡ false
        → Move i w (to_phase i Phase.may_make w)
    make : w.phases i ≡ Phase.may_make → Move i w (make_thread i w)
    add : {t : ℕ} → w.phases i ≡ Phase.made t → Move i w (add_thread name i t w)
    fail : w.phases i ≡ Phase.fails → Move i w (fail_start name i w)

  -- Steps of the callers that `P` allows, in any order, and of workers that end.
  pub data Runs (P : ℕ → Type 0) (w : Race) : Race → Type 0 where
    at_start : Runs P w w
    moved : {i : ℕ} {u v : Race} → P i → Runs P w u → Move i u v → Runs P w v
    ended : (t : ℕ) {u : Race} → Runs P w u → Runs P w (end_thread name t u)
