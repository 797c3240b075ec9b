-- ===== src/Task/Status.antt =====
-- src/task/DeviceStatusStore.cpp. Each method holds the mutex from its first line to its last, so a
-- method is one step. A std::thread is the number of its worker, and a stop flag, which the store
-- shares with its worker, is a number into the flags.
use collector_service.StdString.{is_found}
use collector_service.Models.{DeviceStatus}
use collector_service.Prelude.{
  Bool, Bytes, List, Option, [], false, if◌then◌else◌, none, some, true, ℕ, ◌==◌, ◌∷◌,
}
use collector_service.Prelude.Dict.{Dict, lookup, put, erase}

pub record StatusStore : Type 0 where
  pub statuses : Dict DeviceStatus
  pub active_devices : Dict (Unit {0})
  pub worker_threads : Dict ℕ
  pub stop_flags : Dict ℕ

-- The values of all stop flags: true asks a worker to stop.
abbrev pub Flags : Type 0
Flags = ℕ → Bool

abbrev pub raise_flag : ℕ → Flags → Flags
raise_flag i flags j = if j == i then true else flags j

abbrev pub empty_store : StatusStore
empty_store = record { statuses = []; active_devices = []; worker_threads = []; stop_flags = [] }

unfoldable pub raise_all : Dict ℕ → Flags → Flags
raise_all [] flags = flags
raise_all ((name, i) ∷ m) flags = raise_all m (raise_flag i flags)

unfoldable pub request_stop_all : StatusStore → Flags → Flags
unfolding raise_all
request_stop_all store flags = raise_all store.stop_flags flags

unfoldable pub values {ℓ} : {V : Type ℓ} → List (Bytes × V) → List V
values [] = []
values ((k, v) ∷ m) = v ∷ values m

unfoldable pub take_all_threads : StatusStore → List ℕ × StatusStore
unfolding values
take_all_threads store = (values store.worker_threads, record store { worker_threads = [] })

unfoldable pub clear_all_workers : StatusStore → StatusStore
clear_all_workers store = record store { stop_flags = []; active_devices = [] }

unfoldable pub get_status : StatusStore → List DeviceStatus
unfolding values
get_status store = values store.statuses

unfoldable pub is_active : Bytes → StatusStore → Bool
unfolding lookup
is_active name store = is_found (lookup name store.active_devices)

-- `none` is a thread that is not joinable.
unfoldable pub take_thread : Bytes → StatusStore → Option ℕ × StatusStore
unfolding lookup erase
take_thread name store = (
  lookup name store.worker_threads,
  record store { worker_threads = erase name store.worker_threads },
)

unfoldable pub erase_stop_flag : Bytes → StatusStore → StatusStore
unfolding erase
erase_stop_flag name store = record store { stop_flags = erase name store.stop_flags }

unfoldable pub add_worker : Bytes → ℕ → ℕ → StatusStore → StatusStore
unfolding put
add_worker name stop_flag thread store = record store {
  active_devices = put name tt store.active_devices;
  stop_flags = put name stop_flag store.stop_flags;
  worker_threads = put name thread store.worker_threads;
}

unfoldable pub mark_start_failed : Bytes → StatusStore → StatusStore
unfolding erase
mark_start_failed name store = record store {
  active_devices = erase name store.active_devices;
  stop_flags = erase name store.stop_flags;
}

unfoldable pub request_stop : Bytes → StatusStore → Flags → Bool × Flags
unfolding is_active lookup
request_stop name store flags =
    if is_active name store
    then (true, elim (lookup name store.stop_flags) [ none ↦ flags | some i ↦ raise_flag i flags ])
    else (false, flags)

unfoldable pub mark_stopped : Bytes → StatusStore → StatusStore
unfolding erase
mark_stopped name store = record store {
  active_devices = erase name store.active_devices;
  stop_flags = erase name store.stop_flags;
}

unfoldable pub set_latest_status : DeviceStatus → StatusStore → StatusStore
unfolding put
set_latest_status status store = record store {
  statuses = put status.device_name status store.statuses;
}
