-- ===== src/Server.antt =====
-- start, stop and the destructor, which src/HttpServer.cpp and src/driver/MockDriverServer.cpp have
-- word for word the same: an atomic flag and a thread. `none` is std::terminate, which a joinable
-- std::thread calls where it is destroyed or assigned to.
pub mod Lifetime
use collector_service.Prelude.{
  Bool, List, Option, [], false, if◌then◌else◌, none, some, suc, true, ℕ, ◌∷◌,
}
use collector_service.Prelude.Result.{Result, ok, err}

pub record Server : Type 0 where
  pub running : Bool
  pub joinable : Bool

abbrev pub fresh_server : Server
fresh_server = record { running = false; joinable = false }

unfoldable pub start : Server → Option Server
start s =
    if s.running
    then some s
    else if s.joinable
    then none
    else some (record { running = true; joinable = true })

-- The join behind the flag comes back: the loop of run() reads the flag at least every 50 ms.
unfoldable pub stop : Server → Server
stop s = if s.running then record { running = false; joinable = false } else s

-- run() up to its loop, given what the set-up of the acceptor throws.
unfoldable pub run : Result (Unit {0}) → Server → Server
run (ok _) s = s
run (err what) s = record s { running = false }

unfoldable pub destroy : Server → Option (Unit {0})
unfolding stop
destroy s = if (stop s).joinable then none else some tt

-- What accept() of the non-blocking acceptor comes to.
pub data Accepted : Type 0 where
  would_block : Accepted
  accept_failed : Accepted
  connection : Accepted

-- The loop of run(): the flag as each test reads it, with what accept() then comes to; the value is
-- how many sessions were started.
unfoldable pub accept_loop : List (Bool × Accepted) → ℕ
accept_loop [] = 0
accept_loop ((running, a) ∷ rest) =
    let later = accept_loop rest in
    if running then (elim a [ Accepted.connection ↦ suc later | _ ↦ later ]) else 0
