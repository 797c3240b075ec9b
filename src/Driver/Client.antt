-- ===== src/Driver/Client.antt =====
-- src/driver/DriverClient.cpp. `impl` is the pointer to the socket, none where it is null, and holds
-- whether it is connected. What the socket does is an argument of each method: `attempt` what
-- resolving, connecting and the handshake come to, and `answer` what writing and reading come to.
pub mod Session
use collector_service.StdString.Number.{show_int}
use collector_service.Prelude.{
  Bool, Bytes, Option, false, if◌then◌else◌, none, some, text, true, ℤ, ◌++◌, ◌∷◌,
}
use collector_service.Prelude.Exec.{◌>>=◌, ◌>>◌, Exec, returned, thrown}
use collector_service.Prelude.Result.{Result, ok, err}

pub record Client : Type 0 where
  pub host : Bytes
  pub port : ℤ
  pub impl : Option Bool

unfoldable pub new_client : Bytes → ℤ → Client
new_client host port = record { host = host; port = port; impl = some false }

-- impl_->connected; a null pointer reads as false
unfoldable pub is_connected : Client → Bool
is_connected c = elim c.impl [ none ↦ false | some b ↦ b ]

unfoldable pub connect : Result (Unit {0}) → Client → Bool × Client
unfolding is_connected
connect attempt c = if is_connected c then (true, c) else elim attempt [
  | ok _ ↦ (true, record c { impl = some true })
  | err what ↦ (false, record c { impl = some false })
]

unfoldable pub close : Client → Client
close c = elim c.impl [ none ↦ c | some b ↦ record c { impl = some false } ]

unfoldable pub send_failed : Client → Bytes → Bytes
unfolding text show_int
send_failed c what =
    text "DriverClient sendQuery failed for ws://"
    ++ (c.host ++ (b':' ∷ (show_int c.port ++ (text ": " ++ what))))

unfoldable pub send_query : Result Bytes → Exec Client Bytes
unfolding is_connected close send_failed text
send_query answer c =
    if is_connected c
    then (elim answer [
      | ok reply ↦ returned reply c
      | err what ↦ thrown (send_failed c what) (close c)
    ])
    else thrown (text "DriverClient is not connected") c
