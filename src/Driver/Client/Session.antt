-- ===== src/Driver/Client/Session.antt =====
-- The client over any sequence of calls, against a flag.
use collector_service.Prelude.Exec.{after}
use collector_service.Prelude.{
  Bool, Bytes, List, [], ap, false, refl, some, true, ℤ, ◌&&◌, ◌||◌, ◌∙◌, ◌∷◌, ◌≡◌,
}
use collector_service.Driver.Client.{close, connect, send_query, Client, is_connected, new_client}
use collector_service.Prelude.Result.{Result, ok, err}

pub data ClientCall : Type 0 where
  connects : Result (Unit {0}) → ClientCall
  asks : Result Bytes → ClientCall
  closes : ClientCall

unfoldable pub client_call : ClientCall → Client → Client
unfolding connect send_query close
client_call (ClientCall.connects attempt) c = (connect attempt c).1
client_call (ClientCall.asks reply) c = after (send_query reply c)
client_call ClientCall.closes c = close c

unfoldable pub client_calls : List ClientCall → Client → Client
unfolding client_call
client_calls [] c = c
client_calls (x ∷ xs) c = client_calls xs (client_call x c)

unfoldable pub is_good {ℓ} : {A : Type ℓ} → Result A → Bool
is_good (ok a) = true
is_good (err what) = false

-- The connection as a flag: an attempt that succeeds raises it, a query that fails or a close takes
-- it down.
unfoldable pub flag_after : ClientCall → Bool → Bool
unfolding is_good
flag_after (ClientCall.connects attempt) b = b || is_good attempt
flag_after (ClientCall.asks reply) b = b && is_good reply
flag_after ClientCall.closes b = false

unfoldable pub flag_after_all : List ClientCall → Bool → Bool
unfolding flag_after
flag_after_all [] b = b
flag_after_all (x ∷ xs) b = flag_after_all xs (flag_after x b)

abbrev client_at : Bytes → ℤ → Bool → Client
client_at host port b = record { host = host; port = port; impl = some b }

client_call-flag :
    (host : Bytes) (port : ℤ) (x : ClientCall) (b : Bool)
    → client_call x (client_at host port b) ≡ client_at host port (flag_after x b)
unfolding client_call flag_after connect send_query close is_connected is_good
client_call-flag host port (ClientCall.connects (ok _)) true = refl
client_call-flag host port (ClientCall.connects (ok _)) false = refl
client_call-flag host port (ClientCall.connects (err what)) true = refl
client_call-flag host port (ClientCall.connects (err what)) false = refl
client_call-flag host port (ClientCall.asks (ok reply)) true = refl
client_call-flag host port (ClientCall.asks (ok reply)) false = refl
client_call-flag host port (ClientCall.asks (err what)) true = refl
client_call-flag host port (ClientCall.asks (err what)) false = refl
client_call-flag host port ClientCall.closes b = refl

client_calls-flag :
    (host : Bytes) (port : ℤ) (xs : List ClientCall) (b : Bool)
    → client_calls xs (client_at host port b) ≡ client_at host port (flag_after_all xs b)
unfolding client_calls flag_after_all
client_calls-flag host port [] b = refl
client_calls-flag host port (x ∷ xs) b =
    ap (client_calls xs) (client_call-flag host port x b)
    ∙ client_calls-flag host port xs (flag_after x b)

-- Over any sequence of calls of a new client the pointer to its socket is never null, its address
-- stays, and it is connected just as the flag says: since the last close and the last query that
-- failed, an attempt has succeeded.
pub client_calls-new_client :
    (host : Bytes) (port : ℤ) (xs : List ClientCall)
    → client_calls xs (new_client host port)
      ≡ record { host = host; port = port; impl = some (flag_after_all xs false) }
unfolding new_client
client_calls-new_client host port xs = client_calls-flag host port xs false
