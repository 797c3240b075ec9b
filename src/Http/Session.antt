-- ===== src/Http/Session.antt =====
-- HttpServer::handleSession of src/HttpServer.cpp, and makeResponse of src/http/HttpResponse.cpp.
pub mod Get
use collector_service.Command.Serializer.{ShowDouble}
use collector_service.Http.Router.{HttpReply, HttpRequest, route}
use collector_service.Task.Worker.{Environment, World}
use collector_service.Prelude.{
  Bool, Bytes, List, Option, [], if◌then◌else◌, none, not, some, text, ℕ, ◌||◌, ◌∷◌, false, true,
}
use collector_service.Prelude.Exec.{◌>>=◌, ◌>>◌, Exec, pure}

-- What http::read comes to.
pub data Incoming : Type 0 where
  request_read : HttpRequest → Bool → Incoming
  end_of_stream : Incoming
  read_failed : Bytes → Incoming

-- One pass of the loop: the flag as its test reads it, what is read, with the request's keep-alive
-- flag, and whether the response could be written.
pub record Exchange : Type 0 where
  pub running : Bool
  pub incoming : Incoming
  pub written : Bool

-- Behind route: the response is the last one where it could not be written or the connection is
-- not kept; a request that is blocked leaves its session so.
unfoldable pub respond :
    Bool
    → Exec World (Option (List HttpReply))
    → Option HttpReply
    → Exec World (Option (List HttpReply))
respond is_last rest none = pure none
respond true rest (some r) = pure (some (r ∷ []))
respond false rest (some r) = do
  later ← rest
  pure (elim later [ none ↦ none | some rs ↦ some (r ∷ rs) ])

unfoldable pub answer :
    Environment
    → ShowDouble
    → Bool
    → Exec World (Option (List HttpReply))
    → Incoming
    → Exec World (Option (List HttpReply))
answer env show_double written rest (Incoming.request_read request keep_alive) = do
  back ← route env show_double request
  respond (not written || not keep_alive) rest back
answer env show_double written rest Incoming.end_of_stream = pure (some [])
answer env show_double written rest (Incoming.read_failed what) = pure (some [])

-- The responses of a session, as far as it was read; `none` is a session that is blocked in a join.
unfoldable pub handle_session :
    Environment → ShowDouble → List Exchange → Exec World (Option (List HttpReply))
handle_session env show_double [] = pure (some [])
handle_session env show_double (x ∷ xs) =
    let rest = handle_session env show_double xs in
    if x.running then answer env show_double x.written rest x.incoming else pure (some [])

-- The fields of a response that makeResponse sets.
pub record HttpResponse : Type 0 where
  pub status : ℕ
  pub version : ℕ
  pub server : Bytes
  pub content_type : Bytes
  pub keep_alive : Bool
  pub body : Bytes

unfoldable pub make_response : ℕ → Bytes → ℕ → Bool → HttpResponse
unfolding text
make_response status body version keep_alive = record {
  status = status;
  version = version;
  server = text "collector-service";
  content_type = text "application/json";
  keep_alive = keep_alive;
  body = body;
}
