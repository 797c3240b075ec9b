-- ===== src/Http/Session/Get.antt =====
-- A session that only asks.
use collector_service.Prelude.Exec.Keeps.{Keeps, Keeps-pure, Keeps-bind, Keeps-if}
use collector_service.Http.Router.Get.{OnlyRead, OnlyRead-refl, route-Keeps}
use collector_service.Task.Worker.{Environment, World}
use collector_service.Prelude.{
  All, List, [], some, true, ◌∷◌, ◌≡◌, Bool, Option, false, none, not, ◌||◌,
}
use collector_service.Http.Router.{is_get, HttpReply, route}
use collector_service.Command.Serializer.{ShowDouble}
use collector_service.Http.Session.{Exchange, Incoming, handle_session, answer, respond}
use collector_service.Prelude.Exec.{Exec, after}

-- Every request that is read has the method GET.
abbrev pub IsGet : Incoming → Type 0
IsGet (Incoming.request_read request keep_alive) = is_get request.method ≡ true
IsGet Incoming.end_of_stream = Unit {0}
IsGet (Incoming.read_failed what) = Unit {0}

abbrev pub OnlyGets : List Exchange → Type 0
OnlyGets = All (λ (x : Exchange). IsGet x.incoming)

module _ (env : Environment) (show_double : ShowDouble) (w : World) where
  respond-Keeps :
      (is_last : Bool) (rest : Exec World (Option (List HttpReply))) (back : Option HttpReply)
      → Keeps (OnlyRead w) rest
      → Keeps (OnlyRead w) (respond is_last rest back)
  unfolding respond
  respond-Keeps is_last rest none k = Keeps-pure none
  respond-Keeps true rest (some r) k = Keeps-pure (some (r ∷ []))
  respond-Keeps false rest (some r) k = Keeps-bind rest _ k (λ later. Keeps-pure _)

  answer-Keeps :
      (written : Bool) (rest : Exec World (Option (List HttpReply))) (x : Incoming)
      → IsGet x
      → Keeps (OnlyRead w) rest
      → Keeps (OnlyRead w) (answer env show_double written rest x)
  unfolding answer
  answer-Keeps written rest (Incoming.request_read request keep_alive) h k =
      Keeps-bind (route env show_double request) _ (route-Keeps env show_double w request h)
        (λ back. respond-Keeps (not written || not keep_alive) rest back k)
  answer-Keeps written rest Incoming.end_of_stream h k = Keeps-pure (some [])
  answer-Keeps written rest (Incoming.read_failed what) h k = Keeps-pure (some [])

  session-Keeps :
      (xs : List Exchange) → OnlyGets xs → Keeps (OnlyRead w) (handle_session env show_double xs)
  unfolding handle_session
  session-Keeps [] h = Keeps-pure (some [])
  session-Keeps (x ∷ xs) h =
      Keeps-if x.running _ _
        (answer-Keeps x.written (handle_session env show_double xs) x.incoming h.0
          (session-Keeps xs h.1))
        (Keeps-pure (some []))

-- A session of any length in which every request is a GET changes nothing, however it ends.
pub handle_session-OnlyRead :
    (env : Environment) (show_double : ShowDouble) (xs : List Exchange) (w : World)
    → OnlyGets xs
    → OnlyRead w (after (handle_session env show_double xs w))
handle_session-OnlyRead env show_double xs w h =
    (session-Keeps env show_double w xs h).at w (OnlyRead-refl w)
