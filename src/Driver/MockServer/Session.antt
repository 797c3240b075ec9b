-- ===== src/Driver/MockServer/Session.antt =====
-- MockDriverServer::handleSession of src/driver/MockDriverServer.cpp.
use collector_service.Models.{Double}
use collector_service.Prelude.{Bool, Bytes, List, [], if◌then◌else◌, ◌∷◌}
use collector_service.Driver.MockServer.{handle_query}

-- What ws.read comes to.
pub data Frame : Type 0 where
  message : Bytes → Frame
  closed : Frame
  broken : Bytes → Frame

-- One pass of the loop: the flag as its test reads it, the frame, whether the response could be
-- written, and the clock.
pub record Turn : Type 0 where
  pub running : Bool
  pub frame : Frame
  pub written : Bool
  pub timestamp : Double

module _ (fixed_text : Double → Bytes) where
  -- The responses that were handed to ws.write, as far as the session was read.
  unfoldable pub handle_session : List Turn → List Bytes
  unfolding handle_query
  handle_session [] = []
  handle_session (t ∷ ts) =
      let rest = handle_session ts in
      if t.running
      then (elim t.frame [
        | Frame.message m ↦ handle_query fixed_text t.timestamp m ∷ (if t.written then rest else [])
        | Frame.closed ↦ []
        | Frame.broken what ↦ []
      ])
      else []
