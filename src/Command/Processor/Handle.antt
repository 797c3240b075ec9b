-- ===== src/Command/Processor/Handle.antt =====
-- The reply to a command, whatever its category.
use collector_service.Task.Control.{start_all, stop_all}
use collector_service.Prelude.Exec.Keeps.{
  Ensures, Ensures-bind, Ensures-chain, Ensures-if, Ensures-pure,
}
use collector_service.Models.{CommandResult}
use collector_service.Task.Worker.{Environment, World, error_result}
use collector_service.Prelude.Exec.{Exec, Outcome, gets, handled, pure, returned, thrown}
use collector_service.Prelude.{Bytes, Option, equal, inl, inr, none, refl, some, text, ◌≡◌, ◌⊎◌}
use collector_service.Task.Status.{get_status}
use collector_service.Command.Serializer.{ShowDouble, result_json, statuses_json}
use collector_service.Command.Processor.Replies.{
  IsBack, IsResultOf, Replies, RepliesIfBack, create_device-Replies, delete_device-Replies,
  error-Replies, message-IsBack, start-RepliesIfBack, stop-RepliesIfBack, update_device-Replies,
}
use collector_service.Command.Processor.{
  dispatch, handle, handle_start_all, handle_start_device_collect, handle_stop_all,
  handle_stop_device_collect, reply, reply_if_back,
}
use collector_service.Command.Field.{extract_string_field}

-- The text of such a result, or of the statuses with that mid; no text where a join blocks.
abbrev pub IsReplyTo : ShowDouble → Bytes → Option Bytes → World → Type 0
IsReplyTo show_double mid none w = Unit {0}
IsReplyTo show_double mid (some reply) w =
    ((r : CommandResult) × IsResultOf mid r × (reply ≡ result_json r))
    ⊎ (reply ≡ statuses_json show_double (get_status w.store) mid)

module _ (env : Environment) (show_double : ShowDouble) (mid : Bytes) where
  start_all-RepliesIfBack : RepliesIfBack env mid (handle_start_all env show_double mid)
  unfolding handle_start_all
  start_all-RepliesIfBack =
      Ensures-bind (start_all env) _ (λ back. Ensures-pure _ (message-IsBack env mid _ back))

  stop_all-RepliesIfBack : RepliesIfBack env mid (handle_stop_all env show_double mid)
  unfolding handle_stop_all
  stop_all-RepliesIfBack =
      Ensures-bind stop_all _ (λ back. Ensures-pure _ (message-IsBack env mid _ back))

  -- A command's end in the text of its reply.
  abbrev IsAnswered : Exec World (Option Bytes) → Type 0
  IsAnswered m = Ensures (IsReplyTo show_double mid) m

  given-IsAnswered :
      (o : Option Bytes) → ((w : World) → IsReplyTo show_double mid o w) → IsAnswered (pure o)
  unfolding pure
  given-IsAnswered o h = record { at = λ s b t e. let same : o ≡ b = cc e in rw (← same) (h t) }

  reply-IsAnswered : (m : Exec World CommandResult) → Replies mid m → IsAnswered (reply m)
  unfolding reply
  reply-IsAnswered m h =
      Ensures-chain m _ h (λ r is. given-IsAnswered (some (result_json r)) (λ w. inl (r, is, refl)))

  back-IsAnswered :
      (o : Option CommandResult)
      → IsBack mid o
      → IsAnswered (elim o [ none ↦ pure none | some r ↦ pure (some (result_json r)) ])
  back-IsAnswered none h = given-IsAnswered none (λ w. tt)
  back-IsAnswered (some r) h = given-IsAnswered (some (result_json r)) (λ w. inl (r, h, refl))

  reply_if_back-IsAnswered :
      (m : Exec World (Option CommandResult))
      → RepliesIfBack env mid m
      → IsAnswered (reply_if_back m)
  unfolding reply_if_back
  reply_if_back-IsAnswered m h = Ensures-chain m _ h back-IsAnswered

  statuses-IsAnswered :
      IsAnswered (gets (λ w. some (statuses_json show_double (get_status w.store) mid)))
  unfolding gets
  statuses-IsAnswered = record {
    at = λ s o t e.
        let there : s ≡ t = cc e in
        let text_of : World → Option Bytes =
          λ w. some (statuses_json show_double (get_status w.store) mid) in
        let same : text_of s ≡ o = cc e in rw (← same, ← there) (inr refl);
  }

  dispatch-IsAnswered :
      (request category : Bytes) → IsAnswered (dispatch env show_double request mid category)
  unfolding dispatch handle_start_device_collect handle_stop_device_collect
  dispatch-IsAnswered request category =
      let name = extract_string_field request (text "device_name") in
      Ensures-if (equal category (text "create_device")) _ _
        (reply-IsAnswered _ (create_device-Replies env mid request))
        (Ensures-if (equal category (text "delete_device")) _ _
          (reply-IsAnswered _ (delete_device-Replies env mid request))
          (Ensures-if (equal category (text "update_device")) _ _
            (reply-IsAnswered _ (update_device-Replies env mid request))
            (Ensures-if (equal category (text "start_device_collect")) _ _
              (reply_if_back-IsAnswered _ (start-RepliesIfBack env mid name))
              (Ensures-if (equal category (text "stop_device_collect")) _ _
                (reply_if_back-IsAnswered _ (stop-RepliesIfBack env mid name))
                (Ensures-if (equal category (text "start_all")) _ _
                  (reply_if_back-IsAnswered _ start_all-RepliesIfBack)
                  (Ensures-if (equal category (text "stop_all")) _ _
                    (reply_if_back-IsAnswered _ stop_all-RepliesIfBack)
                    (Ensures-if (equal category (text "get_status")) _ _ statuses-IsAnswered
                      (reply-IsAnswered _ (error-Replies env mid _)))))))))

  handled-IsAnswered :
      (o : Outcome World (Option Bytes))
      → ((a : Option Bytes) (t : World) → o ≡ returned a t → IsReplyTo show_double mid a t)
      → (a : Option Bytes) × (t : World) × (handled o
            (λ what. pure (some (result_json (error_result mid what))))
          ≡ returned a t)
        × IsReplyTo show_double mid a t
  unfolding pure
  handled-IsAnswered (returned a t) h = (a, t, refl, h a t refl)
  handled-IsAnswered (thrown what t) h = (
    some (result_json (error_result mid what)),
    t,
    refl,
    inl (error_result mid what, (refl, inr refl), refl),
  )

-- A command, whatever its text is, ends in no exception: its reply is a result with the mid of the
-- command and the code 200 or 500, or the statuses as they then are, with that mid; or there is no reply,
-- since a join blocks.
pub handle-IsReplyTo :
    (env : Environment) (show_double : ShowDouble) (request : Bytes) (w : World)
    → (reply : Option Bytes) × (v : World) × (handle env show_double request w ≡ returned reply v)
      × IsReplyTo show_double (extract_string_field request (text "mid")) reply v
unfolding handle
handle-IsReplyTo env show_double request w =
    let mid = extract_string_field request (text "mid") in
    let category = extract_string_field request (text "category") in
    handled-IsAnswered env show_double mid (dispatch env show_double request mid category w)
      ((dispatch-IsAnswered env show_double mid request category).at w)
