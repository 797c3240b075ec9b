-- ===== src/Command/Processor/Replies.antt =====
-- The result of each handler, with the mid of its command.
use collector_service.Db.DeviceTable.{device_not_found}
use collector_service.Task.Control.{
  ask_to_stop, check_start, clear_stale, join_stopped, relaunch, start_device_collect, start_result,
  stop_device_collect, stopped_if_back,
}
use collector_service.Command.Field.{extract_string_field}
use collector_service.Command.Processor.Devices.{names_status}
use collector_service.Task.Status.{mark_start_failed}
use collector_service.Models.{CommandResult, DeviceUpsert, is_ok}
use collector_service.Command.Parser.{parse_device_upsert}
use collector_service.Db.Manager.{model_differs, target_name}
use collector_service.Prelude.Exec.{Exec, lift, pure, ◌>>=◌, returned}
use collector_service.Task.Worker.{
  Environment, World, error_result, init_data_points, init_data_points_by_device, ok_result, on_db,
  on_store,
}
use collector_service.Command.Processor.Answer.{initialized}
use collector_service.Command.Processor.{
  create_checked, handle_create_device, handle_delete_device, handle_update_device, or_return,
  update_checked, message_if_back,
}
use collector_service.Prelude.Exec.Keeps.{
  Ensures, Ensures-bind, Ensures-catch, Ensures-chain, Ensures-if, Ensures-pure,
}
use collector_service.Prelude.{
  Bool, Bytes, Option, [], false, if◌then◌else◌, inl, inr, is_empty, none, not, refl, some, text,
  true, ◌≡◌, ◌⊎◌, ◌++◌,
}
use collector_service.Db.Manager

-- A result with the mid of the command, and one of the two codes.
abbrev pub IsResultOf : Bytes → CommandResult → Type 0
IsResultOf mid r = (r.mid ≡ mid) × ((r.code ≡ 200) ⊎ (r.code ≡ 500))

abbrev pub IsBack : Bytes → Option CommandResult → Type 0
IsBack mid none = Unit {0}
IsBack mid (some r) = IsResultOf mid r

abbrev no_result : Option CommandResult
no_result = none

or_return-Ensures :
    {Q : CommandResult → World → Type 0} (test : Bool) (r : CommandResult)
    (rest : Exec World CommandResult)
    → Ensures Q (pure r)
    → Ensures Q rest
    → Ensures Q (or_return test r rest)
or_return-Ensures true r rest h k = h
or_return-Ensures false r rest h k = k

-- A handler whose result is one of the command with the mid.
abbrev pub Replies : Bytes → Exec World CommandResult → Type 0
Replies mid m = Ensures (λ r w. IsResultOf mid r) m

module _ (env : Environment) (mid : Bytes) where
  ok-Replies : (msg : Bytes) → Replies mid (pure (ok_result mid msg))
  ok-Replies msg = Ensures-pure _ (refl, inl refl)

  pub error-Replies : (msg : Bytes) → Replies mid (pure (error_result mid msg))
  error-Replies msg = Ensures-pure _ (refl, inr refl)

  init-Replies : (name : Bytes) → Replies mid (init_data_points_by_device env name mid)
  unfolding init_data_points_by_device
  init-Replies name =
      Ensures-catch _ _ (Ensures-bind (init_data_points env name) _ (λ u. ok-Replies _))
        (λ what. error-Replies what)

  -- Behind a result that is passed on where it is not a success.
  init_or_go_on :
      (m : Exec World CommandResult) (msg : Bytes)
      → Replies mid m
      → Replies mid (do
        initialized ← m
        or_return (not (is_ok initialized)) initialized (pure (ok_result mid msg)))
  init_or_go_on m msg h =
      Ensures-chain m _ h
        (λ r is. or_return-Ensures (not (is_ok r)) r _ (Ensures-pure r is) (ok-Replies msg))

  pub create_device-Replies : (request : Bytes) → Replies mid (handle_create_device env request mid)
  unfolding handle_create_device create_checked
  create_device-Replies request = Ensures-bind (lift (parse_device_upsert request)) _ (λ u.
      or_return-Ensures (is_empty u.name) _ _ (error-Replies _) (
        or_return-Ensures (is_empty u.model) _ _ (error-Replies _) (
          Ensures-bind (on_db (Manager.device_exists env.fault u.name)) _ (λ found.
            or_return-Ensures found _ _ (error-Replies _) (
              Ensures-bind (on_db (Manager.create_device env.fault u)) _ (λ made.
                init_or_go_on (init_data_points_by_device env u.name mid) _
                  (init-Replies u.name)))))))

  pub delete_device-Replies : (request : Bytes) → Replies mid (handle_delete_device env request mid)
  unfolding handle_delete_device
  delete_device-Replies request =
      let name = extract_string_field request (text "device_name") in
      Ensures-bind (on_db (Manager.device_exists env.fault name)) _ (λ found.
        or_return-Ensures (not found) _ _ (error-Replies _)
          (Ensures-bind (on_db (Manager.delete_device env.fault name)) _ (λ gone. ok-Replies _)))

  update_checked-Replies :
      (given : DeviceUpsert) (names_status : Bool)
      → Replies mid (update_checked env given names_status mid)
  unfolding update_checked
  update_checked-Replies given names_status =
      Ensures-bind (on_db (Manager.get_device_by_name env.fault (target_name given))) _ (λ before.
        let u : DeviceUpsert =
          if names_status then given else record given { status = before.status } in
        Ensures-bind (on_db (Manager.update_device env.fault u)) _ (λ made.
          init_or_go_on
            (if model_differs before u
              then init_data_points_by_device env u.name mid
              else pure (ok_result mid []))
            _ (Ensures-if (model_differs before u) _ _ (init-Replies u.name) (ok-Replies []))))

  pub update_device-Replies : (request : Bytes) → Replies mid (handle_update_device env request mid)
  unfolding handle_update_device
  update_device-Replies request = Ensures-bind (lift (parse_device_upsert request)) _ (λ u.
      or_return-Ensures (is_empty u.name) _ _ (error-Replies _) (
        or_return-Ensures (is_empty u.model) _ _ (error-Replies _) (
          Ensures-bind (on_db (Manager.device_exists env.fault (target_name u))) _ (λ found.
            or_return-Ensures (not found) _ _ (error-Replies _) (update_checked-Replies u _)))))

  start_result-IsBack : (name : Bytes) (back : Bool) → IsBack mid (start_result name mid back)
  unfolding start_result
  start_result-IsBack name true = (refl, inl refl)
  start_result-IsBack name false = tt

  pub message-IsBack :
      (message : Bytes) (back : Bool) → IsBack mid (message_if_back mid message back)
  unfolding message_if_back
  message-IsBack message true = (refl, inl refl)
  message-IsBack message false = tt

  stopped-IsBack :
      (name : Bytes) (p : Bool × World) (o : Option CommandResult) (v : World)
      → stopped_if_back name mid p ≡ returned o v
      → IsBack mid o
  unfolding stopped_if_back
  stopped-IsBack name (true, w) o v e =
      let same : some (ok_result mid (text "device collection stopped: " ++ name)) ≡ o = cc e in
      rw (← same) (refl, inl refl)
  stopped-IsBack name (false, w) o v e = let same : no_result ≡ o = cc e in rw (← same) tt

  -- A handler that may block.
  abbrev pub RepliesIfBack : Exec World (Option CommandResult) → Type 0
  RepliesIfBack m = Ensures (λ o w. IsBack mid o) m

  pub start-RepliesIfBack : (name : Bytes) → RepliesIfBack (start_device_collect env name mid)
  unfolding start_device_collect
  start-RepliesIfBack name =
      Ensures-catch _ _
        (Ensures-bind (check_start env name mid) _ (λ d.
          Ensures-bind (relaunch name d) _
            (λ back. Ensures-pure (start_result name mid back) (start_result-IsBack name back))))
        (λ what.
          Ensures-bind (on_store (mark_start_failed name)) _
            (λ u. Ensures-pure (some (error_result mid what)) (refl, inr refl)))

  pub stop-RepliesIfBack : (name : Bytes) → RepliesIfBack (stop_device_collect env name mid)
  unfolding stop_device_collect join_stopped
  stop-RepliesIfBack name = Ensures-bind (on_db (Manager.device_exists env.fault name)) _ (λ found.
      Ensures-if found _ _
        (Ensures-bind (ask_to_stop name) _ (λ running.
          Ensures-if running (join_stopped name mid) _
            (record { at = λ s o v e. stopped-IsBack name (clear_stale name s) o v e })
            (Ensures-pure (some (ok_result mid (text "device collection is not running: " ++ name)))
              (refl, inl refl))))
        (Ensures-pure (some (error_result mid (device_not_found name))) (refl, inr refl)))
