-- ===== src/Task/Cycle/Frame.antt =====
-- A round up to its status update only uses the database.
use collector_service.Task.Response.{process_response}
use collector_service.Task.Query.{build_query, make_cid}
use collector_service.Task.Worker.{
  Environment, Worker, World, device_offline, init_data_points_by_device, on_db,
}
use collector_service.Prelude.Exec.Keeps.{
  Keeps, Keeps-bind, Keeps-catch, Keeps-if, Keeps-lift, Keeps-pure, Keeps-raise,
}
use collector_service.Prelude.{Bytes, List, [], if◌then◌else◌, is_empty, is_zero, leb, text}
use collector_service.Task.Frame.{
  SameThreads, init_data_points_by_device-Same, on_db-Same, same_rules,
}
use collector_service.Task.Cycle.{
  RoundInput, at_stage, cleanup, collect, connect_failed, exchange, load_device, load_points,
  max_rows_per_device,
}
use collector_service.Models.{DataPoint, Device, is_ok}
use collector_service.Prelude.Exec.{◌>>=◌, Exec, lift, pure, raise}
use collector_service.Db.Manager

module _ (w : World) where
  at_stage-Same :
      {A : Type 0} (stage : Bytes) (m : Exec World A)
      → Keeps (SameThreads w) m
      → Keeps (SameThreads w) (at_stage stage m)
  unfolding at_stage
  at_stage-Same stage m km = Keeps-catch m _ km (λ what. Keeps-raise _)

  ruleset round_rules = (same_rules, at_stage-Same)

module _ (env : Environment) (w : World) where
  load_points-Same : (d : Device) → Keeps (SameThreads w) (load_points env d)
  unfolding load_points
  load_points-Same d =
      Keeps-bind (at_stage _ (on_db (Manager.get_data_points_by_device_name env.fault d.name))) _
        (at_stage-Same w _ _ (on_db-Same w _))
        (λ points.
          Keeps-if (is_empty points) _ _
            (Keeps-bind
              (at_stage (text "initDataPoints") (do
                r ← init_data_points_by_device env d.name []
                if is_ok r then pure tt else raise r.msg))
              _
              (at_stage-Same w _ _ (
                Keeps-bind (init_data_points_by_device env d.name []) _
                  (init_data_points_by_device-Same env w d.name []) (λ r. search same_rules)))
              (λ _.
                Keeps-bind
                  (at_stage _ (on_db (Manager.get_data_points_by_device_name env.fault d.name))) _
                  (at_stage-Same w _ _ (on_db-Same w _)) (λ again. search round_rules)))
            (Keeps-pure points))

  pub load_device-Same : (k : Worker) → Keeps (SameThreads w) (load_device env k)
  unfolding load_device
  load_device-Same k = at_stage-Same w _ _ (on_db-Same w _)

  exchange-Same :
      (input : RoundInput) (d : Device) (points : List DataPoint)
      → Keeps (SameThreads w) (exchange env input d points)
  unfolding exchange
  exchange-Same input d points =
      Keeps-bind (at_stage _ (lift (build_query (make_cid d.name input.cid_ms) points))) _
        (search round_rules)
        (λ query.
          Keeps-bind
            (if input.connected
              then pure tt
              else at_stage (text "connect") (raise (connect_failed d)))
            _ (search round_rules)
            (λ _.
              Keeps-bind
                (at_stage (text "sendQuery") (do
                  r ← lift input.reply
                  if is_empty r then raise (text "response is empty") else pure r))
                _
                (at_stage-Same w _ _
                  (Keeps-bind (lift input.reply) _ (Keeps-lift _) (λ r. search same_rules)))
                (λ response.
                  Keeps-bind
                    (at_stage _
                      (lift (process_response env.stod input.response_time d points response)))
                    _ (search round_rules)
                    (λ records.
                      Keeps-bind (at_stage _ (on_db (Manager.insert_resources env.fault records))) _
                        (search round_rules) (λ _. Keeps-pure response)))))

  cleanup-Same : (input : RoundInput) (k : Worker) → Keeps (SameThreads w) (cleanup env input k)
  unfolding cleanup
  cleanup-Same input k =
      Keeps-if (leb k.next_cleanup input.steady_ms) _ _
        (Keeps-catch _ _
          (Keeps-bind
            (on_db (Manager.cleanup_device env.fault env.newest k.device.name max_rows_per_device))
            _ (on_db-Same w _) (λ _. Keeps-pure _))
          (λ what. Keeps-pure _))
        (Keeps-pure _)

  pub collect-Same : (input : RoundInput) (k : Worker) → Keeps (SameThreads w) (collect env input k)
  unfolding collect
  collect-Same input k =
      Keeps-bind
        (if is_zero k.device.status
          then at_stage (text "loadDevice") (raise (device_offline k.device.name))
          else pure tt)
        _ (search round_rules)
        (λ _. Keeps-bind (load_points env k.device) _ (load_points-Same k.device) (λ points.
          Keeps-bind (exchange env input k.device points) _ (exchange-Same input k.device points)
            (λ response.
              Keeps-bind (cleanup env input k) _ (cleanup-Same input k) (λ next. Keeps-pure _))))
