-- ===== src/Command/Processor/Answer.antt =====
-- How a handler ends behind its request.
use collector_service.Command.Processor.{or_return}
use collector_service.Prelude.Exec.Keeps.{Ensures, Ensures-bind, Ensures-catch, Ensures-pure}
use collector_service.Db.Manager.Constraints.{Request}
use collector_service.Task.Worker.{
  Environment, World, init_data_points, init_data_points_by_device, ok_result,
}
use collector_service.Prelude.{
  Bool, Bytes, List, [], arith, false, if◌then◌else◌, inl, inr, not, refl, true, ◌≡◌, ◌⊎◌,
}
use collector_service.Prelude.Exec.Triple.{
  Triple, Triple-bind, Triple-kept, Triple-pure, Triple-weaken,
}
use collector_service.Command.Processor.Devices.{Answered, Asks, DeviceCommand, Threw}
use collector_service.Models.{CommandResult, Device, is_ok}
use collector_service.Db.Registry.{act, registry_of}
use collector_service.Task.Shown.{Shows, init_data_points_by_device-Shows}
use collector_service.Prelude.Exec.{◌>>=◌, pure}

-- The two codes that a method of DataTask answers with.
abbrev OkOrError : CommandResult → World → Type 0
OkOrError r w = (r.code ≡ 200) ⊎ (r.code ≡ 500)

init-OkOrError :
    (env : Environment) (name mid : Bytes)
    → Ensures OkOrError (init_data_points_by_device env name mid)
unfolding init_data_points_by_device
init-OkOrError env name mid =
    Ensures-catch _ _
      (Ensures-bind (init_data_points env name) _
        (λ _. Ensures-pure {Q = λ r. (r.code ≡ 200) ⊎ (r.code ≡ 500)} _ (inl refl)))
      (λ what. Ensures-pure {Q = λ r. (r.code ≡ 200) ⊎ (r.code ≡ 500)} _ (inr refl))

code_is_ok : (r : CommandResult) → r.code ≡ 200 → is_ok r ≡ true
unfolding is_ok
code_is_ok r e = ground arith

code_is_error : (r : CommandResult) → r.code ≡ 500 → is_ok r ≡ false
unfolding is_ok
code_is_error r e = ground arith

module _ (request : Bytes) (ds : List Device) (c : DeviceCommand) (env : Environment) (q : Request)
    (asked : Asks request ds c q) where
  abbrev IsDone : World → Type 0
  IsDone w = Shows (act q (registry_of ds)) w.db

  -- The end of a handler, behind the attempt to make the points.
  answer :
      (r : CommandResult) (mid msg : Bytes)
      → (r.code ≡ 200) ⊎ (r.code ≡ 500)
      → Triple IsDone
          (Answered request ds c)
          (Threw request ds c)
          (or_return (not (is_ok r)) r (pure (ok_result mid msg)))
  answer r mid msg (inl e) =
      let fine : is_ok r ≡ true = code_is_ok r e in
      rw fine (Triple-pure _ (λ w d. inl (refl, (q, asked, d))))
  answer r mid msg (inr e) =
      let bad : is_ok r ≡ false = code_is_error r e in
      rw bad (Triple-pure _ (λ w d. inr (e, inr (q, asked, d))))

  pub initialized :
      (name mid msg : Bytes)
      → Triple IsDone (Answered request ds c) (Threw request ds c) (do
        r ← init_data_points_by_device env name mid
        or_return (not (is_ok r)) r (pure (ok_result mid msg)))
  initialized name mid msg =
      Triple-bind (init_data_points_by_device env name mid) _
        (Triple-weaken _
          (Triple-kept _ (init_data_points_by_device-Shows env (act q (registry_of ds)) name mid)
            (init-OkOrError env name mid))
          (λ w d. d) (λ r w h. h) (λ w d. inr (q, asked, d)))
        (λ r. record { at = λ w h. (answer r mid msg h.1).at w h.0 })

  pub initialized_if :
      (test : Bool) (name mid msg : Bytes)
      → Triple IsDone (Answered request ds c) (Threw request ds c) (do
        r ← (if test then init_data_points_by_device env name mid else pure (ok_result mid []))
        or_return (not (is_ok r)) r (pure (ok_result mid msg)))
  unfolding pure
  initialized_if true name mid msg = initialized name mid msg
  initialized_if false name mid msg = record {
    at = λ w d. (answer (ok_result mid []) mid msg (inl refl)).at w d;
  }
