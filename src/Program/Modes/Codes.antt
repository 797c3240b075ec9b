-- ===== src/Program/Modes/Codes.antt =====
-- The endings that the modes of main come to.
use collector_service.Program.Modes.Alive.{Dies, if_alive, let_act-Alive, wait-Alive}
use collector_service.Program.{is_exit_command}
use collector_service.Command.Processor.{handle}
use collector_service.Task.Worker.{Environment, World}
use collector_service.Prelude.Result.{Result, err, ok}
use collector_service.Command.Serializer.{ShowDouble}
use collector_service.Prelude.Exec.Keeps.{
  Ensures, Ensures-bind, Ensures-catch, Ensures-chain, Ensures-if, Ensures-pure, Ensures-raise,
}
use collector_service.Prelude.{
  Bool, Bytes, List, Option, [], arith, equal, false, if◌then◌else◌, inl, inr, none, refl, some,
  text, true, ℕ, ℤ, ◌||◌, ◌∷◌, ◌≡◌, ◌≤◌, ◌⊎◌, is_empty,
}
use collector_service.Prelude.Exec.{Exec, lift, pure, ◌>>=◌}
use collector_service.Task.Control.{stop_all}
use collector_service.Program.Modes.{
  Ending, Host, Reading, behind, command_mode, command_text, console, console_loop, exit_if_back,
  http_port, run_command, run_mode, serve_http, server_ends, starts_collection, unwind,
  wait_for_enter, with_server, finish_mode, let_act,
}
use collector_service.Server.{start, stop, run, destroy}

-- What an ending shows of the process: main returns 0 or 1, and is terminated only where an acceptor
-- could not be set up or another thread has called std::terminate.
abbrev pub IsEnding : Host → Ending → Type 0
IsEnding host (Ending.exited code) = code ≤ 1
IsEnding host Ending.blocked = Unit {0}
IsEnding host Ending.terminated =
    ((what : Bytes) × ((host.mock_listens ≡ err what)
        ⊎ ((port : ℤ) × (host.http_listens port ≡ err what))))
    ⊎ Dies host.input
    ⊎ ((w : World) × (host.after_mode w ≡ none))

-- An action that comes to such an ending, where it returns.
abbrev pub Comes : Host → Exec World Ending → Type 0
Comes host m = Ensures (λ e w. IsEnding host e) m

exit_if_back-IsEnding : (host : Host) (b : Bool) → IsEnding host (exit_if_back b)
unfolding exit_if_back
exit_if_back-IsEnding host true = omega arith
exit_if_back-IsEnding host false = tt

module _ (host : Host) where
  finish_mode-Comes : Comes host finish_mode
  unfolding finish_mode
  finish_mode-Comes = Ensures-bind stop_all _ (λ b. Ensures-pure _ (exit_if_back-IsEnding host b))

  exited-Comes : (code : ℕ) → code ≤ 1 → Comes host (pure (Ending.exited code))
  exited-Comes code h = Ensures-pure _ h

  blocked-Comes : Comes host (pure Ending.blocked)
  blocked-Comes = Ensures-pure _ tt

  server_ends-fails :
      (started stopped : Bool) (listens : Result (Unit {0}))
      → server_ends started stopped listens ≡ none
      → (what : Bytes) × (listens ≡ err what)
  unfolding server_ends start run stop destroy
  server_ends-fails started stopped (err what) e = (what, refl)
  server_ends-fails true true (ok u) e = cc e
  server_ends-fails true false (ok u) e = cc e
  server_ends-fails false true (ok u) e = cc e
  server_ends-fails false false (ok u) e = cc e

  behind-IsEnding :
      (end : Option (Unit {0})) (e : Ending)
      → (end ≡ none → IsEnding host Ending.terminated)
      → IsEnding host e
      → IsEnding host (behind end e)
  unfolding behind
  behind-IsEnding none (Ending.exited code) t h = t refl
  behind-IsEnding none Ending.blocked t h = h
  behind-IsEnding none Ending.terminated t h = h
  behind-IsEnding (some u) e t h = h

  unwind-Comes :
      (end : Option (Unit {0})) (what : Bytes)
      → (end ≡ none → IsEnding host Ending.terminated)
      → Comes host (unwind end what)
  unfolding unwind
  unwind-Comes none what t = Ensures-pure _ (t refl)
  unwind-Comes (some u) what t = Ensures-raise what

  with_server-Comes :
      (started : Bool) (listens : Result (Unit {0})) (body : Exec World Ending)
      → ((what : Bytes) → listens ≡ err what → IsEnding host Ending.terminated)
      → Comes host body
      → Comes host (with_server started listens body)
  unfolding with_server
  with_server-Comes started listens body fails h =
      let failed : (stopped : Bool)
          → server_ends started stopped listens ≡ none
          → IsEnding host Ending.terminated =
        λ stopped e.
          (let (what, f) = server_ends-fails started stopped listens e in fails what f) in
      Ensures-catch (do e ← body; pure (behind (server_ends started true listens) e)) _
        (Ensures-chain body (λ e. pure (behind (server_ends started true listens) e)) h
          (λ e ending.
            Ensures-pure _
              (behind-IsEnding (server_ends started true listens) e (failed true) ending)))
        (λ what. unwind-Comes (server_ends started false listens) what (failed false))

  module _ (env : Environment) (show_double : ShowDouble) where
    abbrev IsLeft : Option Ending → Type 0
    IsLeft none = Unit {0}
    IsLeft (some e) = IsEnding host e

    answered-Comes :
        (response : Option Bytes) (rest : Exec World (Option Ending))
        → Ensures (λ o w. IsLeft o) rest
        → Ensures {S = World}
            (λ o w. IsLeft o)
            (elim response [ none ↦ pure (some Ending.blocked) | some t ↦ rest ])
    answered-Comes none rest h = Ensures-pure (some Ending.blocked) tt
    answered-Comes (some t) rest h = h

    console_loop-Comes :
        (input : List Reading)
        → (Dies input → Dies host.input)
        → Ensures (λ o w. IsLeft o) (console_loop env show_double input)
    unfolding console_loop
    console_loop-Comes [] dies = Ensures-pure none tt
    console_loop-Comes (r ∷ rs) dies =
        let later = console_loop-Comes rs (λ d. dies (inr d)) in
        Ensures-chain (let_act r.meanwhile) _ (let_act-Alive r.meanwhile) (λ alive h.
          if_alive ((w : World) × (r.meanwhile w ≡ none)) alive _ _ h
            (Ensures-if (is_exit_command r.line) _ _ (Ensures-pure none tt) (
              Ensures-if (is_empty r.line) _ _ later (
                Ensures-bind (handle env show_double r.line) _
                  (λ response. answered-Comes response _ later))))
            (λ d. Ensures-pure (some Ending.terminated) (inr (inl (dies (inl d))))))

    left-Comes :
        (left : Option Ending)
        → IsLeft left
        → Comes host (elim left [ none ↦ finish_mode | some e ↦ pure e ])
    left-Comes none h = finish_mode-Comes
    left-Comes (some e) h = Ensures-pure e h

    console-Comes : Comes host (console env show_double host.input)
    unfolding console
    console-Comes =
        Ensures-chain (console_loop env show_double host.input) _
          (console_loop-Comes host.input (λ d. d)) left-Comes

    entered-Comes : Comes host (do
      alive ← wait_for_enter host.input
      if alive then finish_mode else pure Ending.terminated)
    entered-Comes = Ensures-chain (wait_for_enter host.input) _ (wait-Alive host.input) (λ alive h.
        if_alive (Dies host.input) alive _ _ h (finish_mode-Comes)
          (λ d. Ensures-pure Ending.terminated (inr (inl d))))

    serve_http-Comes : Comes host (serve_http env show_double host.input)
    unfolding serve_http
    serve_http-Comes = entered-Comes

    responded-Comes :
        (t : Bytes) (response : Option Bytes)
        → Comes host (elim response [
          | none ↦ pure Ending.blocked
          | some r ↦
              if starts_collection t
              then (do
                alive ← wait_for_enter host.input
                if alive then finish_mode else pure Ending.terminated)
              else pure (Ending.exited 0)
        ])
    responded-Comes t none = blocked-Comes
    responded-Comes t (some r) =
        Ensures-if (starts_collection t) _ _ entered-Comes (exited-Comes 0 (omega arith))

    run_command-Comes : (t : Bytes) → Comes host (run_command env show_double t host.input)
    unfolding run_command
    run_command-Comes t = Ensures-bind (handle env show_double t) _ (responded-Comes t)

    mock_fails : (what : Bytes) → host.mock_listens ≡ err what → IsEnding host Ending.terminated
    mock_fails what e = inl (what, inl e)

    command_mode-Comes :
        (option : Bytes) (rest : List Bytes)
        → Comes host (command_mode env show_double host option rest)
    unfolding command_mode
    command_mode-Comes option [] = exited-Comes 0 (omega arith)
    command_mode-Comes option (value ∷ more) =
        Ensures-bind (lift (command_text host.disk.files option value)) _ (λ t.
          with_server-Comes (starts_collection t) host.mock_listens _ mock_fails
            (run_command-Comes t))

    pub run_mode-Comes : (args : List Bytes) → Comes host (run_mode env show_double host args)
    unfolding run_mode
    run_mode-Comes [] = exited-Comes 0 (omega arith)
    run_mode-Comes (option ∷ rest) =
        Ensures-if (equal option (text "--console")) _ _
          (with_server-Comes true host.mock_listens _ mock_fails console-Comes)
          (Ensures-if (equal option (text "--http") || equal option (text "--serve-http")) _ _
            (Ensures-bind (lift (http_port rest)) _ (λ port.
              with_server-Comes true host.mock_listens _ mock_fails (
                with_server-Comes true (host.http_listens port) _
                  (λ what e. inl (what, inr (port, e))) serve_http-Comes)))
            (Ensures-if (equal option (text "--cmd") || equal option (text "--cmd-file")) _ _
              (command_mode-Comes option rest) (exited-Comes 0 (omega arith))))
