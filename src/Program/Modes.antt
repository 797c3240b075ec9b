-- ===== src/Program/Modes.antt =====
-- main of src/main.cpp. What the other threads do is an argument: while main waits, and from the end
-- of a mode to the destructor of DataTask. They act beside no other part of main. The names in the
-- log are left out.
pub mod Alive
pub mod Codes
pub mod Ends
use collector_service.Driver.MockServer.ReadBack.{response}
use collector_service.StdString.Number.{stoi}
use collector_service.Command.Processor.{handle}
use collector_service.Task.Control.{stop_all}
use collector_service.Prelude.Result.{Result, ok}
use collector_service.Task.Worker.{Environment, World}
use collector_service.Command.Serializer.{ShowDouble}
use collector_service.ModelFile.Repository.{Files}
use collector_service.StdString.{find, is_found}
use collector_service.Prelude.{
  Bool, Bytes, List, Option, [], drop, equal, false, if◌then◌else◌, is_empty, none, pos, some, text,
  true, ℕ, ℤ, ◌||◌, ◌∷◌, not,
}
use collector_service.Program.{append, is_exit_command, resolve_project_root, Disk}
use collector_service.Server.{start, stop, run, destroy, fresh_server}
use collector_service.Program.{read_text_file}
use collector_service.Prelude.Exec.{◌>>=◌, ◌>>◌, Exec, catch, lift, modify, pure, raise, returned}

-- What the other threads make of the world; `none` where one of them calls std::terminate.
abbrev pub Others : Type 0
Others = World → Option World

-- What main waits for: a line, and what the other threads have done by then.
pub record Reading : Type 0 where
  pub line : Bytes
  pub meanwhile : Others

pub data Ending : Type 0 where
  exited : ℕ → Ending
  blocked : Ending
  terminated : Ending

-- The process: its arguments, its input, and what the constructor of SQLiteManager and the set-up of
-- the two acceptors come to.
pub record Host : Type 0 where
  pub disk : Disk
  pub argv : List Bytes
  pub input : List Reading
  pub after_mode : Others
  pub opened : Bytes → Bytes → Result (Unit {0})
  pub mock_listens : Result (Unit {0})
  pub http_listens : ℤ → Result (Unit {0})

-- The life of a server up to its destructor, which follows stop() or an exception.
unfoldable pub server_ends : Bool → Bool → Result (Unit {0}) → Option (Unit {0})
unfolding start run stop destroy
server_ends started stopped listens =
    elim (if started then start fresh_server else some fresh_server) [
      | none ↦ none
      | some s ↦
          let s' = if started then run listens s else s in destroy (if stopped then stop s' else s')
    ]

-- A mode that came to an end, behind the destructor of a server.
unfoldable pub behind : Option (Unit {0}) → Ending → Ending
behind none (exited code) = terminated
behind none e = e
behind (some _) e = e

-- A mode that threw.
unfoldable pub unwind : Option (Unit {0}) → Bytes → Exec World Ending
unwind none what = pure terminated
unwind (some _) what = raise what

-- A block with a server in it.
unfoldable pub with_server : Bool → Result (Unit {0}) → Exec World Ending → Exec World Ending
unfolding behind unwind server_ends
with_server started listens body =
    catch (do e ← body; pure (behind (server_ends started true listens) e))
      (unwind (server_ends started false listens))

unfoldable pub exit_if_back : Bool → Ending
exit_if_back true = exited 0
exit_if_back false = blocked

-- The other threads act; the value is whether the process is still there.
unfoldable pub let_act : Others → Exec World Bool
let_act others w = elim (others w) [ none ↦ returned false w | some v ↦ returned true v ]

unfoldable pub wait_for_enter : List Reading → Exec World Bool
unfolding let_act
wait_for_enter [] = pure true
wait_for_enter (r ∷ rs) = let_act r.meanwhile

-- const int httpPort = argc >= 3 ? std::stoi(argv[2]) : 8080;
unfoldable pub http_port : List Bytes → Result ℤ
unfolding stoi
http_port [] = ok (pos 8080)
http_port (value ∷ rest) = stoi 10 value

unfoldable pub command_text : Files → Bytes → Bytes → Result Bytes
unfolding read_text_file equal text
command_text files option value =
    if equal option (text "--cmd-file") then read_text_file files value else ok value

unfoldable pub starts_collection : Bytes → Bool
unfolding find text
starts_collection t =
    is_found (find (text "start_device_collect") t) || is_found (find (text "start_all") t)

-- stopAll at the end of a mode.
unfoldable pub finish_mode : Exec World Ending
finish_mode = do stopped ← stop_all; pure (exit_if_back stopped)

module _ (env : Environment) (show_double : ShowDouble) where
  -- The loop over the lines of the console: `none` where it was left, or how the process ends in it.
  unfoldable pub console_loop : List Reading → Exec World (Option Ending)
  unfolding is_exit_command is_empty let_act
  console_loop [] = pure none
  console_loop (r ∷ rs) =
      let rest = console_loop rs in
      do
        alive ← let_act r.meanwhile
        if alive
            then (if is_exit_command r.line
                then pure none
                else if is_empty r.line
                then rest
                else (do
                  response ← handle env show_double r.line
                  elim response [ none ↦ pure (some blocked) | some t ↦ rest ]))
            else pure (some terminated)

  -- The block of --console.
  unfoldable pub console : List Reading → Exec World Ending
  unfolding finish_mode
  console input = do left ← console_loop input; elim left [ none ↦ finish_mode | some e ↦ pure e ]

  -- The block of --http.
  unfoldable pub serve_http : List Reading → Exec World Ending
  unfolding wait_for_enter finish_mode
  serve_http input = do alive ← wait_for_enter input; if alive then finish_mode else pure terminated

  -- The block of --cmd and --cmd-file, from the text of the command on.
  unfoldable pub run_command : Bytes → List Reading → Exec World Ending
  unfolding wait_for_enter starts_collection finish_mode
  run_command t input = do
    response ← handle env show_double t
    elim response [
      | none ↦ pure blocked
      | some r ↦
          if starts_collection t
          then (do alive ← wait_for_enter input; if alive then finish_mode else pure terminated)
          else pure (exited 0)
    ]

  -- `rest` are the arguments behind the option.
  unfoldable pub command_mode : Host → Bytes → List Bytes → Exec World Ending
  unfolding with_server command_text starts_collection
  command_mode host option [] = pure (exited 0)
  command_mode host option (value ∷ more) = do
    t ← lift (command_text host.disk.files option value)
    with_server (starts_collection t) host.mock_listens (run_command t host.input)

  -- The three tests of the arguments; the value is the exit code of main.
  unfoldable pub run_mode : Host → List Bytes → Exec World Ending
  unfolding with_server http_port equal text
  run_mode host (option ∷ rest) =
      if equal option (text "--console")
      then with_server true host.mock_listens (console host.input)
      else if equal option (text "--http") || equal option (text "--serve-http")
      then (do
        port ← lift (http_port rest)
        with_server true host.mock_listens
            (with_server true (host.http_listens port) (serve_http host.input)))
      else if equal option (text "--cmd") || equal option (text "--cmd-file")
      then command_mode host option rest
      else pure (exited 0)
  run_mode host [] = pure (exited 0)

-- ~DataTask, behind what the other threads do up to it.
unfoldable pub destroy_task : Others → Ending → Exec World Ending
unfolding let_act
destroy_task others (exited code) = do
  alive ← let_act others
  if alive
      then (do stopped ← stop_all; pure (if stopped then exited code else blocked))
      else pure terminated
destroy_task others e = pure e

unfoldable pub executable_of : List Bytes → Bytes
executable_of [] = []
executable_of (program ∷ rest) = program

-- The environment of a process whose project stands in a directory.
unfoldable pub environment_in : Environment → Bytes → Environment
unfolding append text
environment_in env root = record env {
  repository = record {
    model_directory = append (append root (text "config")) (text "models");
    fallback_directory = append root (text "config");
  };
}

unfoldable pub main : Environment → ShowDouble → Host → Exec World Ending
unfolding resolve_project_root append text executable_of
main env show_double host =
    catch
      (do
        root ← lift (resolve_project_root host.disk (executable_of host.argv))
        lift (
            host.opened (append (append root (text "data")) (text "collector.sqlite"))
              (append (append root (text "scripts")) (text "init.sql")))
        e ←
            catch (run_mode (environment_in env root) show_double host (drop 1 host.argv))
              (λ what. pure (exited 1))
        destroy_task host.after_mode e)
      (λ what. pure (exited 1))
