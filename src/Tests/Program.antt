-- ===== src/Tests/Program.antt =====
-- The theorems on the program, its servers and its threads at concrete inputs.
use collector_service.Http.Router.{Method}
use collector_service.Task.Worker.{World}
use collector_service.Task.Race.Clash.{Anyone, overlap-terminates}
use collector_service.Driver.Client.Session.{
  ClientCall, client_calls, client_calls-new_client, flag_after_all,
}
use collector_service.Prelude.Exec.{after}
use collector_service.Task.Race.Overlap.{alone-survives}
use collector_service.Prelude.Dict.{lookup}
use collector_service.Http.Session.{Exchange, Incoming}
use collector_service.Prelude.Result.{err, ok}
use collector_service.Program.Root.{IsRoot, resolve_project_root-IsRoot}
use collector_service.Program.Modes.Ends.{Ends}
use collector_service.Task.Status.{empty_store, is_active}
use collector_service.Db.Schema.{DeviceSchema, Opening, SchemaFile, construct, create_tables}
use collector_service.ModelFile.Repository.{Files}
use collector_service.Http.Router.Get.{OnlyRead}
use collector_service.Tests.Data.{db_a, dev_a, env_a, world_a}
use collector_service.Prelude.{
  Bytes, List, [], arith, equal, false, none, pos, refl, some, text, true, ◌||◌, ◌∷◌, ◌≡◌, is_empty,
}
use collector_service.Http.Session.Get.{handle_session-OnlyRead}
use collector_service.Db.Schema.Version.{HasStatus, construct-HasStatus}
use collector_service.Server.Lifetime.{Call, make_calls, make_calls-destroy, run-terminates}
use collector_service.Program.{Disk, absolute, append, resolve_project_root, without_name}
use collector_service.Program.Modes.{Host}
use collector_service.Task.Race.{Race, Phase, Runs, Move, check_active}
use collector_service.Server.{start, stop, run, destroy, fresh_server, Server}
use collector_service.Driver.Client.{new_client}
use collector_service.Http.Router.{is_get}
use collector_service.Http.Session.{handle_session}

-- A project in /srv, started from /srv/build.
abbrev disk_a : Disk
disk_a = record {
  current_path = text "/srv/build";
  weakly_canonical = λ path. ok path;
  files = record {
    path_exists =
        λ path. equal path (text "/srv/scripts/init.sql") || equal path (text "/srv/config");
    content = λ path. none;
  };
}

resolve_project_root-IsRoot_example :
    (root : Bytes) × (resolve_project_root disk_a (text "app") ≡ ok root)
    × IsRoot disk_a (text "/srv/build/app") root
unfolding absolute append text is_empty equal without_name
resolve_project_root-IsRoot_example =
    resolve_project_root-IsRoot disk_a (text "app") (text "/srv/build/app") refl

-- A console that is told to start everything and to go, on a port that is in use.
abbrev host_a : Host
host_a = record {
  disk = disk_a;
  argv = text "app" ∷ text "--console" ∷ [];
  input =
      record { line = text "{\"category\":\"start_all\"}"; meanwhile = λ w. some w }
      ∷ record { line = text "exit"; meanwhile = λ w. some w }
      ∷ [];
  after_mode = λ w. some w;
  opened = λ database_path init_path. ok tt;
  mock_listens = err (text "address in use");
  http_listens = λ port. ok tt;
}

abbrev idle_a : World
idle_a = record { db = db_a; store = empty_store; flags = λ j. false; workers = []; started = 0 }

make_calls-destroy_example :
    (t : Server) × (make_calls
        (Call.calls_start ∷ Call.calls_stop ∷ Call.calls_start ∷ [])
        fresh_server
      ≡ some t)
    × (destroy t ≡ some tt)
make_calls-destroy_example =
    make_calls-destroy (Call.calls_start ∷ Call.calls_stop ∷ Call.calls_start ∷ []) fresh_server
      refl

run-terminates_example :
    (destroy (run (err (text "address in use")) (record { running = true; joinable = true }))
      ≡ none)
    × (destroy
          (stop (run (err (text "address in use")) (record { running = true; joinable = true })))
        ≡ none)
    × (start (run (err (text "address in use")) (record { running = true; joinable = true }))
        ≡ none)
run-terminates_example =
    run-terminates (text "address in use") (record { running = true; joinable = true }) refl

abbrev calls_a : List ClientCall
calls_a =
    ClientCall.connects (ok tt) ∷ ClientCall.asks (err (text "reset")) ∷ ClientCall.closes ∷ []

client_calls-new_client_example :
    client_calls calls_a (new_client (text "127.0.0.1") (pos 9001)) ≡ record {
      host = text "127.0.0.1";
      port = pos 9001;
      impl = some (flag_after_all calls_a false);
    }
client_calls-new_client_example = client_calls-new_client (text "127.0.0.1") (pos 9001) calls_a

-- Two callers that are about to start the same device.
abbrev race_a : Race
race_a = record {
  store = empty_store;
  phases = λ i. Phase.checks;
  alive = λ t. false;
  started = 0;
  is_terminated = false;
}

overlap-terminates_example : (v : Race) × Runs dev_a Anyone race_a v × (v.is_terminated ≡ true)
unfolding is_active lookup
overlap-terminates_example =
    overlap-terminates dev_a race_a 0 1 (λ e. omega arith) refl refl refl refl refl

alone-survives_example : (check_active dev_a 0 race_a).is_terminated ≡ false
alone-survives_example =
    alone-survives dev_a 0 race_a (check_active dev_a 0 race_a) refl refl
      (Runs.moved refl Runs.at_start (Move.check refl))

-- A GET request of a session that is then closed.
abbrev exchanges_a : List Exchange
exchanges_a =
    record {
      running = true;
      incoming =
          Incoming.request_read
            (record { method = Method.get_method; target = text "/api/devices"; body = [] }) true;
      written = true;
    }
    ∷ record { running = true; incoming = Incoming.end_of_stream; written = true }
    ∷ []

handle_session-OnlyRead_example :
    OnlyRead world_a (after (handle_session env_a (λ d. []) exchanges_a world_a))
unfolding is_get
handle_session-OnlyRead_example =
    handle_session-OnlyRead env_a (λ d. []) exchanges_a world_a (refl, (tt, tt))

-- An older file of the database, and the script of the schema.
abbrev schema_files_a : Files
schema_files_a = record { path_exists = λ path. true; content = λ path. some (text "CREATE TABLE") }

abbrev opening_a : Opening
opening_a = record {
  parent_path = λ path. text "data";
  create_directories = λ path. ok tt;
  sqlite_open = λ path. ok tt;
}

abbrev older_a : SchemaFile
older_a = record { device = DeviceSchema.without_status; runs = 0 }

construct-HasStatus_example : HasStatus (
    construct
      (λ n. none)
      opening_a
      schema_files_a
      (λ sql. create_tables)
      (text "data/c.sqlite")
      (text "init.sql")
      older_a)
construct-HasStatus_example =
    construct-HasStatus (λ n. none) opening_a schema_files_a (λ sql. create_tables)
      (text "data/c.sqlite") (text "init.sql") (text "CREATE TABLE") older_a (λ n what e. cc e) refl
      refl
