-- ===== src/Db/Schema.antt =====
-- SQLiteConnection's constructor and execute, and SQLiteManager::initializeSchema.
pub mod Version
use collector_service.ModelFile.Repository.{Files}
use collector_service.Db.{Fault}
use collector_service.Prelude.{Bool, Bytes, if◌then◌else◌, is_empty, none, some, suc, text, ℕ, ◌++◌}
use collector_service.StdString.{find, is_found}
use collector_service.Prelude.Exec.{◌>>=◌, ◌>>◌, Exec, catch, lift, pure, raise, returned, thrown}
use collector_service.Prelude.Result.{Result, ok, err}

-- What SQLite knows of the table Device: none, or with or without the column Status, which older
-- files lack. `runs` counts the scripts that were executed.
pub data DeviceSchema : Type 0 where
  no_table : DeviceSchema
  without_status : DeviceSchema
  with_status : DeviceSchema

pub record SchemaFile : Type 0 where
  pub device : DeviceSchema
  pub runs : ℕ

-- What executing a text of SQL does to the schema, or the message that it fails with.
abbrev pub Script : Type 0
Script = DeviceSchema → Result DeviceSchema

-- CREATE TABLE IF NOT EXISTS Device (…) of scripts/init.sql
unfoldable pub create_tables : Script
create_tables DeviceSchema.no_table = ok DeviceSchema.with_status
create_tables s = ok s

abbrev pub duplicate_column : Bytes
duplicate_column = text "duplicate column name: Status"

-- ALTER TABLE Device ADD COLUMN Status INTEGER NOT NULL DEFAULT 1;
unfoldable pub add_status : Script
add_status DeviceSchema.no_table = err (text "no such table: Device")
add_status DeviceSchema.without_status = ok DeviceSchema.with_status
add_status DeviceSchema.with_status = err duplicate_column

-- What std::filesystem and sqlite3_open come to for a path.
pub record Opening : Type 0 where
  pub parent_path : Bytes → Bytes
  pub create_directories : Bytes → Result (Unit {0})
  pub sqlite_open : Bytes → Result (Unit {0})

-- SQLiteConnection::SQLiteConnection
unfoldable pub open_connection : Opening → Bytes → Result (Unit {0})
unfolding is_empty text
open_connection o path =
    elim (if is_empty (o.parent_path path)
      then ok tt
      else o.create_directories (o.parent_path path)) [
        | err what ↦ err what
        | ok _ ↦ elim (o.sqlite_open path) [
          | ok _ ↦ ok tt
          | err what ↦ err (text "failed to open database: " ++ what)
        ]
      ]

unfoldable pub read_text_file : Files → Bytes → Result Bytes
unfolding text
read_text_file files path = elim (files.content path) [
  | none ↦ err (text "failed to open SQL file: " ++ path)
  | some t ↦ ok t
]

unfoldable pub is_duplicate_column_error : Bytes → Bool
unfolding find text
is_duplicate_column_error message = is_found (find (text "duplicate column name") message)

module _ (fault : Fault) where
  -- SQLiteConnection::execute
  unfoldable pub execute : Script → Exec SchemaFile (Unit {0})
  execute script s = elim (fault s.runs) [
    | some what ↦ thrown what (record s { runs = suc s.runs })
    | none ↦ elim (script s.device) [
      | ok d ↦ returned tt (record { device = d; runs = suc s.runs })
      | err what ↦ thrown what (record s { runs = suc s.runs })
    ]
  ]

  -- SQLiteManager::initializeSchema; `script` is what the text of the file does.
  unfoldable pub initialize_schema : Files → (Bytes → Script) → Bytes → Exec SchemaFile (Unit {0})
  unfolding execute read_text_file is_duplicate_column_error
  initialize_schema files script path = do
    sql ← lift (read_text_file files path)
    execute (script sql)
    catch (execute add_status)
        (λ what. if is_duplicate_column_error what then pure tt else raise what)

  -- SQLiteManager::SQLiteManager
  unfoldable pub construct :
      Opening → Files → (Bytes → Script) → Bytes → Bytes → Exec SchemaFile (Unit {0})
  unfolding open_connection initialize_schema
  construct o files script database_path init_path = do
    lift (open_connection o database_path)
    initialize_schema files script init_path
