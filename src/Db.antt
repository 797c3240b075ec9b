-- ===== src/Db.antt =====
-- src/db: the tables of scripts/init.sql, and the calls of SQLite that src/db makes.
-- SQLite itself is not in the repository. Whether its n-th call fails, and with which message, is
-- the argument `fault`; what a call that succeeds does is read off the SQL text of the source.
pub mod DeviceTable
pub mod PointTable
pub mod ResourceTable
pub mod Atomic
pub mod Statement
pub mod Writes
pub mod Sound
pub mod Reads
pub mod Registry
pub mod Schema
pub mod Manager
use collector_service.Models.{DataPoint, Device, ResourceRecord}
use collector_service.Prelude.Exec.{◌>>=◌, ◌>>◌}
use collector_service.StdString.{before_char}
use collector_service.Prelude.Result.{Result, err, ok}
use collector_service.Prelude.{Bytes, List, Option, [], none, some, suc, ℕ, ◌∷◌, text}
use collector_service.Prelude.Exec.{Exec, Outcome, continue, pure, returned, thrown, catch, raise}

-- A row of Resources with its Id.
pub record ResourceRow : Type 0 where
  pub row_id : ℕ
  pub entry : ResourceRecord

-- The three tables, each in the order of Id, and the last Id that AUTOINCREMENT gave in each.
pub record Tables : Type 0 where
  pub devices : List Device
  pub points : List DataPoint
  pub resources : List ResourceRow
  pub device_seq : ℕ
  pub point_seq : ℕ
  pub resource_seq : ℕ

-- `saved` holds the tables at BEGIN while a transaction is open; `calls` counts the calls.
pub record Database : Type 0 where
  pub tables : Tables
  pub saved : Option Tables
  pub calls : ℕ

abbrev pub Fault : Type 0
Fault = ℕ → Option Bytes

abbrev pub empty_tables : Tables
empty_tables = record {
  devices = [];
  points = [];
  resources = [];
  device_seq = 0;
  point_seq = 0;
  resource_seq = 0;
}

-- The bytes of value.c_str(): SQLite reads up to the first zero byte.
unfoldable pub c_str : Bytes → Bytes
unfolding before_char
c_str value = before_char 0 value

abbrev pub tick : Database → Database
tick db = record db { calls = suc db.calls }

unfoldable pub begin_change : Exec Database (Unit {0})
begin_change db = elim db.saved [
  | none ↦ returned tt (record db { saved = some db.tables })
  | some t ↦ thrown (text "cannot start a transaction within a transaction") db
]

unfoldable pub commit_change : Exec Database (Unit {0})
commit_change db = elim db.saved [
  | none ↦ thrown (text "cannot commit - no transaction is active") db
  | some t ↦ returned tt (record db { saved = none })
]

unfoldable pub rollback_change : Exec Database (Unit {0})
rollback_change db = elim db.saved [
  | none ↦ thrown (text "cannot rollback - no transaction is active") db
  | some t ↦ returned tt (record db { tables = t; saved = none })
]

unfoldable pub run_change : (Tables → Result Tables) → Exec Database (Unit {0})
run_change change db = elim (change db.tables) [
  | ok t ↦ returned tt (record db { tables = t })
  | err what ↦ thrown what db
]

module _ (fault : Fault) where
  -- A call that reports failure by an exception: prepare with the binds, and the calls below.
  unfoldable pub sqlite_call : Exec Database (Unit {0})
  sqlite_call db = elim (fault db.calls) [
    | none ↦ returned tt (tick db)
    | some what ↦ thrown what (tick db)
  ]

  -- SQLiteStatement::SQLiteStatement and the bind calls of one statement
  unfoldable pub prepare : Exec Database (Unit {0})
  unfolding sqlite_call
  prepare = sqlite_call

  -- SQLiteStatement::stepDone of a statement that changes the tables, or breaks a constraint
  unfoldable pub step_done : (Tables → Result Tables) → Exec Database (Unit {0})
  unfolding sqlite_call run_change
  step_done change = do sqlite_call; run_change change

  -- SQLiteStatement::stepRow of a statement with at most one row: a failed call reads as no row
  unfoldable pub step_row : {A : Type 0} → (Tables → Option A) → Exec Database (Option A)
  step_row row db = elim (fault db.calls) [
    | none ↦ returned (row db.tables) (tick db)
    | some what ↦ returned none (tick db)
  ]

  -- while (stmt.stepRow()) { … push_back(…); }: a failed call ends the loop
  unfoldable pub fetch : {A : Type 0} → List A → Exec Database (List A)
  fetch [] db = returned [] (tick db)
  fetch (row ∷ rows) db = elim (fault db.calls) [
    | none ↦ continue (fetch rows (tick db)) (λ fetched. pure (row ∷ fetched))
    | some what ↦ returned [] (tick db)
  ]

  unfoldable pub step_rows : {A : Type 0} → (Tables → List A) → Exec Database (List A)
  unfolding fetch
  step_rows rows db = fetch (rows db.tables) db

  -- SQLiteTransaction::SQLiteTransaction
  unfoldable pub begin_transaction : Exec Database (Unit {0})
  unfolding sqlite_call begin_change
  begin_transaction = do sqlite_call; begin_change

  -- SQLiteTransaction::commit
  unfoldable pub commit : Exec Database (Unit {0})
  unfolding sqlite_call commit_change
  commit = do sqlite_call; commit_change

  -- SQLiteTransaction::~SQLiteTransaction of a transaction that was not committed
  unfoldable pub rollback : Exec Database (Unit {0})
  unfolding sqlite_call rollback_change
  rollback = catch (do sqlite_call; rollback_change) (λ what. pure tt)

  -- { SQLiteTransaction transaction(…); body; transaction.commit(); }
  unfoldable pub transaction : Exec Database (Unit {0}) → Exec Database (Unit {0})
  unfolding begin_transaction commit rollback
  transaction body = do begin_transaction; catch (do body; commit) (λ what. do rollback; raise what)
