-- ===== src/Db/Atomic.antt =====
-- A transaction is all or nothing, whichever calls of SQLite fail: also where the roll-back itself
-- fails, since what a crash or a later roll-back leaves is then the state at BEGIN.
use collector_service.Prelude.Result.{Result, ok, err}
use collector_service.Db.{
  Database, Fault, Tables, commit, rollback, tick, rollback_change, sqlite_call, begin_change,
  begin_transaction, commit_change, transaction,
}
use collector_service.Prelude.Exec.Keeps.{Keeps}
use collector_service.Prelude.{Option, none, some, ◌≡◌, Bytes, Option-cases, inl, inr, refl}
use collector_service.Prelude.Exec.{
  Exec, Outcome, catch, pure, raise, returned, thrown, after, continue, ◌>>◌, handled, ◌>>◌, ◌>>◌,
  ◌>>◌, ◌>>◌,
}

-- The tables that survive when the open transaction, if there is one, is given up.
abbrev pub durable : Database → Tables
durable db = elim db.saved [ none ↦ db.tables | some t ↦ t ]

-- The body neither opens nor ends a transaction.
abbrev pub KeepsSaved : Exec Database (Unit {0}) → Type 0
KeepsSaved body = (o : Option Tables) → Keeps (λ db. db.saved ≡ o) body

-- What `transaction body` makes of `db`: it ran the body to its end on the same tables and
-- committed the result, or it threw and the durable tables are as before.
abbrev pub IsAtomic : Exec Database (Unit {0}) → Database → Outcome Database (Unit {0}) → Type 0
IsAtomic body db (returned _ done) =
    (start stop : Database) × (body start ≡ returned tt stop)
    × (start.tables ≡ db.tables)
    × (done.tables ≡ stop.tables)
    × (done.saved ≡ none)
IsAtomic body db (thrown what done) = durable done ≡ db.tables

module _ (fault : Fault) where
  rollback-durable :
      (db : Database) (t : Tables)
      → db.saved ≡ some t
      → (done : Database) × (rollback fault db ≡ returned tt done) × (durable done ≡ t)
  unfolding rollback pure
  rollback-durable db t e = elim (Option-cases (fault db.calls)) [
    | inl fine ↦ (
      record (tick db) { tables = t; saved = none },
      rw (fine, rollback, sqlite_call) (rw (e, rollback_change)),
      refl,
    )
    | inr (what, failed) ↦ (tick db, rw (failed, rollback, sqlite_call), rw e)
  ]

  -- The part of a transaction behind BEGIN.
  abbrev rest : Exec Database (Unit {0}) → Exec Database (Unit {0})
  rest body = catch (do body; commit fault) (λ what. do rollback fault; raise what)

  raise_rolled_back :
      (body : Exec Database (Unit {0})) (db s : Database) (what : Bytes)
      → s.saved ≡ some db.tables
      → IsAtomic body db ((do rollback fault; raise what) s)
  unfolding raise
  raise_rolled_back body db s what e =
      let (done, r, d) = rollback-durable s db.tables e in rw (r, continue) d

  rest_body :
      (body : Exec Database (Unit {0})) (db b : Database) (o : Outcome Database (Unit {0}))
      → b.tables ≡ db.tables
      → body b ≡ o
      → (after o).saved ≡ some db.tables
      → IsAtomic body db
          (handled (continue o (λ _. commit fault)) (λ what. do rollback fault; raise what))
  unfolding commit
  rest_body body db b (thrown what s) same run e = raise_rolled_back body db s what e
  rest_body body db b (returned u s) same run e = elim (Option-cases (fault s.calls)) [
    | inl fine ↦
        rw (fine, commit, sqlite_call) (rw (e, commit_change) (b, s, run, same, refl, refl))
    | inr (what, failed) ↦
        rw (failed, commit, sqlite_call) (raise_rolled_back body db (tick s) what e)
  ]

  -- A transaction whose body opens and ends none, begun where none is open, runs the body to its
  -- end and commits its result, or throws and the durable tables are as before, whichever calls of
  -- SQLite fail.
  pub transaction-IsAtomic :
      (body : Exec Database (Unit {0})) (db : Database)
      → KeepsSaved body
      → db.saved ≡ none
      → IsAtomic body db (transaction fault body db)
  unfolding transaction
  transaction-IsAtomic body db keeps closed = elim (Option-cases (fault db.calls)) [
    | inl fine ↦
        let b : Database = record (tick db) { saved = some db.tables } in
        rw (fine, begin_transaction, sqlite_call)
          (rw (closed, begin_change)
            (rest_body body db b (body b) refl refl ((keeps (some db.tables)).at b refl)))
    | inr (what, failed) ↦ rw (failed, begin_transaction, sqlite_call) (rw closed)
  ]

-- `ok a >>= f` of the exceptions, where a table change follows another.
abbrev pub and_then : Result Tables → (Tables → Result Tables) → Result Tables
and_then (ok t) g = g t
and_then (err what) g = err what

-- What a method does to the tables where it returns.
pub record Yields (f : Tables → Result Tables) (m : Exec Database (Unit {0})) : Type 0 where
  pub at : (s t : Database) → m s ≡ returned tt t → f s.tables ≡ ok t.tables

-- All of `f` and no open transaction, or, where the method throws, nothing that lasts.
abbrev pub AllOrNothing : (Tables → Result Tables) → Tables → Outcome Database (Unit {0}) → Type 0
AllOrNothing f t (returned _ done) = (f t ≡ ok done.tables) × (done.saved ≡ none)
AllOrNothing f t (thrown what done) = durable done ≡ t

pub IsAtomic-AllOrNothing :
    (f : Tables → Result Tables) (body : Exec Database (Unit {0})) (db : Database)
    (o : Outcome Database (Unit {0}))
    → Yields f body
    → IsAtomic body db o
    → AllOrNothing f db.tables o
IsAtomic-AllOrNothing f body db (returned _ done) y (start, stop, run, same, new, closed) =
    (rw (← same, new) (y.at start stop run), closed)
IsAtomic-AllOrNothing f body db (thrown what done) y h = h

pub transaction-AllOrNothing :
    (fault : Fault) (f : Tables → Result Tables) (body : Exec Database (Unit {0})) (db : Database)
    → KeepsSaved body
    → Yields f body
    → db.saved ≡ none
    → AllOrNothing f db.tables (transaction fault body db)
transaction-AllOrNothing fault f body db keeps y closed =
    IsAtomic-AllOrNothing f body db (transaction fault body db) y
      (transaction-IsAtomic fault body db keeps closed)
