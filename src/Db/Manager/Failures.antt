-- ===== src/Db/Manager/Failures.antt =====
-- When insertResources throws.
use collector_service.Models.{ResourceRecord}
use collector_service.Prelude.Exec.{
  Exec, Outcome, after, catch, pure, raise, returned, thrown, ◌>>◌, ◌>>◌,
}
use collector_service.Db.ResourceTable.{insert, insert_resource, insert_rows, stored_record}
use collector_service.Db.{
  Database, Fault, ResourceRow, Tables, begin_change, begin_transaction, commit, commit_change,
  prepare, rollback, rollback_change, run_change, sqlite_call, step_done, tick, transaction,
}
use collector_service.Prelude.{
  Bytes, List, Option-cases, [], ap, arith, inl, inr, none, refl, some, suc, ℕ, ◌++◌, ◌<◌, ◌∙◌, ◌∷◌,
  ◌≡◌, ◌≤◌, ◌⊎◌,
}
use collector_service.Db.Manager

-- A call of SQLite between two counts of the calls that failed with the message.
abbrev pub Blamed : Fault → ℕ → ℕ → Bytes → Type 0
Blamed fault before after what = (n : ℕ) × (before ≤ n) × (n < after) × (fault n ≡ some what)

Blamed-later :
    (fault : Fault) (a b c d : ℕ) (what : Bytes)
    → a ≤ b
    → c ≤ d
    → Blamed fault b c what
    → Blamed fault a d what
Blamed-later fault a b c d what h k (n, from, to, failed) = (n, omega arith, omega arith, failed)

-- The method threw the message of a call that it made.
abbrev pub ThrewOf : Fault → Database → Outcome Database (Unit {0}) → Type 0
ThrewOf fault db o =
    (what : Bytes) × (s : Database) × (o ≡ thrown what s) × Blamed fault db.calls s.calls what

insert_rows-cases :
    (fault : Fault) (rs : List ResourceRecord) (db : Database)
    → ((done : Database) × (insert_rows fault rs db ≡ returned tt done)
        × (done.saved ≡ db.saved)
        × (db.calls ≤ done.calls))
      ⊎ ThrewOf fault db (insert_rows fault rs db)
unfolding insert_rows insert_resource run_change pure
insert_rows-cases fault [] db = inl (db, refl, refl, omega arith)
insert_rows-cases fault (r ∷ rs) db = elim (Option-cases (fault db.calls)) [
  | inr (what, failed) ↦ inr (
    what,
    tick db,
    rw (failed, insert_rows, prepare, sqlite_call) refl,
    (db.calls, omega arith, omega arith, failed),
  )
  | inl fine ↦ elim (Option-cases (fault (suc db.calls))) [
    | inr (what, failed) ↦ inr (
      what,
      tick (tick db),
      rw (fine, insert_rows, prepare, step_done, sqlite_call)
          (rw (failed, step_done, sqlite_call) refl),
      (suc db.calls, omega arith, omega arith, failed),
    )
    | inl fine_too ↦
        let row : ResourceRow = record {
          row_id = suc db.tables.resource_seq;
          entry = stored_record r;
        } in
        let tables : Tables = record db.tables {
          resources = db.tables.resources ++ row ∷ [];
          resource_seq = suc db.tables.resource_seq;
        } in
        elim (insert_rows-cases fault rs (record (tick (tick db)) { tables = tables })) [
          | inr (what, s, e, blame) ↦ inr (
            what,
            s,
            rw (fine, insert_rows, prepare, step_done, sqlite_call)
                (rw (fine_too, step_done, sqlite_call) e),
            Blamed-later fault db.calls (suc (suc db.calls)) s.calls s.calls what (omega arith)
                (omega arith) blame,
          )
          | inl (done, e, same, more) ↦ inl (
            done,
            rw (fine, insert_rows, prepare, step_done, sqlite_call)
                (rw (fine_too, step_done, sqlite_call) e),
            same,
            omega arith,
          )
        ]
  ]
]

rollback-returns :
    (fault : Fault) (s : Database)
    → (t : Database) × (rollback fault s ≡ returned tt t) × (t.calls ≡ suc s.calls)
unfolding rollback rollback_change pure
rollback-returns fault s = elim (Option-cases (fault s.calls)) [
  | inr (what, failed) ↦ (tick s, rw (failed, rollback, sqlite_call) refl, refl)
  | inl fine ↦ elim (Option-cases s.saved) [
    | inl none_open ↦ (
      tick s,
      rw (fine, rollback, sqlite_call)
          (rw (none_open, rollback_change)
            (ap (λ o. returned tt (record (tick s) { saved = o })) none_open)),
      refl,
    )
    | inr (t, e) ↦ (
      record (tick s) { tables = t; saved = none },
      rw (fine, rollback, sqlite_call) (rw (e, rollback_change) refl),
      refl,
    )
  ]
]

module _ (fault : Fault) where
  abbrev rolled : Bytes → Exec Database (Unit {0})
  rolled what = do rollback fault; raise what

  -- What is thrown behind BEGIN is thrown on behind the roll-back.
  rolled_back :
      (before : ℕ) (what : Bytes) (s : Database)
      → Blamed fault before s.calls what
      → (t : Database) × (rolled what s ≡ thrown what t) × Blamed fault before t.calls what
  unfolding raise
  rolled_back before what s blame =
      let (t, e, more) = rollback-returns fault s in
      (
        t,
        rw e refl,
        Blamed-later fault before before s.calls t.calls what (omega arith) (omega arith) blame,
      )

  -- The part of insertResources behind BEGIN.
  abbrev behind_begin : List ResourceRecord → Exec Database (Unit {0})
  behind_begin rs = catch (do insert fault rs; commit fault) rolled

  committed :
      (rs : List ResourceRecord) (before : ℕ) (b full : Database) (t : Tables)
      → insert fault rs b ≡ returned tt full
      → full.saved ≡ some t
      → before ≤ full.calls
      → ((done : Database) × (behind_begin rs b ≡ returned tt done))
        ⊎ ((what : Bytes) × (s : Database) × (behind_begin rs b ≡ thrown what s)
            × Blamed fault before s.calls what)
  unfolding commit
  committed rs before b full t e same more = elim (Option-cases (fault full.calls)) [
    | inl fine ↦ inl (
      record (tick full) { saved = none },
      rw e (rw (fine, commit, sqlite_call) (rw (same, commit_change) refl)),
    )
    | inr (what, failed) ↦
        let (s, thrown_on, blame) =
          rolled_back before what (tick full) (full.calls, more, omega arith, failed) in
        inr (what, s, rw e (rw (failed, commit, sqlite_call) thrown_on), blame)
  ]

  begun :
      (rs : List ResourceRecord) (before : ℕ) (b : Database) (t : Tables)
      → b.saved ≡ some t
      → before ≤ b.calls
      → ((done : Database) × (behind_begin rs b ≡ returned tt done))
        ⊎ ((what : Bytes) × (s : Database) × (behind_begin rs b ≡ thrown what s)
            × Blamed fault before s.calls what)
  unfolding insert
  begun rs before b t opened more = elim (Option-cases (fault b.calls)) [
    | inr (what, failed) ↦
        let (s, thrown_on, blame) =
          rolled_back before what (tick b) (b.calls, more, omega arith, failed) in
        inr (what, s, rw (failed, prepare, sqlite_call) thrown_on, blame)
    | inl fine ↦ elim (insert_rows-cases fault rs (tick b)) [
      | inl (full, e, same, later) ↦
          committed rs before b full t (rw (fine, insert, prepare, sqlite_call) e) (same ∙ opened)
            (omega arith)
      | inr (what, u, e, blame) ↦
          let (s, thrown_on, blamed) = rolled_back before what u (
            Blamed-later fault before (suc b.calls) u.calls u.calls what (omega arith) (omega arith)
              blame) in
          inr (what, s, rw (fine, prepare, sqlite_call) (rw e thrown_on), blamed)
    ]
  ]

-- Where no transaction is open, insertResources returns, or throws the message of one of its calls
-- of SQLite.
pub insert_resources-cases :
    (fault : Fault) (rs : List ResourceRecord) (db : Database)
    → db.saved ≡ none
    → ((done : Database) × (Manager.insert_resources fault rs db ≡ returned tt done))
      ⊎ ThrewOf fault db (Manager.insert_resources fault rs db)
unfolding Manager.insert_resources transaction insert
insert_resources-cases fault rs db closed = elim (Option-cases (fault db.calls)) [
  | inr (what, failed) ↦ inr (
    what,
    tick db,
    rw (failed, begin_transaction, sqlite_call) refl,
    (db.calls, omega arith, omega arith, failed),
  )
  | inl fine ↦
      let b : Database = record (tick db) { saved = some db.tables } in
      rw (fine, begin_transaction, sqlite_call)
        (rw (closed, begin_change) (begun fault rs db.calls b db.tables refl (omega arith)))
]
