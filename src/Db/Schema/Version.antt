-- ===== src/Db/Schema/Version.antt =====
-- The schema that the constructor of SQLiteManager leaves.
use collector_service.ModelFile.Repository.{Files}
use collector_service.Db.{Fault}
use collector_service.StdString.{find, starts_with}
use collector_service.Prelude.{
  Bytes, Option-cases, false, if◌then◌else◌, inl, inr, refl, some, text, ℕ, ◌≡◌, ◌≢◌, suc, none,
}
use collector_service.Db.Schema.{
  DeviceSchema, SchemaFile, Script, add_status, create_tables, execute, is_duplicate_column_error,
  Opening, construct, initialize_schema, read_text_file, open_connection,
}
use collector_service.Prelude.Exec.{
  ◌>>◌, Outcome, catch, handled, pure, raise, returned, thrown, lift, Exec,
}
use collector_service.Prelude.Result.{Result, ok, err}

-- No call fails with a message on a duplicate column.
abbrev pub NoDuplicateFault : Fault → Type 0
NoDuplicateFault fault =
    (n : ℕ) (what : Bytes) → fault n ≡ some what → is_duplicate_column_error what ≡ false

-- Where the call comes back, the column is there.
abbrev pub HasStatus : Outcome SchemaFile (Unit {0}) → Type 0
HasStatus (returned _ t) = t.device ≡ DeviceSchema.with_status
HasStatus (thrown what t) = Unit {0}

abbrev at_version : DeviceSchema → ℕ → SchemaFile
at_version d n = record { device = d; runs = n }

module _ (fault : Fault) (clean : NoDuplicateFault fault) where
  swallowed :
      (d : DeviceSchema) (n : ℕ)
      → d ≢ DeviceSchema.no_table
      → HasStatus (
          handled
            (execute fault add_status (at_version d n))
            (λ what. if is_duplicate_column_error what then pure tt else raise what))
  unfolding execute add_status pure raise is_duplicate_column_error find starts_with text
  swallowed d n there = elim (Option-cases (fault n)) [
    | inr (what, failed) ↦
        rw (failed, execute)
          (let other : is_duplicate_column_error what ≡ false = clean n what failed in rw other tt)
    | inl fine ↦
        elim d
            as (λ d.
              d ≢ DeviceSchema.no_table
              → HasStatus (
                  handled (execute fault add_status (at_version d n))
                    (λ what. if is_duplicate_column_error what then pure tt else raise what))) [
                      | DeviceSchema.no_table ↦ λ h. absurd (h refl)
                      | DeviceSchema.without_status ↦ λ h. rw (fine, execute) refl
                      | DeviceSchema.with_status ↦ λ h. rw (fine, execute) refl
                    ]
          there
  ]

  completed :
      (d : DeviceSchema) (n : ℕ)
      → fault n ≡ none
      → HasStatus (
          (do
            execute fault create_tables
            catch
                (execute fault add_status)
                (λ what. if is_duplicate_column_error what then pure tt else raise what))
            (at_version d n))
  unfolding execute create_tables
  completed DeviceSchema.no_table n fine =
      rw (fine, execute) (swallowed DeviceSchema.with_status (suc n) (λ e. cc e))
  completed DeviceSchema.without_status n fine =
      rw (fine, execute) (swallowed DeviceSchema.without_status (suc n) (λ e. cc e))
  completed DeviceSchema.with_status n fine =
      rw (fine, execute) (swallowed DeviceSchema.with_status (suc n) (λ e. cc e))

  executed :
      (d : DeviceSchema) (n : ℕ)
      → HasStatus (
          (do
            execute fault create_tables
            catch
                (execute fault add_status)
                (λ what. if is_duplicate_column_error what then pure tt else raise what))
            (at_version d n))
  unfolding execute create_tables
  executed d n = elim (Option-cases (fault n)) [
    | inr (what, failed) ↦ rw (failed, execute) tt
    | inl fine ↦ completed d n fine
  ]

  initialize_schema-HasStatus :
      (files : Files) (script : Bytes → Script) (path sql : Bytes) (s : SchemaFile)
      → files.content path ≡ some sql
      → script sql ≡ create_tables
      → HasStatus (initialize_schema fault files script path s)
  unfolding initialize_schema read_text_file lift
  initialize_schema-HasStatus files script path sql s e f =
      rw (e, read_text_file, lift) (rw f (executed s.device s.runs))

opened :
    (r : Result (Unit {0})) (first : Exec SchemaFile (Unit {0})) (s : SchemaFile)
    → HasStatus (first s)
    → HasStatus ((do lift r; first) s)
unfolding lift
opened (ok _) first s h = h
opened (err what) first s h = tt

-- Where the constructor of SQLiteManager returns, the table Device has the column Status, whether
-- the file was new, older or current and whichever calls of SQLite fail; the script is that of
-- scripts/init.sql, and no call fails with a message on a duplicate column.
pub construct-HasStatus :
    (fault : Fault) (o : Opening) (files : Files) (script : Bytes → Script)
    (database_path init_path sql : Bytes) (s : SchemaFile)
    → NoDuplicateFault fault
    → files.content init_path ≡ some sql
    → script sql ≡ create_tables
    → HasStatus (construct fault o files script database_path init_path s)
unfolding construct
construct-HasStatus fault o files script database_path init_path sql s clean e f =
    opened (open_connection o database_path) (initialize_schema fault files script init_path) s
      (initialize_schema-HasStatus fault clean files script init_path sql s e f)
