-- ===== src/Db/Statement.antt =====
-- What the statements of src/db do, one rule each.
use collector_service.Prelude.Exec.Keeps.{Keeps}
use collector_service.Prelude.Result.{Result, err, ok}
use collector_service.Db.Atomic.{Yields, and_then}
use collector_service.Prelude.{Bytes, Option, Option-cases, arith, inl, inr, none, refl, ◌≡◌, ◌⊎◌}
use collector_service.Db.{
  Database, Fault, Tables, prepare, run_change, sqlite_call, step_done, step_row, tick,
}
use collector_service.Prelude.Exec.{◌>>◌, after, returned, thrown, Exec, continue-eq-returned, ◌>>◌}

-- `P` does not read the call counter.
abbrev pub IgnoresCalls : (Database → Type 0) → Type 0
IgnoresCalls P = (s : Database) → P s → P (tick s)

module _ (fault : Fault) where
  pub sqlite_call-cases :
      (s : Database)
      → (sqlite_call fault s ≡ returned tt (tick s))
        ⊎ ((what : Bytes) × (sqlite_call fault s ≡ thrown what (tick s)))
  unfolding sqlite_call
  sqlite_call-cases s = elim (Option-cases (fault s.calls)) [
    | inl fine ↦ inl (rw (fine, sqlite_call))
    | inr (what, failed) ↦ inr (what, rw (failed, sqlite_call))
  ]

  pub step_row-cases :
      {A : Type 0} (row : Tables → Option A) (s : Database)
      → (step_row fault row s ≡ returned (row s.tables) (tick s))
        ⊎ (step_row fault row s ≡ returned none (tick s))
  unfolding step_row
  step_row-cases row s = elim (Option-cases (fault s.calls)) [
    | inl fine ↦ inl (rw (fine, step_row))
    | inr (what, failed) ↦ inr (rw (failed, step_row))
  ]

  pub prepare-Keeps : {P : Database → Type 0} → IgnoresCalls P → Keeps P (prepare fault)
  unfolding prepare
  prepare-Keeps {P} h = record {
    at = λ s p. elim (sqlite_call-cases s) [
      | inl e ↦ rw (e, prepare) (h s p)
      | inr (what, e) ↦ rw (e, prepare) (h s p)
    ];
  }

  pub step_row-Keeps :
      {P : Database → Type 0} {A : Type 0} (row : Tables → Option A)
      → IgnoresCalls P
      → Keeps P (step_row fault row)
  step_row-Keeps {P} row h = record {
    at = λ s p. elim (step_row-cases row s) [ inl e ↦ rw e (h s p) | inr e ↦ rw e (h s p) ];
  }

  -- A change of the tables keeps `P` if each change that is made does.
  abbrev pub ChangeKeeps : (Database → Type 0) → (Tables → Result Tables) → Type 0
  ChangeKeeps P change =
      (s : Database) (t : Tables) → change s.tables ≡ ok t → P s → P (record s { tables = t })

  run_change-keeps :
      {P : Database → Type 0} (change : Tables → Result Tables) (s : Database) (r : Result Tables)
      → change s.tables ≡ r
      → ChangeKeeps P change
      → P s
      → P (after (run_change change s))
  unfolding run_change
  run_change-keeps change s (ok t) e h p = rw (e, run_change) (h s t e p)
  run_change-keeps change s (err what) e h p = rw (e, run_change) p

  pub step_done-Keeps :
      {P : Database → Type 0} (change : Tables → Result Tables)
      → IgnoresCalls P
      → ChangeKeeps P change
      → Keeps P (step_done fault change)
  unfolding step_done
  step_done-Keeps {P} change tk h = record {
    at = λ s p. elim (sqlite_call-cases s) [
      | inl e ↦ rw (e, step_done) (run_change-keeps {P = P} change (tick s) _ refl h (tk s p))
      | inr (what, e) ↦ rw (e, step_done) (tk s p)
    ];
  }

  pub prepare-Yields : Yields ok (prepare fault)
  unfolding prepare
  prepare-Yields = record {
    at = λ s t e. elim (sqlite_call-cases s) [ inl c ↦ cc c | inr (what, c) ↦ cc c ];
  }

  run_change-Yields :
      (change : Tables → Result Tables) (s t : Database) (r : Result Tables)
      → change s.tables ≡ r
      → run_change change s ≡ returned tt t
      → change s.tables ≡ ok t.tables
  unfolding run_change
  run_change-Yields change s t (ok u) e h = ground arith
  run_change-Yields change s t (err what) e h = ground arith

  pub step_done-Yields : (change : Tables → Result Tables) → Yields change (step_done fault change)
  unfolding step_done
  step_done-Yields change = record {
    at = λ s t e. elim (sqlite_call-cases s) [
      | inl c ↦ run_change-Yields change (tick s) t _ refl (rw (c, step_done) at e)
      | inr (what, c) ↦ let bad = rw (c, step_done) at e in cc bad
    ];
  }

-- One method behind another.
pub Yields-then :
    (f g : Tables → Result Tables) (m n : Exec Database (Unit {0}))
    → Yields f m
    → Yields g n
    → Yields (λ t. and_then (f t) g) (do m; n)
Yields-then f g m n ym yn = record {
  at = λ s t e.
      let (u, mid, first, second) = continue-eq-returned (m s) (λ _. n) e in
      rw (ym.at s mid first) (yn.at mid t second);
}
