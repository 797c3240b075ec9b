-- ===== src/Db/Registry/Logic.antt =====
-- What the statements of src/db are to the registry.
use collector_service.Models.{Device}
use collector_service.Db.Atomic.{durable}
use collector_service.Db.Manager.Constraints.{Request}
use collector_service.Db.PointTable.{delete_points, move_points}
use collector_service.Prelude.Exec.Triple.{Post, Triple, Triple-weaken}
use collector_service.Db.Registry.{Registry, act, registry_of}
use collector_service.Db.Statement.{IgnoresCalls, sqlite_call-cases}
use collector_service.Prelude.Result.{Result, err, ok}
use collector_service.Db.{Database, Fault, Tables, prepare, run_change, step_done, tick}
use collector_service.Prelude.{Bytes, List, arith, inl, inr, none, refl, ◌≡◌, ◌⊎◌}
use collector_service.Prelude.Exec.{◌>>◌, ◌>>◌}

-- No transaction is open, and the devices are `ds`.
pub record Before (ds : List Device) (db : Database) : Type 0 where
  pub devices : db.tables.devices ≡ ds
  pub closed : db.saved ≡ none

-- The registry reads as `r`.
abbrev pub Reads : Registry → List Device → Type 0
Reads r ds = (name : Bytes) → registry_of ds name ≡ r name

-- What the request is to do is done, and no transaction is open.
pub record Done (q : Request) (ds : List Device) (db : Database) : Type 0 where
  pub reads : Reads (act q (registry_of ds)) db.tables.devices
  pub closed : db.saved ≡ none

-- What lasts is as before the request, or as behind it.
abbrev pub Failed : Request → List Device → Database → Type 0
Failed q ds db =
    Reads (registry_of ds) (durable db).devices
    ⊎ Reads (act q (registry_of ds)) (durable db).devices

pub Before-Failed : (q : Request) (ds : List Device) (db : Database) → Before ds db → Failed q ds db
Before-Failed q ds db b = inl (λ name. rw (b.closed) (rw (b.devices) refl))

pub Done-Failed : (q : Request) (ds : List Device) (db : Database) → Done q ds db → Failed q ds db
Done-Failed q ds db d = inr (λ name. rw (d.closed) (d.reads name))

pub Before-ticked : (ds : List Device) → IgnoresCalls (Before ds)
Before-ticked ds s b = record { devices = b.devices; closed = b.closed }

pub Done-ticked : (q : Request) (ds : List Device) → IgnoresCalls (Done q ds)
Done-ticked q ds s d = record { reads = d.reads; closed = d.closed }

-- What a statement that does not fail makes of tables with these devices.
abbrev Changed : (Tables → Result Tables) → List Device → Database → Type 0
Changed change ds db =
    (t : Tables) × (t.devices ≡ ds) × (change t ≡ ok db.tables) × (db.saved ≡ none)

Changed-Post :
    (change : Tables → Result Tables) (ds : List Device) (s : Database) (r : Result Tables)
    → change s.tables ≡ r
    → Before ds s
    → Post (λ (u : Unit {0}). Changed change ds) (Before ds) (run_change change s)
unfolding run_change
Changed-Post change ds s (ok t) e b = rw (e, run_change) (s.tables, b.devices, e, b.closed)
Changed-Post change ds s (err what) e b = rw (e, run_change) b

pub move_points-devices :
    (from to : Bytes) (t v : Tables) → move_points from to t ≡ ok v → v.devices ≡ t.devices
unfolding move_points
move_points-devices from to t v e = ground arith

pub delete_points-devices :
    (name : Bytes) (t v : Tables) → delete_points name t ≡ ok v → v.devices ≡ t.devices
unfolding delete_points
delete_points-devices name t v e = ground arith

module _ (fault : Fault) (ds : List Device) where
  statement-Triple :
      (change : Tables → Result Tables)
      → Triple
          (Before ds)
          (λ (u : Unit {0}). Changed change ds)
          (Before ds)
          (do prepare fault; step_done fault change)
  unfolding prepare step_done
  statement-Triple change = record {
    at = λ s b. elim (sqlite_call-cases fault s) [
      | inr (what, e) ↦ rw (e, prepare) (Before-ticked ds s b)
      | inl e ↦
          rw (e, prepare)
            (elim (sqlite_call-cases fault (tick s)) [
              | inr (what, f) ↦ rw (f, step_done) (Before-ticked ds (tick s) (Before-ticked ds s b))
              | inl f ↦
                  rw (f, step_done)
                    (Changed-Post change ds (tick (tick s)) (change s.tables) refl
                      (Before-ticked ds (tick s) (Before-ticked ds s b)))
            ])
    ];
  }

  -- Done by the statement, or nothing that lasts.
  pub statement_of :
      (q : Request) (change : Tables → Result Tables)
      → ((t v : Tables) (name : Bytes)
          → t.devices ≡ ds
          → change t ≡ ok v
          → registry_of v.devices name ≡ act q (registry_of ds) name)
      → Triple
          (Before ds)
          (λ (u : Unit {0}). Done q ds)
          (Failed q ds)
          (do prepare fault; step_done fault change)
  statement_of q change h =
      Triple-weaken _ (statement-Triple change) (λ s b. b)
        (λ u s c.
          let (t, same, made, closed) = c in
          record { reads = λ name. h t s.tables name same made; closed = closed })
        (λ s b. Before-Failed q ds s b)
