-- ===== src/Db/Registry/History.antt =====
-- A history of calls of src/SQLiteManager.cpp, as acts on the registry.
use collector_service.Db.ResourceTable.{TimeOrder}
use collector_service.Db.Writes.{Write}
use collector_service.Db.Manager.Constraints.{Request, run_request}
use collector_service.Db.Atomic.{durable}
use collector_service.Db.Registry.Refinement.{Refines, run_request-Refines}
use collector_service.Prelude.{Bytes, List, [], inl, inr, none, refl, ◌∷◌, ◌≡◌, ◌∙◌}
use collector_service.Db.{Database, Fault}
use collector_service.Prelude.Exec.{Outcome, after, returned, thrown}
use collector_service.Db.Registry.{Registry, act, registry_of, assign, forget}

-- The database behind the calls, one after the other, whether each returns or throws.
unfoldable pub run_requests : Fault → TimeOrder → List Request → Database → Database
run_requests fault newest [] db = db
run_requests fault newest (q ∷ qs) db =
    run_requests fault newest qs (after (run_request fault newest q db))

-- No call leaves a transaction open: every roll-back that is needed works.
abbrev pub StaysClosed : Fault → TimeOrder → List Request → Database → Type 0
StaysClosed fault newest [] db = Unit {0}
StaysClosed fault newest (q ∷ qs) db =
    ((after (run_request fault newest q db)).saved ≡ none)
    × StaysClosed fault newest qs (after (run_request fault newest q db))

unfoldable pub act_all : List Request → Registry → Registry
act_all [] r = r
act_all (q ∷ qs) r = act_all qs (act q r)

-- Which calls acted: all that returned, and some of those that threw.
pub data Acted (fault : Fault) (newest : TimeOrder)
    : List Request → Database → List Request → Type 0 where
  none_left : {db : Database} → Acted fault newest [] db []
  acted :
      {q : Request} {qs rs : List Request} {db : Database}
      → Acted fault newest qs (after (run_request fault newest q db)) rs
      → Acted fault newest (q ∷ qs) db (q ∷ rs)
  refused :
      {q : Request} {qs rs : List Request} {db t : Database} {what : Bytes}
      → run_request fault newest q db ≡ thrown what t
      → Acted fault newest qs t rs
      → Acted fault newest (q ∷ qs) db rs

act-same :
    (q : Request) (r s : Registry) (name : Bytes)
    → ((other : Bytes) → r other ≡ s other)
    → act q r name ≡ act q s name
unfolding act assign forget
act-same (Request.creates u) r s name h = rw (h name) refl
act-same (Request.updates u) r s name h = rw (h name) refl
act-same (Request.drops_points p) r s name h = h name
act-same (Request.writes (Write.delete_device p)) r s name h = rw (h name) refl
act-same (Request.writes (Write.replace_data_points d ps)) r s name h = h name
act-same (Request.writes (Write.insert_resources rs)) r s name h = h name
act-same (Request.writes (Write.cleanup_resources n)) r s name h = h name
act-same (Request.writes (Write.cleanup_resources_for_device d n)) r s name h = h name

act_all-same :
    (qs : List Request) (r s : Registry) (name : Bytes)
    → ((other : Bytes) → r other ≡ s other)
    → act_all qs r name ≡ act_all qs s name
unfolding act_all
act_all-same [] r s name h = h name
act_all-same (q ∷ qs) r s name h =
    act_all-same qs (act q r) (act q s) name (λ other. act-same q r s other h)

at_rest :
    (db : Database) (name : Bytes)
    → db.saved ≡ none
    → registry_of db.tables.devices name ≡ registry_of (durable db).devices name
at_rest db name e = rw e refl

-- The history of the calls behind the first one.
module _ (fault : Fault) (newest : TimeOrder) where
  abbrev Served : List Request → Database → Registry → Type 0
  Served qs db r =
      (rs : List Request) × Acted fault newest qs db rs
      × ((name : Bytes)
          → registry_of (run_requests fault newest qs db).tables.devices name ≡ act_all rs r name)

  step-Served :
      (q : Request) (qs : List Request) (db : Database) (o : Outcome Database (Unit {0}))
      → run_request fault newest q db ≡ o
      → Refines q db.tables.devices o
      → (after o).saved ≡ none
      → Served qs (after o) (registry_of (after o).tables.devices)
      → Served (q ∷ qs) db (registry_of db.tables.devices)
  unfolding run_requests act_all
  step-Served q qs db (returned u t) e h shut (rs, later, reads) = (
    q ∷ rs,
    Acted.acted (rw e later),
    λ name. rw (e, run_requests) (reads name ∙ act_all-same rs _ _ name h.reads),
  )
  step-Served q qs db (thrown what t) e (inl same) shut (rs, later, reads) = (
    rs,
    Acted.refused e later,
    λ name.
        rw (e, run_requests)
          (reads name ∙ act_all-same rs _ _ name (λ other. at_rest t other shut ∙ same other)),
  )
  step-Served q qs db (thrown what t) e (inr all) shut (rs, later, reads) = (
    q ∷ rs,
    Acted.acted (rw e later),
    λ name.
        rw (e, run_requests)
          (reads name ∙ act_all-same rs _ _ name (λ other. at_rest t other shut ∙ all other)),
  )

-- Whatever methods of SQLiteManager that write are called one after the other, the registry of
-- devices behind them is that of the calls that acted, in their order: every call that returned, and
-- some of those that threw. No transaction is open before, and none stays open behind a call.
pub run_requests-act_all :
    (fault : Fault) (newest : TimeOrder) (qs : List Request) (db : Database)
    → db.saved ≡ none
    → StaysClosed fault newest qs db
    → (rs : List Request) × Acted fault newest qs db rs
      × ((name : Bytes)
          → registry_of (run_requests fault newest qs db).tables.devices name
            ≡ act_all rs (registry_of db.tables.devices) name)
unfolding run_requests act_all
run_requests-act_all fault newest [] db shut h = ([], Acted.none_left, λ name. refl)
run_requests-act_all fault newest (q ∷ qs) db shut (here, later) =
    step-Served fault newest q qs db (run_request fault newest q db) refl
      (run_request-Refines fault newest q db shut) here
      (run_requests-act_all fault newest qs _ here later)
