-- ===== src/Task/Cycle/Mock.antt =====
-- The exchange of a round with the mock driver: what is stored of its answer.
use collector_service.Db.Manager.Stored.{insert_all_resources-with_records, with_records}
use collector_service.Db.Manager.Failures.{Blamed, ThrewOf, insert_resources-cases}
use collector_service.Command.Processor.{reply}
use collector_service.Command.Field.RoundTrip.{NoQuote}
use collector_service.Driver.MockServer.{handle_query}
use collector_service.Driver.MockServer.RoundTrip.{
  IsPlain, IsReadable, process_response-handle_query,
}
use collector_service.Driver.MockServer.Paths.{IsPrinted}
use collector_service.Db.Manager.AllOrNothing.{run_write, run_write-AllOrNothing}
use collector_service.Prelude.Result.{ok}
use collector_service.Db.ResourceTable.{TimeOrder}
use collector_service.Task.Worker.{Environment, World, on_db}
use collector_service.Task.Cycle.{RoundInput, at_stage, exchange}
use collector_service.Prelude.Exec.{
  Outcome, lift, pure, raise, returned, thrown, ◌>>◌, ◌>>◌, ◌>>◌, ◌>>◌, ◌>>◌,
}
use collector_service.Db.Atomic.{AllOrNothing, durable}
use collector_service.Models.{DataPoint, Device, Double, ResourceRecord}
use collector_service.Driver.MockServer.ReadBack.{name_paths, response}
use collector_service.Task.Query.{build_query, make_cid}
use collector_service.Db.{Database, Fault}
use collector_service.Driver.MockServer.Record.{mock_record}
use collector_service.Db.Writes.{Write, effect, insert_all_resources}
use collector_service.Prelude.{
  All, Bytes, List, [], arith, false, inl, inr, is_empty, map, none, refl, sym, text, true, ℤ, ◌++◌,
  ◌∙◌, ◌∷◌, ◌≡◌, ◌≢◌, ◌⊎◌,
}
use collector_service.StdString.Number.{show_int}
use collector_service.StdString.{is_member}
use collector_service.Db.Manager

-- An exchange that returns has stored the records and got the answer; one that throws has stored
-- nothing that lasts, and one of its calls of SQLite has failed, with the message that it throws.
abbrev pub Stores : Fault → List ResourceRecord → Bytes → World → Outcome World Bytes → Type 0
Stores fault rs reply w (returned response v) =
    (response ≡ reply) × (v.db.tables ≡ with_records rs w.db.tables) × (v.db.saved ≡ none)
Stores fault rs reply w (thrown what v) =
    (durable v.db ≡ w.db.tables)
    × ((msg : Bytes) × (what ≡ text "processResponse failed: " ++ msg)
        × Blamed fault w.db.calls v.db.calls msg)

handle_query-given :
    (fixed_text : Double → Bytes) (timestamp : Double) (query : Bytes)
    → is_empty (handle_query fixed_text timestamp query) ≡ false
unfolding handle_query is_empty text
handle_query-given fixed_text timestamp query = refl

stored-Stores :
    (fault : Fault) (rs : List ResourceRecord) (reply : Bytes) (w : World)
    (o : Outcome Database (Unit {0}))
    → AllOrNothing (insert_all_resources rs) w.db.tables o
    → ((done : Database) × (o ≡ returned tt done)) ⊎ ThrewOf fault w.db o
    → Stores fault rs reply w
        ((do at_stage (text "processResponse") (on_db (λ db. o)); pure reply) w)
unfolding at_stage on_db pure raise text
stored-Stores fault rs reply w (returned u done) (all_of_it, closed) cases = (
  refl,
  (let e = sym all_of_it ∙ insert_all_resources-with_records rs w.db.tables in cc e),
  closed,
)
stored-Stores fault rs reply w (thrown what done) h (inl (db, e)) = cc e
stored-Stores fault rs reply w (thrown what done) h (inr (msg, s, e, blame)) =
    let same_text : msg ≡ what = cc e in
    let same_db : s ≡ done = cc e in (h, (what, refl, rw (← same_text, ← same_db) blame))

inserted-Stores :
    (fault : Fault) (newest : TimeOrder) (rs : List ResourceRecord) (reply : Bytes) (w : World)
    → w.db.saved ≡ none
    → Stores fault rs reply w (
        (do
          at_stage (text "processResponse") (on_db (Manager.insert_resources fault rs))
          pure reply)
          w)
unfolding at_stage on_db run_write effect
inserted-Stores fault newest rs reply w closed =
    stored-Stores fault rs reply w (Manager.insert_resources fault rs w.db)
      (run_write-AllOrNothing fault newest (Write.insert_resources rs) w.db closed)
      (insert_resources-cases fault rs w.db closed)

is_member-dash : (v rest : Bytes) → is_member (v ++ (b'-' ∷ rest)) b'-' ≡ true
unfolding is_member
is_member-dash [] rest = refl
is_member-dash (c ∷ v) rest = ground (arith, is_member-dash v rest)

make_cid-dash : (name : Bytes) (now_ms : ℤ) → is_member (make_cid name now_ms) b'-' ≡ true
unfolding make_cid
make_cid-dash name now_ms = is_member-dash name (show_int now_ms)

make_cid-given : (name : Bytes) (now_ms : ℤ) → is_empty (make_cid name now_ms) ≡ false
unfolding is_empty make_cid
make_cid-given [] now_ms = refl
make_cid-given (c ∷ name) now_ms = refl

make_cid-other : (name : Bytes) (now_ms : ℤ) → make_cid name now_ms ≢ text "query"
unfolding is_member text
make_cid-other name now_ms e =
    let dash = make_cid-dash name now_ms in let bad = rw e at dash in cc bad

-- Where the mock driver answers, an exchange that returns got the answer and has added to
-- Resources one row for each point, in their order, with the record that is read of the mock
-- driver's object and an Id that goes on from the last one given; nothing else has changed in the
-- tables and no transaction is open. It throws only if one of the calls of SQLite that it makes
-- fails, with the message of that call behind the name of the stage, and the durable tables are
-- then as before. No transaction is open before, the points make a query with the cid of the
-- device's name, which is none of their paths and has no double quote, line feed, carriage return
-- or tab; each path begins with a slash, has a name other than "item_name" behind its last slash,
-- no blanks around it, and no double quote, backslash, colon, closing bracket, line feed, carriage
-- return or tab; and the clock's time and the three values of paths, 1.2, 2.0 and 0.0, are printed
-- as texts that begin like a number and have only the bytes of numbers.
pub exchange-Stores :
    (env : Environment) (input : RoundInput) (d : Device) (w : World) (fixed_text : Double → Bytes)
    (timestamp : Double) (query : Bytes) (points : List DataPoint)
    → IsPrinted fixed_text timestamp
    → NoQuote (make_cid d.name input.cid_ms)
    → IsPlain (make_cid d.name input.cid_ms)
    → All (λ path. make_cid d.name input.cid_ms ≢ path) (name_paths points)
    → All IsReadable points
    → build_query (make_cid d.name input.cid_ms) points ≡ ok query
    → input.connected ≡ true
    → input.reply ≡ ok (handle_query fixed_text timestamp query)
    → w.db.saved ≡ none
    → Stores env.fault
        (map (mock_record fixed_text timestamp env.stod input.response_time d) points)
        (handle_query fixed_text timestamp query)
        w
        (exchange env input d points w)
unfolding exchange at_stage lift pure
exchange-Stores env input d w fixed_text timestamp query points numeric clean plain other readable
      asked up replied closed =
    rw
      (
        asked,
        up,
        replied,
        handle_query-given fixed_text timestamp query,
        process_response-handle_query fixed_text timestamp input.response_time env.stod d
            (make_cid d.name input.cid_ms) query points numeric (make_cid-given d.name input.cid_ms)
            clean plain (make_cid-other d.name input.cid_ms) other readable asked,
      )
      (inserted-Stores env.fault env.newest
        (map (mock_record fixed_text timestamp env.stod input.response_time d) points)
        (handle_query fixed_text timestamp query) w closed)
