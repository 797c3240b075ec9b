-- ===== src/Db/Sound/Methods.antt =====
-- The methods of src/db keep the constraints of the tables, whether they return or throw.
use collector_service.Db.PointTable.{insert_point, insert_points}
use collector_service.Prelude.Exec.Keeps.{Keeps, Keeps-bind, Keeps-catch, Keeps-pure, Keeps-raise}
use collector_service.Prelude.Result.{Result}
use collector_service.Db.ResourceTable.{insert_resource, insert_rows}
use collector_service.Models.{DataPoint, Device, ResourceRecord}
use collector_service.Db.Sound.{
  IsSoundDb, KeepsSound, insert_point-KeepsSound, insert_resource-KeepsSound,
}
use collector_service.Prelude.{List, Option, Option-cases, [], inl, inr, ◌∷◌, ◌≡◌}
use collector_service.Db.Statement.{IgnoresCalls, prepare-Keeps, step_done-Keeps, step_row-Keeps}
use collector_service.Db.{
  Database, Fault, Tables, begin_change, begin_transaction, commit, commit_change, prepare,
  rollback, rollback_change, sqlite_call, step_done, step_row, transaction,
}
use collector_service.Prelude.Exec.{◌>>◌, Exec, catch, pure}

pub ticked : IgnoresCalls IsSoundDb
ticked s h = record { now = h.now; before = h.before }

pub prepare-IsSoundDb : (fault : Fault) → Keeps IsSoundDb (prepare fault)
prepare-IsSoundDb fault = prepare-Keeps fault ticked

pub step_done-IsSoundDb :
    (fault : Fault) (change : Tables → Result Tables)
    → KeepsSound change
    → Keeps IsSoundDb (step_done fault change)
step_done-IsSoundDb fault change k =
    step_done-Keeps fault change ticked
      (λ s t e h. record { now = k.sound s.tables t e h.now; before = h.before })

pub step_row-IsSoundDb :
    {A : Type 0} (fault : Fault) (row : Tables → Option A) → Keeps IsSoundDb (step_row fault row)
step_row-IsSoundDb fault row = step_row-Keeps fault row ticked

pub sqlite_call-IsSoundDb : (fault : Fault) → Keeps IsSoundDb (sqlite_call fault)
sqlite_call-IsSoundDb fault = unfold prepare in prepare-IsSoundDb fault

begin_change-IsSoundDb : Keeps IsSoundDb begin_change
unfolding begin_change
begin_change-IsSoundDb = record {
  at = λ s h. elim (Option-cases s.saved) [
    | inl closed ↦
        rw (closed, begin_change)
          (record {
            now = h.now;
            before = λ t e. let same : s.tables ≡ t = cc e in rw (← same) h.now;
          })
    | inr (t, opened) ↦ rw (opened, begin_change) h
  ];
}

commit_change-IsSoundDb : Keeps IsSoundDb commit_change
unfolding commit_change
commit_change-IsSoundDb = record {
  at = λ s h. elim (Option-cases s.saved) [
    | inl closed ↦ rw (closed, commit_change) h
    | inr (t, opened) ↦ rw (opened, commit_change) (record { now = h.now; before = λ t e. cc e })
  ];
}

rollback_change-IsSoundDb : Keeps IsSoundDb rollback_change
unfolding rollback_change
rollback_change-IsSoundDb = record {
  at = λ s h. elim (Option-cases s.saved) [
    | inl closed ↦ rw (closed, rollback_change) h
    | inr (t, opened) ↦
        rw (opened, rollback_change) (record { now = h.before t opened; before = λ t e. cc e })
  ];
}

pub transaction-IsSoundDb :
    (fault : Fault) (body : Exec Database (Unit {0}))
    → Keeps IsSoundDb body
    → Keeps IsSoundDb (transaction fault body)
unfolding transaction begin_transaction commit rollback
transaction-IsSoundDb fault body k =
    let call = sqlite_call-IsSoundDb fault in
    Keeps-bind (do sqlite_call fault; begin_change) _
      (Keeps-bind (sqlite_call fault) _ call (λ _. begin_change-IsSoundDb))
      (λ _.
        Keeps-catch _ _
          (Keeps-bind body _ k
            (λ _. Keeps-bind (sqlite_call fault) _ call (λ _. commit_change-IsSoundDb)))
          (λ what.
            Keeps-bind (catch (do sqlite_call fault; rollback_change) (λ what. pure tt)) _
              (Keeps-catch _ _
                (Keeps-bind (sqlite_call fault) _ call (λ _. rollback_change-IsSoundDb))
                (λ what. Keeps-pure tt))
              (λ _. Keeps-raise what)))

-- A statement of one change.
pub statement-IsSoundDb :
    (fault : Fault) (change : Tables → Result Tables)
    → KeepsSound change
    → Keeps IsSoundDb (do prepare fault; step_done fault change)
statement-IsSoundDb fault change k =
    Keeps-bind (prepare fault) _ (prepare-IsSoundDb fault) (λ _. step_done-IsSoundDb fault change k)

pub insert_points-IsSoundDb :
    (fault : Fault) (device : Device) (ps : List DataPoint)
    → Keeps IsSoundDb (insert_points fault device ps)
unfolding insert_points
insert_points-IsSoundDb fault device [] = Keeps-pure tt
insert_points-IsSoundDb fault device (p ∷ ps) =
    Keeps-bind (prepare fault) _ (prepare-IsSoundDb fault) (λ _.
      Keeps-bind (step_done fault (insert_point device p)) _
        (step_done-IsSoundDb fault _ (insert_point-KeepsSound device p))
        (λ _. insert_points-IsSoundDb fault device ps))

pub insert_rows-IsSoundDb :
    (fault : Fault) (rs : List ResourceRecord) → Keeps IsSoundDb (insert_rows fault rs)
unfolding insert_rows
insert_rows-IsSoundDb fault [] = Keeps-pure tt
insert_rows-IsSoundDb fault (r ∷ rs) = Keeps-bind (prepare fault) _ (prepare-IsSoundDb fault) (λ _.
    Keeps-bind (step_done fault (insert_resource r)) _
      (step_done-IsSoundDb fault _ (insert_resource-KeepsSound r))
      (λ _. insert_rows-IsSoundDb fault rs))
