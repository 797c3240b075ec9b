-- ===== src/Task/Race/Overlap.antt =====
-- Starts of one device that overlap, and a start alone.
use collector_service.Task.Status.{
  add_worker, erase_stop_flag, is_active, mark_start_failed, mark_stopped, take_thread,
}
use collector_service.Prelude.Dict.{lookup, lookup-erase}
use collector_service.Prelude.{
  Bytes, Option, false, none, ℕ, ◌≡◌, Bool, arith, equal_refl, if◌then◌else◌, refl, some, true,
}
use collector_service.Task.Race.{
  Phase, Race, Runs, Move, add_thread, check_active, erase_flag, fail_start, make_thread,
  take_stale, end_thread, to_phase,
}

-- Where a caller has taken the stale thread, no thread of the device is in the store.
abbrev IsFree : Phase → Option ℕ → Type 0
IsFree (Phase.took o) th = th ≡ none
IsFree (Phase.joins o) th = th ≡ none
IsFree Phase.may_make th = th ≡ none
IsFree (Phase.made t) th = th ≡ none
IsFree _ th = Unit {0}

record IsSafe (name : Bytes) (i : ℕ) (w : Race) : Type 0 where
  free : IsFree (w.phases i) (lookup name w.store.worker_threads)
  runs_on : w.is_terminated ≡ false

pub own_phase : (i : ℕ) (p : Phase) (w : Race) → (to_phase i p w).phases i ≡ p
own_phase i p w = ground arith

to_phase-IsSafe :
    (name : Bytes) (i : ℕ) (p : Phase) (w : Race)
    → IsFree p (lookup name w.store.worker_threads)
    → w.is_terminated ≡ false
    → IsSafe name i (to_phase i p w)
to_phase-IsSafe name i p w h r = record { free = rw (own_phase i p w) h; runs_on = r }

checked :
    (name : Bytes) (b : Bool) (th : Option ℕ)
    → IsFree (if b then Phase.fails else Phase.may_take) th
checked name true th = tt
checked name false th = tt

phase-IsFree :
    (p : Phase) (i : ℕ) (w : Race) (name : Bytes)
    → w.phases i ≡ p
    → IsSafe name i w
    → IsFree p (lookup name w.store.worker_threads)
phase-IsFree p i w name e s = rw e at s.free

Move-IsSafe :
    (name : Bytes) (i : ℕ) (u v : Race) → Move name i u v → IsSafe name i u → IsSafe name i v
unfolding check_active take_stale erase_flag make_thread add_thread fail_start take_thread
    erase_stop_flag mark_start_failed add_worker
Move-IsSafe name i u v (Move.check e) s =
    to_phase-IsSafe name i _ u (checked name (is_active name u.store) _) s.runs_on
Move-IsSafe name i u v (Move.take_it e) s =
    to_phase-IsSafe name i (Phase.took (lookup name u.store.worker_threads)) _
      (rw (lookup-erase name name u.store.worker_threads, equal_refl name) refl) s.runs_on
Move-IsSafe name i u v (Move.erase_it {o = o} e) s =
    to_phase-IsSafe name i (Phase.joins o) _ (phase-IsFree (Phase.took o) i u name e s) s.runs_on
Move-IsSafe name i u v (Move.join_none e) s =
    to_phase-IsSafe name i Phase.may_make u (phase-IsFree (Phase.joins none) i u name e s) s.runs_on
Move-IsSafe name i u v (Move.join_ended {t = t} e f) s =
    to_phase-IsSafe name i Phase.may_make u (phase-IsFree (Phase.joins (some t)) i u name e s)
      s.runs_on
Move-IsSafe name i u v (Move.make e) s =
    to_phase-IsSafe name i (Phase.made u.started) _ (phase-IsFree Phase.may_make i u name e s)
      s.runs_on
Move-IsSafe name i u v (Move.add {t = t} e) s =
    let free : lookup name u.store.worker_threads ≡ none =
      phase-IsFree (Phase.made t) i u name e s in
    rw (free, add_thread) (to_phase-IsSafe name i Phase.added _ tt s.runs_on)
Move-IsSafe name i u v (Move.fail e) s = to_phase-IsSafe name i Phase.refused _ tt s.runs_on

end_thread-IsSafe :
    (name : Bytes) (i t : ℕ) (u : Race) → IsSafe name i u → IsSafe name i (end_thread name t u)
unfolding end_thread mark_stopped
end_thread-IsSafe name i t u s = record { free = s.free; runs_on = s.runs_on }

Runs-IsSafe :
    (name : Bytes) (i : ℕ) (u v : Race)
    → Runs name (λ j. j ≡ i) u v
    → IsSafe name i u
    → IsSafe name i v
Runs-IsSafe name i u v Runs.at_start s = s
Runs-IsSafe name i u v (Runs.moved {i = j} {u = mid} e r m) s =
    let m' : Move name i mid v = rw e at m in
    Move-IsSafe name i mid v m' (Runs-IsSafe name i u mid r s)
Runs-IsSafe name i u v (Runs.ended t {u = mid} r) s =
    end_thread-IsSafe name i t mid (Runs-IsSafe name i u mid r s)

-- A start of a device that overlaps no other start of it never assigns to a joinable thread, whatever
-- the store holds when it begins and whenever workers end.
pub alone-survives :
    (name : Bytes) (i : ℕ) (u v : Race)
    → u.phases i ≡ Phase.checks
    → u.is_terminated ≡ false
    → Runs name (λ j. j ≡ i) u v
    → v.is_terminated ≡ false
alone-survives name i u v e r runs =
    (Runs-IsSafe name i u v runs (record { free = rw e tt; runs_on = r })).runs_on
