-- ===== src/Task/Control/Blocked.antt =====
-- A worker whose stop flag is no longer in the store: what stopAll makes of it.
use collector_service.Task.Cycle.Effect.{round-IsRound}
use collector_service.Models.{CommandResult}
use collector_service.Task.Control.Start.{RefusedAndDetached, start_device_collect-detaches}
use collector_service.Task.Control.{
  join, join_all, join_worker, stop_all, cleared_if_back, join_everyone, start_device_collect,
}
use collector_service.Task.Worker.{Worker, World, Environment}
use collector_service.Prelude.Dict.{Dict, lookup, erase}
use collector_service.Task.Cycle.{
  find_worker, remove_worker, finish, RoundInput, go_on, max_failures, round, worker_step,
}
use collector_service.Task.Status.{
  Flags, raise_all, raise_flag, values, request_stop_all, take_all_threads, is_active,
}
use collector_service.Prelude.{
  Bool, Bool-cases, Bytes, List, [], arith, false, inl, inr, refl, some, true, ℕ, ◌==◌, ◌||◌, ◌∷◌,
  ◌≡◌, ◌≢◌, ◌⊎◌, Option, none, ◌∙◌, ap, leb, ◌≤◌,
}
use collector_service.Prelude.Exec.{returned, Outcome, after, thrown}

abbrev pub contains : ℕ → List ℕ → Bool
contains t [] = false
contains t (x ∷ xs) = x == t || contains t xs

contains-lookup :
    (t : ℕ) (name : Bytes) (m : Dict ℕ) → lookup name m ≡ some t → contains t (values m) ≡ true
unfolding lookup values
contains-lookup t name [] e = cc e
contains-lookup t name ((n, i) ∷ m) e = ground (arith, contains-lookup t name m)

raise_all_other :
    (t : ℕ) (m : Dict ℕ) (flags : Flags)
    → contains t (values m) ≡ false
    → raise_all m flags t ≡ flags t
unfolding raise_all values
raise_all_other t [] flags h = refl
raise_all_other t ((n, i) ∷ m) flags h = ground (arith, raise_all_other t m (raise_flag i flags))

pub find_worker-thread :
    (t : ℕ) (ks : List Worker) (k : Worker) → find_worker t ks ≡ some k → k.thread ≡ t
unfolding find_worker
find_worker-thread t [] k e = cc e
find_worker-thread t (x ∷ ks) k e = ground (arith, find_worker-thread t ks k)

find_worker-remove_worker :
    (t j : ℕ) (ks : List Worker) → j ≢ t → find_worker t (remove_worker j ks) ≡ find_worker t ks
unfolding find_worker remove_worker
find_worker-remove_worker t j [] ne = refl
find_worker-remove_worker t j (x ∷ ks) ne = ground (arith, find_worker-remove_worker t j ks ne)

-- The worker of thread `t` runs, and nothing asks it to stop.
abbrev pub RunsOn : ℕ → World → Type 0
RunsOn t w = ((k : Worker) × (find_worker t w.workers ≡ some k)) × (w.flags t ≡ false)

join_all_blocked : (threads : List ℕ) (w : World) → join_all threads (false, w) ≡ (false, w)
unfolding join_all
join_all_blocked [] w = refl
join_all_blocked (x ∷ xs) w = refl

-- What a join makes of another thread `t` that runs on: it waits, or leaves `t` running.
abbrev Passes : ℕ → ℕ → World → Bool × World → Type 0
Passes t j w r = (r ≡ (false, w)) ⊎ ((j ≢ t) × (r.0 ≡ true) × RunsOn t r.1)

finish-RunsOn :
    (t : ℕ) (k : Worker) (w : World)
    → w.flags k.thread ≡ true
    → RunsOn t w
    → (k.thread ≢ t) × RunsOn t (finish k w)
unfolding finish
finish-RunsOn t k w up ((k', found), down) =
    let ne : k.thread ≢ t = λ p. let x = rw p at up in cc (x, down) in
    (ne, ((k', rw (find_worker-remove_worker t k.thread w.workers ne) found), down))

join_worker-Passes :
    (t j : ℕ) (w : World) (o : Option Worker)
    → find_worker j w.workers ≡ o
    → RunsOn t w
    → Passes t j w (join_worker o w)
unfolding join_worker
join_worker-Passes t j w none e r = inr (λ p. let x = rw p at e in cc (x, r.0.1), refl, r)
join_worker-Passes t j w (some k) e r = elim (Bool-cases (w.flags k.thread)) [
  | inr down ↦ inl (rw (down, join_worker) refl)
  | inl up ↦
      let (ne, on) = finish-RunsOn t k w up r in
      let same = find_worker-thread j w.workers k e in
      inr (λ p. ne (same ∙ p), rw (up, join_worker), rw (up, join_worker) on)
]

pair_of_true : (r : Bool × World) → r.0 ≡ true → r ≡ (true, r.1)
pair_of_true (true, w) e = refl
pair_of_true (false, w) e = cc e

contains_tail : (t j : ℕ) (js : List ℕ) → contains t (j ∷ js) ≡ true → j ≢ t → contains t js ≡ true
contains_tail t j js c ne = ground arith

join_all-waits :
    (t : ℕ) (threads : List ℕ) (w : World)
    → contains t threads ≡ true
    → RunsOn t w
    → (v : World) × (join_all threads (true, w) ≡ (false, v)) × RunsOn t v
unfolding join_all join
join_all-waits t [] w c r = cc c
join_all-waits t (j ∷ js) w c r = elim (join_worker-Passes t j w (find_worker j w.workers) refl r) [
  | inl waits ↦ (w, ap (join_all js) waits ∙ join_all_blocked js w, r)
  | inr (ne, back, on) ↦
      let (v, e, on') = join_all-waits t js (join j w).1 (contains_tail t j js c ne) on in
      (v, ap (join_all js) (pair_of_true (join j w) back) ∙ e, on')
]

-- stopAll waits in a join while the worker of `t` runs on, its stop flag not up.
abbrev pub Waits : ℕ → Outcome World Bool → World → Type 0
Waits t o u = (o ≡ returned false u) × RunsOn t u

-- A worker that runs on, and whose thread is in the store, is what stopAll waits for where no stop
-- flag in the store is its own.
pub stop_all-Waits :
    (t : ℕ) (name : Bytes) (w : World)
    → RunsOn t w
    → lookup name w.store.worker_threads ≡ some t
    → contains t (values w.store.stop_flags) ≡ false
    → (u : World) × Waits t (stop_all w) u
unfolding stop_all join_everyone take_all_threads request_stop_all cleared_if_back
stop_all-Waits t name w (k, down) th fl =
    let (v, e, on) =
      join_all-waits t (values w.store.worker_threads) _ (contains-lookup t name _ th)
        (k, raise_all_other t w.store.stop_flags w.flags fl ∙ down) in
    (v, (ap cleared_if_back e, on))

stop_all-Waits_detached :
    (t : ℕ) (name : Bytes) (w : World) (o : Outcome World (Option CommandResult))
    → lookup name w.store.worker_threads ≡ some t
    → RunsOn t w
    → contains t (values (erase name w.store.stop_flags)) ≡ false
    → RefusedAndDetached name w o
    → (u : World) × Waits t (stop_all (after o)) u
stop_all-Waits_detached t name w (thrown what v) th runs fl h = absurd h
stop_all-Waits_detached t name w (returned none v) th runs fl h = absurd h
stop_all-Waits_detached t name w (returned (some r) v) th runs fl h =
    let (code, (off, flags, threads, workers, raised)) = h in
    stop_all-Waits t name v ((runs.0.0, rw workers runs.0.1), rw raised runs.1) (rw threads th)
      (rw flags fl)

-- A pass of the worker of `t` leaves it running on, unless it is its fifth failure in a row.
abbrev pub GoesOn : Environment → RoundInput → ℕ → World → Type 0
GoesOn env input t u =
    RunsOn t (worker_step env input t u)
    ⊎ ((k : Worker) × (find_worker t u.workers ≡ some k) × (5 ≤ (round env input k u).0.fail_count))

go_on-RunsOn :
    (t : ℕ) (k : Worker) (v : World)
    → leb max_failures k.fail_count ≡ false
    → k.thread ≡ t
    → v.flags t ≡ false
    → RunsOn t (go_on (k, v))
unfolding go_on find_worker
go_on-RunsOn t k v few same down = rw few ((k, ground arith), down)

pub pass-GoesOn :
    (env : Environment) (input : RoundInput) (t : ℕ) (u : World) → RunsOn t u → GoesOn env input t u
unfolding worker_step
pass-GoesOn env input t u ((k, found), down) =
    let r = round-IsRound env input k u in
    let same : (round env input k u).0.thread ≡ t =
      r.same_thread ∙ find_worker-thread t u.workers k found in
    elim (Bool-cases (leb max_failures (round env input k u).0.fail_count)) [
      | inl fifth ↦ inr (k, found, ground arith)
      | inr few ↦ inl (
          rw (found, worker_step)
            (rw down (
              go_on-RunsOn t (round env input k u).0 (round env input k u).1 few same
                (rw r.flags down))))
    ]

-- Once a device whose worker runs is started again, stopAll does not come back while that worker runs:
-- the refused start has taken the worker's stop flag out of the store, so stopAll waits in a join
-- with that flag not up, and the worker goes on from each pass of its loop to the next but where it fails a
-- fifth time in a row. It is supposed that the store has the worker's thread under the device's
-- name and its stop flag under no other name.
pub start-stop_all-Waits :
    (env : Environment) (input : RoundInput) (name mid : Bytes) (t : ℕ) (w : World)
    → is_active name w.store ≡ true
    → lookup name w.store.worker_threads ≡ some t
    → RunsOn t w
    → contains t (values (erase name w.store.stop_flags)) ≡ false
    → (u : World) × Waits t (stop_all (after (start_device_collect env name mid w))) u
      × GoesOn env input t u
start-stop_all-Waits env input name mid t w on th runs fl =
    let (u, waits) =
      stop_all-Waits_detached t name w (start_device_collect env name mid w) th runs fl
        (start_device_collect-detaches env name mid w on) in
    (u, waits, pass-GoesOn env input t u waits.1)
