-- ===== src/Task/Race/Clash.antt =====
-- Two starts of one device that overlap.
use collector_service.Task.Race.Overlap.{own_phase}
use collector_service.Prelude.Dict.{lookup, erase, lookup-erase, lookup-put}
use collector_service.Task.Status.{take_thread, add_worker, erase_stop_flag, is_active}
use collector_service.Prelude.{
  Bytes, arith, none, ℕ, ◌∙◌, ◌≡◌, ◌≢◌, equal_refl, false, refl, some, sym, true, if◌then◌else◌,
  suc, ◌==◌,
}
use collector_service.Task.Race.{
  Phase, Race, Runs, Move, take_stale, to_phase, add_thread, check_active, erase_flag, make_thread,
}

-- Any caller may move.
abbrev pub Anyone : ℕ → Type 0
Anyone i = Unit {0}

module _ (name : Bytes) where
  -- Where the two callers are, while the device is not active and has no thread.
  record At (i j : ℕ) (p q : Phase) (w : Race) : Type 0 where
    first : w.phases i ≡ p
    second : w.phases j ≡ q
    thread : lookup name w.store.worker_threads ≡ none
    idle : is_active name w.store ≡ false
    runs_on : w.is_terminated ≡ false

  swap : {i j : ℕ} {p q : Phase} {w : Race} → At i j p q w → At j i q p w
  swap a = record {
    first = a.second;
    second = a.first;
    thread = a.thread;
    idle = a.idle;
    runs_on = a.runs_on;
  }

  other_phase : (i j : ℕ) (p : Phase) (w : Race) → i ≢ j → (to_phase i p w).phases j ≡ w.phases j
  other_phase i j p w ne = ground arith

  to_phase-At :
      {q : Phase} (i j : ℕ) (p : Phase) (w : Race)
      → i ≢ j
      → w.phases j ≡ q
      → lookup name w.store.worker_threads ≡ none
      → is_active name w.store ≡ false
      → w.is_terminated ≡ false
      → At i j p q (to_phase i p w)
  to_phase-At i j p w ne e t idle r = record {
    first = own_phase i p w;
    second = other_phase i j p w ne ∙ e;
    thread = t;
    idle = idle;
    runs_on = r;
  }

  -- A world that the callers come to.
  abbrev Comes : Race → ℕ → ℕ → Phase → Phase → Type 0
  Comes w i j p q = (v : Race) × Runs name Anyone w v × At i j p q v

  module _ (w : Race) (i j : ℕ) (q : Phase) (ne : i ≢ j) where
    check_step : Comes w i j Phase.checks q → Comes w i j Phase.may_take q
    unfolding check_active
    check_step (u, r, a) = (
      check_active name i u,
      Runs.moved tt r (Move.check a.first),
      rw (a.idle) (to_phase-At i j Phase.may_take u ne a.second a.thread a.idle a.runs_on),
    )

    take_step : Comes w i j Phase.may_take q → Comes w i j (Phase.took none) q
    unfolding take_stale take_thread is_active
    take_step (u, r, a) = (
      take_stale name i u,
      Runs.moved tt r (Move.take_it a.first),
      rw (a.thread, take_stale, take_thread)
          (to_phase-At i j (Phase.took none)
            (record u {
              store = record u.store { worker_threads = erase name u.store.worker_threads };
            })
            ne a.second (rw (lookup-erase name name u.store.worker_threads, equal_refl name) refl)
            a.idle a.runs_on),
    )

    erase_step : Comes w i j (Phase.took none) q → Comes w i j (Phase.joins none) q
    unfolding erase_flag erase_stop_flag is_active
    erase_step (u, r, a) = (
      erase_flag name i none u,
      Runs.moved tt r (Move.erase_it a.first),
      to_phase-At i j (Phase.joins none) (record u { store = erase_stop_flag name u.store }) ne
          a.second a.thread a.idle a.runs_on,
    )

    join_step : Comes w i j (Phase.joins none) q → Comes w i j Phase.may_make q
    join_step (u, r, a) = (
      to_phase i Phase.may_make u,
      Runs.moved tt r (Move.join_none a.first),
      to_phase-At i j Phase.may_make u ne a.second a.thread a.idle a.runs_on,
    )

    make_step : Comes w i j Phase.may_make q → (t : ℕ) × Comes w i j (Phase.made t) q
    unfolding make_thread
    make_step (u, r, a) = (
      u.started,
      (
        make_thread i u,
        Runs.moved tt r (Move.make a.first),
        to_phase-At i j (Phase.made u.started)
            (record u {
              alive = (λ t. if t == u.started then true else u.alive t);
              started = suc u.started;
            })
            ne a.second a.thread a.idle a.runs_on,
      ),
    )

    -- A caller that has checked goes on up to addWorker.
    to_made : Comes w i j Phase.checks q → (t : ℕ) × Comes w i j (Phase.made t) q
    to_made c = make_step (join_step (erase_step (take_step (check_step c))))

  -- Both have made a thread: the second assignment ends the process.
  both_add :
      (w : Race) (i j s t : ℕ)
      → i ≢ j
      → Comes w i j (Phase.made s) (Phase.made t)
      → (v : Race) × Runs name Anyone w v × (v.is_terminated ≡ true)
  unfolding add_thread add_worker
  both_add w i j s t ne (u, r, a) =
      let v = add_thread name i s u in
      let one : Runs name Anyone w v = Runs.moved tt r (Move.add a.first) in
      let at_j : v.phases j ≡ Phase.made t =
        rw (a.thread, add_thread)
          (other_phase i j Phase.added (record u { store = add_worker name s s u.store }) ne
            ∙ a.second) in
      let there : lookup name v.store.worker_threads ≡ some s =
        rw (a.thread, add_thread)
          (rw (lookup-put name name s u.store.worker_threads, equal_refl name) refl) in
      (add_thread name j t v, Runs.moved tt one (Move.add at_j), rw (there, add_thread) refl)

-- Two starts of one device that is not collected from can end the process: where both have come to
-- isActive, some order of their steps assigns to a joinable std::thread.
pub overlap-terminates :
    (name : Bytes) (w : Race) (i j : ℕ)
    → i ≢ j
    → w.phases i ≡ Phase.checks
    → w.phases j ≡ Phase.checks
    → is_active name w.store ≡ false
    → lookup name w.store.worker_threads ≡ none
    → w.is_terminated ≡ false
    → (v : Race) × Runs name Anyone w v × (v.is_terminated ≡ true)
overlap-terminates name w i j ne e f idle free r =
    let begin : Comes name w i j Phase.checks Phase.checks = (
      w,
      Runs.at_start,
      record { first = e; second = f; thread = free; idle = idle; runs_on = r },
    ) in
    let (s, (u, runs, a)) = to_made name w i j Phase.checks ne begin in
    let (t, (v, runs', b)) =
      to_made name w j i (Phase.made s) (λ h. ne (sym h)) (u, runs, swap name a) in
    both_add name w i j s t ne (v, runs', swap name b)
