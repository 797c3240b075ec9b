-- ===== src/Server/Lifetime.antt =====
-- Which servers can be destroyed.
use collector_service.Prelude.{
  Bool-cases, Bytes, List, Option, [], false, inl, inr, none, refl, some, true, ◌∙◌, ◌∷◌, ◌≡◌,
}
use collector_service.Server.{Server, start, stop, run, destroy}
use collector_service.Prelude.Result.{err}

-- What the owner of a server calls.
pub data Call : Type 0 where
  calls_start : Call
  calls_stop : Call

unfoldable pub make_call : Call → Server → Option Server
make_call Call.calls_start s = start s
make_call Call.calls_stop s = some (stop s)

unfoldable pub make_calls : List Call → Server → Option Server
make_calls [] s = some s
make_calls (c ∷ cs) s = elim (make_call c s) [ none ↦ none | some t ↦ make_calls cs t ]

-- The thread is there just while the server runs.
abbrev pub IsTidy : Server → Type 0
IsTidy s = s.joinable ≡ s.running

make_call-IsTidy :
    (c : Call) (s : Server) → IsTidy s → (t : Server) × (make_call c s ≡ some t) × IsTidy t
unfolding make_call start stop
make_call-IsTidy Call.calls_start s h = elim (Bool-cases s.running) [
  | inl up ↦ (s, rw up refl, h)
  | inr down ↦ (record { running = true; joinable = true }, rw (down, h ∙ down) refl, refl)
]
make_call-IsTidy Call.calls_stop s h = elim (Bool-cases s.running) [
  | inl up ↦ (record { running = false; joinable = false }, rw up refl, refl)
  | inr down ↦ (s, rw down refl, h)
]

tidy-destroy : (s : Server) → IsTidy s → destroy s ≡ some tt
unfolding destroy stop
tidy-destroy s h = elim (Bool-cases s.running) [
  | inl up ↦ rw up refl
  | inr down ↦ rw (down, h ∙ down) refl
]

-- A server whose thread did not fail may be started and stopped in any order and any number of
-- times, and then destroyed: std::terminate is never called.
pub make_calls-destroy :
    (cs : List Call) (s : Server)
    → IsTidy s
    → (t : Server) × (make_calls cs s ≡ some t) × (destroy t ≡ some tt)
unfolding make_calls
make_calls-destroy [] s h = (s, refl, tidy-destroy s h)
make_calls-destroy (c ∷ cs) s h =
    let (t, e, tidy) = make_call-IsTidy c s h in
    let (u, e', gone) = make_calls-destroy cs t tidy in (u, rw (e, make_calls) e', gone)

-- A server that runs and whose acceptor cannot be set up, as on a port in use, calls std::terminate
-- when it is destroyed, stopped before or not, and when it is started again.
pub run-terminates :
    (what : Bytes) (s : Server)
    → s.joinable ≡ true
    → (destroy (run (err what) s) ≡ none)
      × (destroy (stop (run (err what) s)) ≡ none)
      × (start (run (err what) s) ≡ none)
unfolding destroy stop run start
run-terminates what s h = (rw h refl, rw h refl, rw h refl)
