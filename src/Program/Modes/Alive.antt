-- ===== src/Program/Modes/Alive.antt =====
-- What the other threads do beside main in src/main.cpp, and whether the process outlives it.
use collector_service.Task.Worker.{World}
use collector_service.Prelude.Exec.Keeps.{Ensures, Ensures-pure}
use collector_service.Prelude.{
  Bool, List, [], false, if◌then◌else◌, inl, inr, none, true, ◌∷◌, ◌≡◌, ◌⊎◌, Option-cases,
}
use collector_service.Prelude.Exec.{Exec}
use collector_service.Program.Modes.{Reading, wait_for_enter, Others, let_act}

-- One of the other threads calls std::terminate while main waits for a line.
abbrev pub Dies : List Reading → Type 0
Dies [] = ⊥
Dies (r ∷ rs) = ((w : World) × (r.meanwhile w ≡ none)) ⊎ Dies rs

-- The process is still there, or one of the other threads has ended it.
abbrev pub AliveOr : Type 0 → Bool → Type 0
AliveOr dead true = Unit {0}
AliveOr dead false = dead

pub let_act-Alive :
    (others : Others)
    → Ensures (λ b v. AliveOr ((w : World) × (others w ≡ none)) b) (let_act others)
unfolding let_act
let_act-Alive others = record {
  at = λ w b v e. elim (Option-cases (others w)) [
    | inl dead ↦
        let e' = rw (dead, let_act) at e in let same : false ≡ b = cc e' in rw (← same) (w, dead)
    | inr (u, alive) ↦
        let e' = rw (alive, let_act) at e in let same : true ≡ b = cc e' in rw (← same) tt
  ];
}

pub wait-Alive :
    (input : List Reading) → Ensures (λ b v. AliveOr (Dies input) b) (wait_for_enter input)
unfolding wait_for_enter
wait-Alive [] = Ensures-pure true tt
wait-Alive (r ∷ rs) = record { at = λ w b v e. weaker b ((let_act-Alive r.meanwhile).at w b v e) }
  where
    weaker :
        (b : Bool) → AliveOr ((w : World) × (r.meanwhile w ≡ none)) b → AliveOr (Dies (r ∷ rs)) b
    weaker true h = tt
    weaker false h = inl h

-- A mode goes on where the process is still there.
pub if_alive :
    {A : Type 0} {Q : A → World → Type 0} (dead : Type 0) (b : Bool) (m n : Exec World A)
    → AliveOr dead b
    → Ensures Q m
    → (dead → Ensures Q n)
    → Ensures Q (if b then m else n)
if_alive dead true m n h k d = k
if_alive dead false m n h k d = d h
