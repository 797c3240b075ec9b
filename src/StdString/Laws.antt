-- ===== src/StdString/Laws.antt =====
-- Where a search stops, whatever text follows.
use collector_service.Prelude.{ℕ, Bytes, true, some, [], ◌∷◌, ◌++◌, ◌≡◌, refl, arith}
use collector_service.StdString.{starts_with, find}

pub starts_with-append : (p t : Bytes) → starts_with p (p ++ t) ≡ true
unfolding starts_with
starts_with-append [] t = refl
starts_with-append (x ∷ p) t = ground (arith, starts_with-append p t)

-- A key that stands at the front is found there.
pub find-append : (x : ℕ) (k t : Bytes) → find (x ∷ k) ((x ∷ k) ++ t) ≡ some ((x ∷ k) ++ t)
unfolding find starts_with
find-append x k t = ground (arith, starts_with-append k t)
