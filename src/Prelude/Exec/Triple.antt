-- ===== src/Prelude/Exec/Triple.antt =====
-- Hoare triples for methods that may throw, with one rule for each way to build a method.
use collector_service.Prelude.Tests.{if◌then◌else◌}
use collector_service.Prelude.{Bool, false, true, refl, ◌≡◌}
use collector_service.Prelude.Exec.Keeps.{Keeps, Ensures}
use collector_service.Prelude.Texts.{Bytes}
use collector_service.Prelude.Exec.{Exec, Outcome, returned, thrown, after, continue, pure, raise}

module _ {S A : Type 0} where
  -- `Q` of what the method returns, `R` of what it leaves behind where it throws.
  abbrev pub Post : (A → S → Type 0) → (S → Type 0) → Outcome S A → Type 0
  Post Q R (returned a t) = Q a t
  Post Q R (thrown what t) = R t

pub record Triple {S A : Type 0} (P : S → Type 0) (Q : A → S → Type 0) (R : S → Type 0)
    (m : Exec S A) : Type 0 where
  pub at : (s : S) → P s → Post Q R (m s)

module _ {S A : Type 0} where
  -- An invariant that is enough where the method throws.
  invariant-Post :
      {I : S → Type 0} {Q : A → S → Type 0} {R : S → Type 0} (o : Outcome S A)
      → ((a : A) (s : S) → I s → Q a s)
      → ((s : S) → I s → R s)
      → I (after o)
      → Post Q R o
  invariant-Post (returned a t) q r h = q a t h
  invariant-Post (thrown what t) q r h = r t h

  weaker-Post :
      {Q Q' : A → S → Type 0} {R R' : S → Type 0} (o : Outcome S A)
      → ((a : A) (s : S) → Q a s → Q' a s)
      → ((s : S) → R s → R' s)
      → Post Q R o
      → Post Q' R' o
  weaker-Post (returned a t) q r h = q a t h
  weaker-Post (thrown what t) q r h = r t h

module _ {S A B : Type 0} where
  bind-Post :
      {Q : A → S → Type 0} {Q' : B → S → Type 0} {R : S → Type 0} (o : Outcome S A)
      (f : A → Exec S B)
      → Post Q R o
      → ((a : A) → Triple (Q a) Q' R (f a))
      → Post Q' R (continue o f)
  bind-Post (returned a t) f h k = (k a).at t h
  bind-Post (thrown what t) f h k = h

module _ {S A : Type 0} {P : S → Type 0} {Q : A → S → Type 0} {R : S → Type 0} where
  pub Triple-if :
      (test : Bool) (then_do else_do : Exec S A)
      → Triple P Q R then_do
      → Triple P Q R else_do
      → Triple P Q R (if test then then_do else else_do)
  Triple-if true m n km kn = km
  Triple-if false m n km kn = kn

  pub Triple-pure : (a : A) → ((s : S) → P s → Q a s) → Triple P Q R (pure a)
  unfolding pure
  Triple-pure a h = record { at = h }

  pub Triple-raise : (what : Bytes) → ((s : S) → P s → R s) → Triple P Q R (raise what)
  unfolding raise
  Triple-raise what h = record { at = h }

  pub Triple-invariant :
      {I : S → Type 0} (m : Exec S A)
      → Keeps I m
      → ((s : S) → P s → I s)
      → ((a : A) (s : S) → I s → Q a s)
      → ((s : S) → I s → R s)
      → Triple P Q R m
  Triple-invariant m k p q r = record { at = λ s h. invariant-Post (m s) q r (k.at s (p s h)) }

module _ {S A B : Type 0} {P : S → Type 0} {Q : A → S → Type 0} {Q' : B → S → Type 0}
    {R : S → Type 0} where
  pub Triple-bind :
      (first : Exec S A) (rest : A → Exec S B)
      → Triple P Q R first
      → ((a : A) → Triple (Q a) Q' R (rest a))
      → Triple P Q' R (λ s. continue (first s) rest)
  Triple-bind first rest k kr = record { at = λ s p. bind-Post (first s) rest (k.at s p) kr }

-- A stronger postcondition, and a weaker precondition.
module _ {S A : Type 0} {P P' : S → Type 0} {Q Q' : A → S → Type 0} {R R' : S → Type 0} where
  pub Triple-weaken :
      (m : Exec S A)
      → Triple P Q R m
      → ((s : S) → P' s → P s)
      → ((a : A) (s : S) → Q a s → Q' a s)
      → ((s : S) → R s → R' s)
      → Triple P' Q' R' m
  Triple-weaken m k p q r = record { at = λ s h. weaker-Post (m s) q r (k.at s (p s h)) }

-- A fact of the precondition that does not speak of the state.
pub Triple-fact :
    {S A : Type 0} {P : S → Type 0} {X : Type 0} {Q : A → S → Type 0} {R : S → Type 0}
    (m : Exec S A)
    → (X → Triple P Q R m)
    → Triple (λ s. P s × X) Q R m
Triple-fact m h = record { at = λ s b. (h b.1).at s b.0 }

-- An invariant, and what holds of the value.
module _ {S A : Type 0} where
  kept_and_ensured :
      (I : S → Type 0) (V : A → S → Type 0) (o : Outcome S A)
      → I (after o)
      → ((a : A) (t : S) → o ≡ returned a t → V a t)
      → Post (λ a t. I t × V a t) I o
  kept_and_ensured I V (returned a t) h v = (h, v a t refl)
  kept_and_ensured I V (thrown what t) h v = h

  pub Triple-kept :
      {I : S → Type 0} {V : A → S → Type 0} (m : Exec S A)
      → Keeps I m
      → Ensures V m
      → Triple I (λ a t. I t × V a t) I m
  Triple-kept {I} {V} m k e = record {
    at = λ s h. kept_and_ensured I V (m s) (k.at s h) (λ a t same. e.at s a t same);
  }
