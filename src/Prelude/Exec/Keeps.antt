-- ===== src/Prelude/Exec/Keeps.antt =====
-- Invariants of actions, with one rule for each way to build an action.
use collector_service.Prelude.{inl, inr, ◌≡◌}
use collector_service.Prelude.Texts.{Bytes}
use collector_service.Prelude.Tests.{if◌then◌else◌, Bool-cases}
use collector_service.Prelude.Result.{Result, ok, err}
use collector_service.Prelude.Exec.{
  Outcome, returned, thrown, Exec, pure, raise, lift, gets, modify, after, continue, handled,
  continue-eq-returned,
}
use mathlib.Core.Bool.{Bool, true, false}
use mathlib.Core.Option.{Option, none, some}

-- The action keeps `P`, whether it returns or throws.
pub record Keeps {S A : Type 0} (P : S → Type 0) (m : Exec S A) : Type 0 where
  pub at : (s : S) → P s → P (after (m s))

module _ {S A : Type 0} {P : S → Type 0} where
  pub Keeps-if :
      (test : Bool) (then_do else_do : Exec S A)
      → Keeps P then_do
      → Keeps P else_do
      → Keeps P (if test then then_do else else_do)
  Keeps-if true m n km kn = km
  Keeps-if false m n km kn = kn

  pub Keeps-gets : (read : S → A) → Keeps P (gets read)
  unfolding gets
  Keeps-gets read = record { at = λ s p. p }

  pub Keeps-raise : (what : Bytes) → Keeps P (raise {A = A} what)
  unfolding raise
  Keeps-raise what = record { at = λ s p. p }

  pub Keeps-lift : (result : Result A) → Keeps P (lift result)
  unfolding lift
  Keeps-lift (ok value) = record { at = λ s p. p }
  Keeps-lift (err what) = record { at = λ s p. p }

  pub Keeps-pure : (value : A) → Keeps P (pure value)
  unfolding pure
  Keeps-pure value = record { at = λ s p. p }

  catch_outcome :
      (o : Outcome S A) (handler : Bytes → Exec S A)
      → P (after o)
      → ((what : Bytes) → Keeps P (handler what))
      → P (after (handled o handler))
  catch_outcome (returned a t) handler h k = h
  catch_outcome (thrown what t) handler h k = (k what).at t h

  pub Keeps-catch :
      (m : Exec S A) (handler : Bytes → Exec S A)
      → Keeps P m
      → ((what : Bytes) → Keeps P (handler what))
      → Keeps P (λ s. handled (m s) handler)
  Keeps-catch m handler km kh = record { at = λ s h. catch_outcome (m s) handler (km.at s h) kh }

pub Keeps-modify :
    {S : Type 0} {P : S → Type 0} (f : S → S) → ((s : S) → P s → P (f s)) → Keeps P (modify f)
unfolding modify
Keeps-modify f h = record { at = h }

module _ {S A B : Type 0} {P : S → Type 0} where
  continue_outcome :
      (o : Outcome S A) (f : A → Exec S B)
      → P (after o)
      → ((a : A) → Keeps P (f a))
      → P (after (continue o f))
  continue_outcome (returned a s) f h k = (k a).at s h
  continue_outcome (thrown what s) f h k = h

  pub Keeps-bind :
      (first : Exec S A) (rest : A → Exec S B)
      → Keeps P first
      → ((value : A) → Keeps P (rest value))
      → Keeps P (λ s. continue (first s) rest)
  Keeps-bind first rest k kr = record { at = λ s p. continue_outcome (first s) rest (k.at s p) kr }

  pub Keeps-option :
      (o : Option A) (m : Exec S B) (f : A → Exec S B)
      → Keeps P m
      → ((a : A) → Keeps P (f a))
      → Keeps P (elim o [ none ↦ m | some a ↦ f a ])
  Keeps-option none m f km kf = km
  Keeps-option (some a) m f km kf = kf a

pub ruleset keeps_rules = (
  Keeps-pure, Keeps-raise, Keeps-lift, Keeps-gets, Keeps-if, Keeps-catch, Keeps-bind, Keeps-option,
)

-- What holds of the value and the state where the action returns.
pub record Ensures {S A : Type 0} (Q : A → S → Type 0) (m : Exec S A) : Type 0 where
  pub at : (s : S) (a : A) (t : S) → m s ≡ returned a t → Q a t

-- The last action of a block decides.
pub Ensures-bind :
    {S A B : Type 0} {Q : B → S → Type 0} (m : Exec S A) (f : A → Exec S B)
    → ((a : A) → Ensures Q (f a))
    → Ensures Q (λ s. continue (m s) f)
Ensures-bind m f h = record {
  at = λ s b t e.
      let (a, mid, first, second) = continue-eq-returned (m s) f e in (h a).at mid b t second;
}

-- The first action says what the others may take of its value.
pub Ensures-chain :
    {S A B : Type 0} {P : A → Type 0} {Q : B → S → Type 0} (m : Exec S A) (f : A → Exec S B)
    → Ensures (λ a s. P a) m
    → ((a : A) → P a → Ensures Q (f a))
    → Ensures Q (λ s. continue (m s) f)
Ensures-chain m f hm h = record {
  at = λ s b t e.
      let (a, mid, first, second) = continue-eq-returned (m s) f e in
      (h a (hm.at s a mid first)).at mid b t second;
}

module _ {S A : Type 0} {Q : A → S → Type 0} where
  pub Ensures-if :
      (test : Bool) (then_do else_do : Exec S A)
      → Ensures Q then_do
      → Ensures Q else_do
      → Ensures Q (if test then then_do else else_do)
  Ensures-if true m n km kn = km
  Ensures-if false m n km kn = kn

  pub Ensures-raise : (what : Bytes) → Ensures Q (raise what)
  unfolding raise
  Ensures-raise what = record { at = λ s a t e. cc e }

  handled-eq-returned :
      (o : Outcome S A) (handler : Bytes → Exec S A) (a : A) (t : S)
      → (o ≡ returned a t → Q a t)
      → ((what : Bytes) → Ensures Q (handler what))
      → handled o handler ≡ returned a t
      → Q a t
  handled-eq-returned (returned b s) handler a t h k e = h e
  handled-eq-returned (thrown what s) handler a t h k e = (k what).at s a t e

  pub Ensures-catch :
      (m : Exec S A) (handler : Bytes → Exec S A)
      → Ensures Q m
      → ((what : Bytes) → Ensures Q (handler what))
      → Ensures Q (λ s. handled (m s) handler)
  Ensures-catch m handler km kh = record {
    at = λ s a t e. handled-eq-returned (m s) handler a t (km.at s a t) kh e;
  }

-- A value that is right in every state.
pub Ensures-pure :
    {S A : Type 0} {Q : A → Type 0} (a : A) → Q a → Ensures (λ (b : A) (s : S). Q b) (pure a)
unfolding pure
Ensures-pure a q = record { at = λ s b t e. let same : a ≡ b = cc e in rw (← same) q }

-- if (test) { throw …; }, at the end of a block
pub Ensures-guard :
    {S A : Type 0} (test : S → Bool) (what : Bytes) (a : A)
    → Ensures
        (λ (b : A) (t : S). test t ≡ false)
        (λ s. continue (gets test s) (λ r. if r then raise what else pure a))
unfolding gets raise pure
Ensures-guard test what a = record {
  at = λ s b t e. elim (Bool-cases (test s)) [
    | inl yes_it_is ↦ let bad = rw yes_it_is at e in cc bad
    | inr no_it_is ↦
        let good = rw no_it_is at e in let same : s ≡ t = cc good in rw (← same) no_it_is
  ];
}
