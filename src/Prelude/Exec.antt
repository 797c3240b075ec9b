-- ===== src/Prelude/Exec.antt =====
-- Methods that change an object and may throw. What was written before a throw stays written, so
-- the state comes back beside the exception too.
pub mod Keeps
pub mod Triple
use collector_service.Prelude.{refl, ◌≡◌}
use collector_service.Prelude.Texts.{Bytes}
use collector_service.Prelude.Result.{Result, ok, err}
use mathlib.Core.Option.{Option, none, some}

pub data Outcome (S A : Type 0) : Type 0 where
  returned : A → S → Outcome S A
  thrown : Bytes → S → Outcome S A

abbrev pub Exec : Type 0 → Type 0 → Type 0
Exec S A = S → Outcome S A

module _ {S A : Type 0} where
  unfoldable pub pure : A → Exec S A
  pure a s = returned a s

  unfoldable pub raise : Bytes → Exec S A
  raise what s = thrown what s

  unfoldable pub lift : Result A → Exec S A
  lift (ok a) s = returned a s
  lift (err what) s = thrown what s

  unfoldable pub gets : (S → A) → Exec S A
  gets f s = returned (f s) s

  abbrev pub handled : Outcome S A → (Bytes → Exec S A) → Outcome S A
  handled (returned a s) handler = returned a s
  handled (thrown what s) handler = handler what s

  -- `catch (const std::exception& ex)`, given ex.what()
  abbrev pub catch : Exec S A → (Bytes → Exec S A) → Exec S A
  catch m handler s = handled (m s) handler

  -- The state that a call leaves behind.
  abbrev pub after : Outcome S A → S
  after (returned a s) = s
  after (thrown what s) = s

unfoldable pub modify : {S : Type 0} → (S → S) → Exec S (Unit {0})
modify f s = returned tt (f s)

module _ {S A B : Type 0} where
  abbrev pub continue : Outcome S A → (A → Exec S B) → Outcome S B
  continue (returned a s) f = f a s
  continue (thrown what s) f = thrown what s

  infixl 5 ◌>>=◌ ◌>>◌
  abbrev pub ◌>>=◌ : Exec S A → (A → Exec S B) → Exec S B
  ◌>>=◌ m f s = continue (m s) f

  abbrev pub ◌>>◌ : Exec S A → Exec S B → Exec S B
  m >> n = m >>= λ _. n

pub continue-eq-returned :
    {S A B : Type 0} (o : Outcome S A) (f : A → Exec S B) {b : B} {t : S}
    → continue o f ≡ returned b t
    → (a : A) × (s : S) × (o ≡ returned a s) × (f a s ≡ returned b t)
continue-eq-returned (returned a s) f e = (a, s, refl, e)
continue-eq-returned (thrown what s) f e = cc e
