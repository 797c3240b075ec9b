-- ===== src/Prelude/Result.antt =====
-- Functions that may throw. An exception is the text that its `what()` returns: the program reads
-- nothing else of one.
use collector_service.Prelude.Texts.{Bytes}

pub data Result {ℓ} (A : Type ℓ) : Type ℓ where
  ok : A → Result A
  err : Bytes → Result A

infixl 5 ◌>>=◌
abbrev pub ◌>>=◌ {ℓ κ} : {A : Type ℓ} {B : Type κ} → Result A → (A → Result B) → Result B
ok a >>= f = f a
err e >>= f = err e
