-- ===== src/Exceptions.antt =====
-- The exceptions that the code throws or lets through.
use p2p_sync_engine.Prelude.{Bytes}

pub data Exception : Type 0 where
  invalid_argument out_of_range filesystem_error : Exception
  runtime_error : Bytes → Exception

pub data Result {ℓ} (A : Type ℓ) : Type ℓ where
  ok : A → Result A
  throw : Exception → Result A

infixl 5 ◌>>=◌
abbrev pub ◌>>=◌ {ℓ κ} : {A : Type ℓ} {B : Type κ} → Result A → (A → Result B) → Result B
ok a >>= f = f a
throw e >>= f = throw e
