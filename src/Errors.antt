-- ===== src/Errors.antt =====
-- Python's exceptions, as far as callers tell them apart: a call returns or raises.

pub data Error : Type 0 where
  value_error key_error runtime_error validation_error : Error
  domain_error assertion_error : Error

pub data Result {ℓ} (A : Type ℓ) : Type ℓ where
  ok : A → Result A
  err : Error → Result A

infixl 5 ◌>>=◌
abbrev pub ◌>>=◌ {ℓ κ} : {A : Type ℓ} {B : Type κ} → Result A → (A → Result B) → Result B
ok a >>= f = f a
err e >>= f = err e
