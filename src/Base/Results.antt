-- ===== src/Base/Results.antt =====
-- Outcomes of the calls that throw. A thrown exception leaves the object as it was before the
-- statement that threw, so the models return the new object only with `ok`.

-- The classes of exceptions that the library throws.
pub data Exception : Type 0 where
  invalid_argument length_error logic_error spi_channel_exception cdc_impl_exception : Exception
  bad_function_call : Exception

pub data Result {ℓ} (A : Type ℓ) : Type ℓ where
  ok : A → Result A
  err : Exception → Result A

infixl 5 ◌>>=◌
abbrev pub ◌>>=◌ {ℓ κ} : {A : Type ℓ} {B : Type κ} → Result A → (A → Result B) → Result B
ok a >>= f = f a
err e >>= f = err e
