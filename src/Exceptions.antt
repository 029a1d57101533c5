-- ===== src/Exceptions.antt =====
-- ethereum/exceptions.py, Python's own exceptions that the modelled code raises, and functions
-- that may raise. `out_of_fuel` is the model's: a bounded loop that did not end.
pub data Exn : Type 0 where
  unknown_parent verification_failed : Exn
  invalid_transaction unsigned_transaction invalid_nonce insufficient_balance : Exn
  insufficient_start_gas block_gas_limit_reached gas_price_too_low : Exn
  assertion_error value_error index_error key_error overflow_error : Exn
  attribute_error plain_exception : Exn
  invalid_encoding out_of_fuel : Exn

pub data Result {ℓ} (A : Type ℓ) : Type ℓ where
  ok : A → Result A
  raised : Exn → Result A

infixl 5 ◌>>=◌ ◌>>◌
abbrev pub ◌>>=◌ {ℓ κ} : {A : Type ℓ} {B : Type κ} → Result A → (A → Result B) → Result B
ok a >>= f = f a
raised e >>= f = raised e

abbrev pub ◌>>◌ {ℓ} : {B : Type ℓ} → Result (Unit {0}) → Result B → Result B
m >> k = m >>= λ _. k
