-- ===== src/Messages.antt =====
-- ethereum/messages.py: message calls, contract creation and transactions. A handler is bounded by
-- two numbers: the rounds of each loop of the virtual machine, and the depth of nested messages.
pub mod Apply
pub mod Rejected
pub mod Validation
pub mod Transactions
pub mod Validity
pub mod Journaled
pub mod Settled
use shopper.Prelude.{ℕ, ◌-◌, ◌^◌, Option, List}
use shopper.State.{Address}

-- `Transaction` of ethereum/transactions.py. `sender` is the address that the signature yields, and
-- `none` is the empty `to` of a contract creation.
pub record Transaction : Type 0 where
  pub nonce : ℕ
  pub gasprice : ℕ
  pub startgas : ℕ
  pub to : Option Address
  pub value : ℕ
  pub bytes : List ℕ
  pub v : ℕ
  pub r : ℕ
  pub s : ℕ
  pub sender : Address

abbrev pub null_address : Address
null_address = 2 ^ 160 - 1

abbrev pub secpk1n : ℕ
secpk1n = 115792089237316195423570985008687907852837564279074904382605163141518161494337
