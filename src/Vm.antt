-- ===== src/Vm.antt =====
-- ethereum/vm.py: the data of the virtual machine. The modules below model the groups of
-- operations, the loop, and prove their properties.
pub mod Memory
pub mod Code
pub mod Alu
pub mod Env
pub mod Flow
pub mod Calls
pub mod Loop
pub mod Journaled
pub mod Gas
pub mod Heights
use shopper.Prelude.{ℕ, Bool, false, List, [], Option, ℤ, pos}
use shopper.Exceptions.{Exn, Result}
use shopper.State.{Address, State}

-- `CallData`: a slice of a memory that does not change while it is read.
pub record CallData : Type 0 where
  pub bytes : List ℕ
  pub offset : ℕ
  pub size : ℕ

-- `Message`. The empty address of a contract creation is `none` as code address; `to` is then
-- set before it is read.
pub record Message : Type 0 where
  pub sender : Address
  pub to : Address
  pub value : ℕ
  pub gas : ℤ
  pub call_data : CallData
  pub depth : ℕ
  pub code_address : Option Address
  pub is_create : Bool
  pub transfers_value : Bool
  pub static : Bool

-- `Compustate`, without what only tracing reads. The top of the stack comes first.
pub record Machine : Type 0 where
  pub memory : List ℕ
  pub stack : List ℕ
  pub pc : ℕ
  pub gas : ℤ
  pub last_returned : List ℕ

-- The triple that a message call returns: success, the gas left, the output.
pub record Reply : Type 0 where
  pub success : Bool
  pub gas : ℤ
  pub output : List ℕ

-- What one operation does to the execution: it goes on, it returns, or Python raises.
pub data Outcome : Type 0 where
  next : Machine → Outcome
  halt : Reply → Outcome
  fault : Exn → Outcome

abbrev pub Handler : Type 0
Handler = Message → State → Result Reply × State

-- What `VMExt` takes from the block and the transaction when it is made.
pub record Context : Type 0 where
  pub tx_origin : Address
  pub tx_gasprice : ℕ
  pub block_coinbase : Address
  pub block_timestamp : ℕ
  pub block_number : ℕ
  pub block_difficulty : ℕ
  pub block_gas_limit : ℕ

-- What stays fixed while one piece of code runs.
pub record Frame : Type 0 where
  pub context : Context
  pub msg : Message
  pub code : List ℕ

-- `vm_exception`
abbrev pub vm_exception : Outcome
vm_exception = halt (record { success = false; gas = pos 0; output = [] })

-- What the machine takes from elsewhere: `utils.sha3`, as the number that the hash reads as,
-- `int_to_big_endian` of rlp, `utils.mk_contract_address`, which hashes what rlp encodes, and the
-- contracts of ethereum/specials.py at their addresses.
pub record Externals : Type 0 where
  pub sha3 : List ℕ → ℕ
  pub int_to_big_endian : ℕ → List ℕ
  pub mk_contract_address : Address → ℕ → Address
  pub special : Address → Option Handler

-- `ext.msg` and `ext.create`
pub record Handlers : Type 0 where
  pub msg : Handler
  pub create : Handler
