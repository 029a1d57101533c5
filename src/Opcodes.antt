-- ===== src/Opcodes.antt =====
-- ethereum/opcodes.py: the operations of the virtual machine and their prices.
mod Prices
mod Table
use shopper.Prelude.{
  ℕ, ◌+◌, ◌-◌, ◌*◌, Bool, true, false, ◌&&◌, leb, if◌then◌else◌, Option, some, [], ◌∷◌,
}
use shopper.Dict.{Dict, lookup}
pub use shopper.Opcodes.Prices.{
  gmemory, gquadraticmemdenom, gexponentbyte, gcopy, gcontractbyte, gcallvaluetransfer, glogbyte,
  gtxcost, gtxdatazero, gtxdatanonzero, gsha3word, gstipend, gcallnewaccount, gsuiciderefund,
  gstoragerefund, gstoragekill, gstoragemod, gstorageadd, exp_supplemental_gas,
  sload_supplemental_gas, call_supplemental_gas, extcodeload_supplemental_gas,
  balance_supplemental_gas, call_child_limit_denom, suicide_supplemental_gas,
}
pub use shopper.Opcodes.Table.{Op}
unfoldable pub use shopper.Opcodes.Table.{decode, is_metropolis_op}
use shopper.Opcodes.Table.Op.{
  stop, addmod, mulmod, iszero, not, address, balance, origin, caller, callvalue, calldataload,
  calldatasize, calldatacopy, codesize, codecopy, gasprice, extcodesize, extcodecopy,
  returndatasize, returndatacopy, blockhash, coinbase, timestamp, number, difficulty, gaslimit, pop,
  mload, sload, jump, pc, msize, gas, jumpdest, create, call, callcode, delegatecall, callblackbox,
  staticcall, suicide, push, dup, swap, log, mstore, mstore8, sstore, jumpi, return, revert, mul,
  div, sdiv, modulo, smod, exp, signextend, sha3,
}

-- How many stack items an operation takes.
unfoldable pub in_args : Op → ℕ
in_args stop = 0
in_args addmod = 3
in_args mulmod = 3
in_args iszero = 1
in_args not = 1
in_args address = 0
in_args balance = 1
in_args origin = 0
in_args caller = 0
in_args callvalue = 0
in_args calldataload = 1
in_args calldatasize = 0
in_args calldatacopy = 3
in_args codesize = 0
in_args codecopy = 3
in_args gasprice = 0
in_args extcodesize = 1
in_args extcodecopy = 4
in_args returndatasize = 0
in_args returndatacopy = 3
in_args blockhash = 1
in_args coinbase = 0
in_args timestamp = 0
in_args number = 0
in_args difficulty = 0
in_args gaslimit = 0
in_args pop = 1
in_args mload = 1
in_args sload = 1
in_args jump = 1
in_args pc = 0
in_args msize = 0
in_args gas = 0
in_args jumpdest = 0
in_args create = 3
in_args call = 7
in_args callcode = 7
in_args delegatecall = 6
in_args callblackbox = 7
in_args staticcall = 6
in_args suicide = 1
in_args (push n) = 0
in_args (dup n) = n
in_args (swap n) = n + 1
in_args (log n) = n + 2
in_args _ = 2

-- How many stack items an operation leaves in their place.
unfoldable pub out_args : Op → ℕ
out_args stop = 0
out_args calldatacopy = 0
out_args codecopy = 0
out_args extcodecopy = 0
out_args returndatacopy = 0
out_args pop = 0
out_args mstore = 0
out_args mstore8 = 0
out_args sstore = 0
out_args jump = 0
out_args jumpi = 0
out_args jumpdest = 0
out_args return = 0
out_args revert = 0
out_args suicide = 0
out_args (push n) = 1
out_args (dup n) = n + 1
out_args (swap n) = n + 1
out_args (log n) = 0
out_args _ = 1

-- The base fee.
unfoldable pub fee : Op → ℕ
fee stop = 0
fee mul = 5
fee div = 5
fee sdiv = 5
fee modulo = 5
fee smod = 5
fee addmod = 8
fee mulmod = 8
fee exp = 10
fee signextend = 5
fee sha3 = 30
fee address = 2
fee balance = 20
fee origin = 2
fee caller = 2
fee callvalue = 2
fee calldatasize = 2
fee codesize = 2
fee gasprice = 2
fee extcodesize = 20
fee extcodecopy = 20
fee returndatasize = 2
fee blockhash = 20
fee coinbase = 2
fee timestamp = 2
fee number = 2
fee difficulty = 2
fee gaslimit = 2
fee pop = 2
fee sload = 50
fee sstore = 0
fee jump = 8
fee jumpi = 10
fee pc = 2
fee msize = 2
fee gas = 2
fee jumpdest = 1
fee create = 32000
fee call = 40
fee callcode = 40
fee return = 0
fee delegatecall = 40
fee callblackbox = 40
fee staticcall = 40
fee revert = 0
fee suicide = 0
fee (push n) = 3
fee (dup n) = 3
fee (swap n) = 3
fee (log n) = 375 * (n + 1)
fee _ = 3
