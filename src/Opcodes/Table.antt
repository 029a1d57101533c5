-- ===== src/Opcodes/Table.antt =====
-- ethereum/opcodes.py: the operations and the table of their numbers.
use shopper.Prelude.{ℕ, ◌-◌, Bool, true, false, ◌&&◌, leb, if◌then◌else◌, Option, some, [], ◌∷◌}
use shopper.Dict.{Dict, lookup}

-- The numbered families carry their number: `push n` for PUSH1 to PUSH32, `dup n` for DUP1 to
-- DUP16, `swap n` for SWAP1 to SWAP16, `log n` for LOG0 to LOG4. `modulo` is MOD.
pub data Op : Type 0 where
  stop add mul sub div sdiv modulo smod addmod mulmod exp signextend lt gt slt sgt eq : Op
  iszero and or xor not byte sha3 address balance origin caller callvalue calldataload : Op
  calldatasize calldatacopy codesize codecopy gasprice extcodesize extcodecopy : Op
  returndatasize returndatacopy blockhash coinbase timestamp number difficulty gaslimit pop : Op
  mload mstore mstore8 sload sstore jump jumpi pc msize gas jumpdest create call callcode : Op
  return delegatecall callblackbox staticcall revert suicide : Op
  push dup swap log : ℕ → Op

-- The named entries of the dictionary `opcodes`.
abbrev pub named_opcodes : Dict Op
named_opcodes =
    (0x00, stop)
    ∷ (0x01, add)
    ∷ (0x02, mul)
    ∷ (0x03, sub)
    ∷ (0x04, div)
    ∷ (0x05, sdiv)
    ∷ (0x06, modulo)
    ∷ (0x07, smod)
    ∷ (0x08, addmod)
    ∷ (0x09, mulmod)
    ∷ (0x0a, exp)
    ∷ (0x0b, signextend)
    ∷ (0x10, lt)
    ∷ (0x11, gt)
    ∷ (0x12, slt)
    ∷ (0x13, sgt)
    ∷ (0x14, eq)
    ∷ (0x15, iszero)
    ∷ (0x16, and)
    ∷ (0x17, or)
    ∷ (0x18, xor)
    ∷ (0x19, not)
    ∷ (0x1a, byte)
    ∷ (0x20, sha3)
    ∷ (0x30, address)
    ∷ (0x31, balance)
    ∷ (0x32, origin)
    ∷ (0x33, caller)
    ∷ (0x34, callvalue)
    ∷ (0x35, calldataload)
    ∷ (0x36, calldatasize)
    ∷ (0x37, calldatacopy)
    ∷ (0x38, codesize)
    ∷ (0x39, codecopy)
    ∷ (0x3a, gasprice)
    ∷ (0x3b, extcodesize)
    ∷ (0x3c, extcodecopy)
    ∷ (0x3d, returndatasize)
    ∷ (0x3e, returndatacopy)
    ∷ (0x40, blockhash)
    ∷ (0x41, coinbase)
    ∷ (0x42, timestamp)
    ∷ (0x43, number)
    ∷ (0x44, difficulty)
    ∷ (0x45, gaslimit)
    ∷ (0x50, pop)
    ∷ (0x51, mload)
    ∷ (0x52, mstore)
    ∷ (0x53, mstore8)
    ∷ (0x54, sload)
    ∷ (0x55, sstore)
    ∷ (0x56, jump)
    ∷ (0x57, jumpi)
    ∷ (0x58, pc)
    ∷ (0x59, msize)
    ∷ (0x5a, gas)
    ∷ (0x5b, jumpdest)
    ∷ (0xf0, create)
    ∷ (0xf1, call)
    ∷ (0xf2, callcode)
    ∷ (0xf3, return)
    ∷ (0xf4, delegatecall)
    ∷ (0xf5, callblackbox)
    ∷ (0xfa, staticcall)
    ∷ (0xfd, revert)
    ∷ (0xff, suicide)
    ∷ []

-- `opcodes[opcode]`, or `none` where there is no entry. The families are the loops below the
-- dictionary.
unfoldable pub decode : ℕ → Option Op
unfolding lookup
decode opcode =
    if leb 0x60 opcode && leb opcode 0x7f
    then some (push (opcode - 0x5f))
    else if leb 0x80 opcode && leb opcode 0x8f
    then some (dup (opcode - 0x7f))
    else if leb 0x90 opcode && leb opcode 0x9f
    then some (swap (opcode - 0x8f))
    else if leb 0xa0 opcode && leb opcode 0xa4
    then some (log (opcode - 0xa0))
    else lookup opcode named_opcodes

-- `opcodesMetropolis`
unfoldable pub is_metropolis_op : Op → Bool
is_metropolis_op returndatasize = true
is_metropolis_op returndatacopy = true
is_metropolis_op staticcall = true
is_metropolis_op revert = true
is_metropolis_op _ = false
