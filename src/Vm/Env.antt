-- ===== src/Vm/Env.antt =====
-- The operations of ethereum/vm.py from 0x20 to 0x4f: the hash, what surrounds the running code,
-- and the block. A balance on the stack is a number; none is negative while transfers are paid for.
use shopper.Prelude.{
  ℕ, ◌+◌, ◌-◌, ◌*◌, ◌/◌, Bool, true, ◌&&◌, ltb, leb, if◌then◌else◌, List, ◌∷◌, length, pos,
  pos_part, ◌-ℤ◌, ltb_ℤ,
}
use shopper.Exceptions.{Result, ok, raised, index_error}
use shopper.State.{State, is_anti_dos}
use shopper.State.Ops.{get_balance, get_code, get_block_hash}
use shopper.Opcodes.{Op, gsha3word, balance_supplemental_gas, extcodeload_supplemental_gas}
use shopper.Vm.{Machine, Outcome, fault, vm_exception, Frame, Externals}
use shopper.Vm.Memory.{
  ceil32, slice, write_at, padded_slice, extract32, copied, mem_extend, eat_gas, data_copy, charged,
  with_stack, addr_of,
}

-- What the anti-DoS fork added to the price of reading an account.
unfoldable pub surcharge : ℕ → Machine → State → Bool × Machine
surcharge amount m s = if is_anti_dos s then eat_gas amount m else (true, m)

-- `ext.block_hash`
unfoldable pub block_hash : ℕ → State → Result ℕ
block_hash x s =
    if ltb x s.block_number && leb (s.block_number - x) 256
    then get_block_hash (s.block_number - x - 1) s
    else ok 0

abbrev pub pushed : Result ℕ → List ℕ → Machine → Outcome
pushed (ok v) st m = with_stack (v ∷ st) m
pushed (raised e) st m = fault e

-- The copying operations: the memory is paid for before the data.
unfoldable pub copy_to : ℕ → ℕ → List ℕ → List ℕ → Machine → State → Outcome × State
copy_to mstart size bytes st m s = charged (mem_extend mstart size m) s λ m1.
    charged (data_copy size m1) s
      λ m2. (with_stack st (record m2 { memory = write_at mstart bytes m2.memory }), s)

-- RETURNDATACOPY checks the range once everything is paid for.
unfoldable pub copy_returned : ℕ → ℕ → ℕ → List ℕ → Machine → State → Outcome × State
copy_returned mstart dstart size st m s = charged (mem_extend mstart size m) s λ m1.
    charged (data_copy size m1) s λ m2.
      if ltb (length m2.last_returned) (dstart + size) then (vm_exception, s) else (
        with_stack st
            (record m2 { memory = write_at mstart (slice dstart size m2.last_returned) m2.memory }),
        s,
      )

unfoldable pub sha3_step : (List ℕ → ℕ) → ℕ → ℕ → List ℕ → Machine → State → Outcome × State
sha3_step sha3 s0 s1 st m s =
    let gas = m.gas -ℤ pos (gsha3word * (ceil32 s1 / 32)) in
    if ltb_ℤ gas (pos 0)
    then (vm_exception, s)
    else charged (mem_extend s0 s1 (record m { gas = gas })) s
        λ m1. (with_stack (sha3 (slice s0 s1 m1.memory) ∷ st) m1, s)

unfoldable pub env_step : Externals → Frame → Op → List ℕ → Machine → State → Outcome × State
env_step x f Op.sha3 (s0 ∷ s1 ∷ st) m s = sha3_step x.sha3 s0 s1 st m s
env_step x f Op.address st m s = (with_stack (f.msg.to ∷ st) m, s)
env_step x f Op.balance (a ∷ st) m s = charged (surcharge balance_supplemental_gas m s) s λ m1.
    let (balance, s1) = get_balance (addr_of a) s in (with_stack (pos_part balance ∷ st) m1, s1)
env_step x f Op.origin st m s = (with_stack (f.context.tx_origin ∷ st) m, s)
env_step x f Op.caller st m s = (with_stack (f.msg.sender ∷ st) m, s)
env_step x f Op.callvalue st m s = (with_stack (f.msg.value ∷ st) m, s)
env_step x f Op.calldataload (i ∷ st) m s = (with_stack (extract32 i f.msg.call_data ∷ st) m, s)
env_step x f Op.calldatasize st m s = (with_stack (f.msg.call_data.size ∷ st) m, s)
env_step x f Op.calldatacopy (mstart ∷ dstart ∷ size ∷ st) m s =
    copy_to mstart size (copied dstart size f.msg.call_data) st m s
env_step x f Op.codesize st m s = (with_stack (length f.code ∷ st) m, s)
env_step x f Op.codecopy (mstart ∷ dstart ∷ size ∷ st) m s =
    copy_to mstart size (padded_slice dstart size f.code) st m s
env_step x f Op.returndatacopy (mstart ∷ dstart ∷ size ∷ st) m s =
    copy_returned mstart dstart size st m s
env_step x f Op.returndatasize st m s = (with_stack (length m.last_returned ∷ st) m, s)
env_step x f Op.gasprice st m s = (with_stack (f.context.tx_gasprice ∷ st) m, s)
env_step x f Op.extcodesize (a ∷ st) m s =
    charged (surcharge extcodeload_supplemental_gas m s) s
      λ m1. let (code, s1) = get_code (addr_of a) s in (with_stack (length code ∷ st) m1, s1)
env_step x f Op.extcodecopy (a ∷ start ∷ s2 ∷ size ∷ st) m s =
    charged (surcharge extcodeload_supplemental_gas m s) s λ m1.
      let (extcode, s1) = get_code (addr_of a) s in
      copy_to start size (padded_slice s2 size extcode) st m1 s1
env_step x f Op.blockhash (n ∷ st) m s = (pushed (block_hash n s) st m, s)
env_step x f Op.coinbase st m s = (with_stack (f.context.block_coinbase ∷ st) m, s)
env_step x f Op.timestamp st m s = (with_stack (f.context.block_timestamp ∷ st) m, s)
env_step x f Op.number st m s = (with_stack (f.context.block_number ∷ st) m, s)
env_step x f Op.difficulty st m s = (with_stack (f.context.block_difficulty ∷ st) m, s)
env_step x f Op.gaslimit st m s = (with_stack (f.context.block_gas_limit ∷ st) m, s)
env_step x f _ st m s = (fault index_error, s)
