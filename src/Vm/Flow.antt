-- ===== src/Vm/Flow.antt =====
-- The operations of ethereum/vm.py from 0x50 to 0x7f but POP: memory, storage, jumps, pushes. The
-- program counter has moved past the operation when they run.
use shopper.Prelude.{
  ℕ, ◌+◌, ◌-◌, ◌%◌, ◌==◌, if◌then◌else◌, Option, none, some, List, [], ◌∷◌, length, pos, pos_part,
  ◌-ℤ◌, ltb_ℤ,
}
use shopper.Exceptions.{index_error, key_error}
use shopper.Dict.{lookup}
use shopper.State.{State, Param}
use shopper.State.Ops.{get_storage_data, set_storage_data, set_param}
use shopper.Opcodes.{
  Op, sload_supplemental_gas, gstoragemod, gstoragekill, gstorageadd, gstoragerefund,
}
use shopper.Vm.{Machine, Outcome, next, fault, vm_exception, Frame}
use shopper.Vm.Memory.{bytes_to_int, encode_int32, slice, write_at, mem_extend, charged, with_stack}
use shopper.Vm.Code.{pushcache, is_jumpdest}
use shopper.Vm.Env.{surcharge}

unfoldable pub jump_to : Frame → ℕ → List ℕ → Machine → Outcome
jump_to f target st m =
    if is_jumpdest target f.code then with_stack st (record m { pc = target }) else vm_exception

-- What SSTORE costs and refunds, by the stored value and the new one.
unfoldable pub sstore_gas : ℕ → ℕ → ℕ × ℕ
sstore_gas stored value =
    if stored == 0 then ((if value == 0 then gstoragemod else gstorageadd), 0) else (
      (if value == 0 then gstoragekill else gstoragemod),
      (if value == 0 then gstoragerefund else 0),
    )

unfoldable pub add_refund : ℕ → State → State
add_refund x s = set_param (Param.refunds (s.refunds + x)) s

unfoldable pub sstore_step : Frame → ℕ → ℕ → List ℕ → Machine → State → Outcome × State
sstore_step f s0 s1 st m s =
    let (stored, state1) = get_storage_data f.msg.to s0 s in
    let (gascost, refund) = sstore_gas stored s1 in
    let after = set_storage_data f.msg.to s0 s1 (add_refund refund state1) in
    if f.msg.static
    then (vm_exception, s)
    else if ltb_ℤ m.gas (pos gascost)
    then (vm_exception, state1)
    else (with_stack st (record m { gas = m.gas -ℤ pos gascost }), after)

abbrev pub push_value : Option ℕ → ℕ → Machine → Outcome
push_value none n m = fault key_error
push_value (some v) n m = with_stack (v ∷ m.stack) (record m { pc = m.pc + n })

-- PUSH1 to PUSH32
unfoldable pub push_step : Frame → ℕ → Machine → Outcome
push_step f n m = push_value (lookup (m.pc - 1) (pushcache f.code)) n m

unfoldable pub flow_step : Frame → Op → List ℕ → Machine → State → Outcome × State
flow_step f Op.mload (s0 ∷ st) m s =
    charged (mem_extend s0 32 m) s
      λ m1. (with_stack (bytes_to_int (slice s0 32 m1.memory) ∷ st) m1, s)
flow_step f Op.mstore (s0 ∷ s1 ∷ st) m s =
    charged (mem_extend s0 32 m) s
      λ m1. (with_stack st (record m1 { memory = write_at s0 (encode_int32 s1) m1.memory }), s)
flow_step f Op.mstore8 (s0 ∷ s1 ∷ st) m s =
    charged (mem_extend s0 1 m) s
      λ m1. (with_stack st (record m1 { memory = write_at s0 (s1 % 256 ∷ []) m1.memory }), s)
flow_step f Op.sload (k ∷ st) m s =
    charged (surcharge sload_supplemental_gas m s) s
      λ m1. let (v, s1) = get_storage_data f.msg.to k s in (with_stack (v ∷ st) m1, s1)
flow_step f Op.sstore (s0 ∷ s1 ∷ st) m s = sstore_step f s0 s1 st m s
flow_step f Op.jump (target ∷ st) m s = (jump_to f target st m, s)
flow_step f Op.jumpi (target ∷ test ∷ st) m s =
    ((if test == 0 then with_stack st m else jump_to f target st m), s)
flow_step f Op.pc st m s = (with_stack ((m.pc - 1) ∷ st) m, s)
flow_step f Op.msize st m s = (with_stack (length m.memory ∷ st) m, s)
flow_step f Op.gas st m s = (with_stack (pos_part m.gas ∷ st) m, s)
flow_step f Op.jumpdest st m s = (next m, s)
flow_step f _ st m s = (fault index_error, s)
