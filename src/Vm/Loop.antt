-- ===== src/Vm/Loop.antt =====
-- The loop of `vm_execute` in ethereum/vm.py: the checks before an operation, the choice of the
-- operation, and its repetition.
use shopper.Prelude.{
  ℕ, zero, suc, ◌+◌, ◌-◌, true, false, not, ◌&&◌, ltb, leb, if◌then◌else◌, Option, none, some, List,
  [], length, get_or, pos, ◌-ℤ◌, ltb_ℤ,
}
use shopper.Exceptions.{Result, ok, raised, out_of_fuel}
use shopper.State.{State, is_metropolis, is_spurious_dragon}
use shopper.Opcodes.{Op, decode, is_metropolis_op, in_args, out_args, fee}
use shopper.Vm.{
  Message, Machine, Reply, Outcome, next, halt, fault, vm_exception, Frame, Context, Externals,
  Handlers,
}
use shopper.Vm.Alu.{alu_step, exp_step}
use shopper.Vm.Env.{env_step}
use shopper.Vm.Flow.{push_step, flow_step}
use shopper.Vm.Calls.{log_step, create_step, call_step, return_step, suicide_step}

-- The branches of the loop.
pub data Group : Type 0 where
  pushes stops alu exponent environment flow logs creates calls returns reverts suicides nothing :
      Group

unfoldable pub group : Op → Group
group (Op.push n) = pushes
group Op.stop = stops
group Op.exp = exponent
group Op.sha3 = environment
group Op.address = environment
group Op.balance = environment
group Op.origin = environment
group Op.caller = environment
group Op.callvalue = environment
group Op.calldataload = environment
group Op.calldatasize = environment
group Op.calldatacopy = environment
group Op.codesize = environment
group Op.codecopy = environment
group Op.gasprice = environment
group Op.extcodesize = environment
group Op.extcodecopy = environment
group Op.returndatasize = environment
group Op.returndatacopy = environment
group Op.blockhash = environment
group Op.coinbase = environment
group Op.timestamp = environment
group Op.number = environment
group Op.difficulty = environment
group Op.gaslimit = environment
group Op.mload = flow
group Op.mstore = flow
group Op.mstore8 = flow
group Op.sload = flow
group Op.sstore = flow
group Op.jump = flow
group Op.jumpi = flow
group Op.pc = flow
group Op.msize = flow
group Op.gas = flow
group Op.jumpdest = flow
group (Op.log n) = logs
group Op.create = creates
group Op.call = calls
group Op.callcode = calls
group Op.delegatecall = calls
group Op.staticcall = calls
group Op.return = returns
group Op.revert = reverts
group Op.suicide = suicides
group Op.callblackbox = nothing
group _ = alu

abbrev pub number_of : Op → ℕ
number_of (Op.push n) = n
number_of (Op.log n) = n
number_of _ = 0

-- One operation, once its checks have passed. CALLBLACKBOX has no branch of its own.
unfoldable pub apply_op :
    Externals → Handlers → Frame → Op → Group → Machine → State → Outcome × State
apply_op x h f op pushes m s = (push_step f (number_of op) m, s)
apply_op x h f op stops m s = (halt (record { success = true; gas = m.gas; output = [] }), s)
apply_op x h f op alu m s = (alu_step op m, s)
apply_op x h f op exponent m s = (exp_step x.int_to_big_endian (is_spurious_dragon s) m, s)
apply_op x h f op environment m s = env_step x f op m.stack m s
apply_op x h f op flow m s = flow_step f op m.stack m s
apply_op x h f op logs m s = log_step f (number_of op) m.stack m s
apply_op x h f op creates m s = create_step f h.create m.stack m s
apply_op x h f op calls m s = call_step f h.msg op m s
apply_op x h f op returns m s = return_step true m.stack m s
apply_op x h f op reverts m s =
    if is_metropolis s then return_step false m.stack m s else (vm_exception, s)
apply_op x h f op suicides m s = suicide_step f m.stack m s
apply_op x h f op nothing m s = (next m, s)

-- The checks: the fork, the gas, the items taken, the height left. The fee is taken and the
-- program counter moved before the last three.
unfoldable pub checked_step :
    Externals → Handlers → Frame → Option Op → Machine → State → Outcome × State
checked_step x h f none m s = (vm_exception, s)
checked_step x h f (some op) m s =
    let m1 = record m { gas = m.gas -ℤ pos (fee op); pc = m.pc + 1 } in
    if is_metropolis_op op && not (is_metropolis s)
    then (vm_exception, s)
    else if ltb_ℤ m1.gas (pos 0)
    then (vm_exception, s)
    else if ltb (length m.stack) (in_args op)
    then (vm_exception, s)
    else if ltb 1024 (length m.stack - in_args op + out_args op)
    then (vm_exception, s)
    else apply_op x h f op (group op) m1 s

-- One round of the loop.
unfoldable pub vm_step : Externals → Handlers → Frame → Machine → State → Outcome × State
vm_step x h f m s =
    if leb (length f.code) m.pc
    then (halt (record { success = true; gas = m.gas; output = [] }), s)
    else checked_step x h f (decode (get_or f.code m.pc 0)) m s

-- What follows a round.
unfoldable pub continue :
    (Machine → State → Result Reply × State) → Outcome × State → Result Reply × State
continue k (next m, s) = k m s
continue k (halt r, s) = (ok r, s)
continue k (fault e, s) = (raised e, s)

unfoldable pub run : ℕ → Externals → Handlers → Frame → Machine → State → Result Reply × State
run zero x h f m s = (raised out_of_fuel, s)
run (suc fuel) x h f m s = continue (λ m1 s1. run fuel x h f m1 s1) (vm_step x h f m s)

-- `vm_execute`, with the rounds bounded by `fuel`.
unfoldable pub vm_execute :
    ℕ → Externals → Handlers → Context → Message → List ℕ → State → Result Reply × State
vm_execute fuel x h context msg code s =
    let start : Machine = record {
      memory = [];
      stack = [];
      pc = 0;
      gas = msg.gas;
      last_returned = [];
    } in
    run fuel x h (record { context = context; msg = msg; code = code }) start s
