-- ===== src/Vm/Calls.antt =====
-- The operations of ethereum/vm.py from 0xa0 on: logs, contract creation, message calls and the
-- ways to end. `ext.msg` and `ext.create` are handlers.
mod Endings
use shopper.Prelude.{
  ℕ, ◌+◌, ◌*◌, Bool, true, false, not, ◌&&◌, ◌||◌, ltb, leb, if◌then◌else◌, Option, none, some,
  List, [], ◌∷◌, length, take, drop, ℤ, pos, ◌+ℤ◌, ◌-ℤ◌, ltb_ℤ, leb_ℤ, min_ℤ,
}
use shopper.Exceptions.{Result, ok, raised, assertion_error, index_error}
use shopper.State.{Address, State, is_homestead, is_anti_dos, is_spurious_dragon, is_metropolis}
use shopper.State.Ops.{get_balance, set_balance, account_exists, add_suicide, add_log}
use shopper.Opcodes.{
  Op, glogbyte, gcallnewaccount, gcallvaluetransfer, gstipend, call_supplemental_gas,
  call_child_limit_denom, suicide_supplemental_gas,
}
use shopper.Vm.{Message, Machine, Reply, Outcome, halt, fault, vm_exception, Handler, Frame}
use shopper.Vm.Memory.{
  bytes_to_int, slice, write_at, mem_extend, eat_gas, all_but_1n, charged, with_stack, addr_of,
}
unfoldable pub use shopper.Vm.Calls.Endings.{log_step, return_step, suicide_charge, suicide_step}
pub use shopper.Vm.Calls.Endings.{suicided}

abbrev pub max_depth : ℕ
max_depth = 1024

-- What CREATE does with the reply: the gas that the child does not use comes back.
unfoldable pub created : Reply → ℤ → List ℕ → Machine → Outcome
created r ingas st m =
    let gas = (m.gas -ℤ ingas) +ℤ r.gas in
    if r.success
    then with_stack (bytes_to_int r.output ∷ st) (record m { gas = gas; last_returned = [] })
    else with_stack (0 ∷ st) (record m { gas = gas; last_returned = r.output })

abbrev pub after_create : Result Reply × State → ℤ → List ℕ → Machine → Outcome × State
after_create (ok r, s) ingas st m = (created r ingas st m, s)
after_create (raised e, s) ingas st m = (fault e, s)

unfoldable pub create_message : Frame → ℕ → ℕ → ℕ → ℤ → Machine → Message
create_message f value mstart msz gas m = record {
  sender = f.msg.to;
  to = 0;
  value = value;
  gas = gas;
  call_data = record { bytes = m.memory; offset = mstart; size = msz };
  depth = f.msg.depth + 1;
  code_address = none;
  is_create = false;
  transfers_value = true;
  static = false;
}

-- A creation whose memory is paid for.
unfoldable pub create_paid :
    Frame → Handler → ℕ → ℕ → ℕ → List ℕ → Machine → State → Outcome × State
create_paid f create value mstart msz st m s =
    let (balance, s1) = get_balance f.msg.to s in
    let ingas = if is_anti_dos s1 then all_but_1n m.gas call_child_limit_denom else m.gas in
    if f.msg.static
    then (vm_exception, s)
    else if leb_ℤ (pos value) balance && ltb f.msg.depth max_depth
    then after_create (create (create_message f value mstart msz ingas m) s1) ingas st m
    else (with_stack (0 ∷ st) (record m { last_returned = [] }), s1)

unfoldable pub create_step : Frame → Handler → List ℕ → Machine → State → Outcome × State
create_step f create (value ∷ mstart ∷ msz ∷ st) m s =
    charged (mem_extend mstart msz m) s λ m1. create_paid f create value mstart msz st m1 s
create_step f create _ m s = (fault index_error, s)

pub record CallArgs : Type 0 where
  pub gas : ℕ
  pub to : ℕ
  pub value : ℕ
  pub meminstart : ℕ
  pub meminsz : ℕ
  pub memoutstart : ℕ
  pub memoutsz : ℕ

abbrev args_of : ℕ → ℕ → ℕ → ℕ → ℕ → ℕ → ℕ → CallArgs
args_of g t v a b c d = record {
  gas = g;
  to = t;
  value = v;
  meminstart = a;
  meminsz = b;
  memoutstart = c;
  memoutsz = d;
}

-- The arguments on the stack, and the stack below them.
unfoldable pub call_args : Op → List ℕ → Option (CallArgs × List ℕ)
call_args Op.call (g ∷ t ∷ v ∷ a ∷ b ∷ c ∷ d ∷ st) = some (args_of g t v a b c d, st)
call_args Op.callcode (g ∷ t ∷ v ∷ a ∷ b ∷ c ∷ d ∷ st) = some (args_of g t v a b c d, st)
call_args Op.delegatecall (g ∷ t ∷ a ∷ b ∷ c ∷ d ∷ st) = some (args_of g t 0 a b c d, st)
call_args Op.staticcall (g ∷ t ∷ a ∷ b ∷ c ∷ d ∷ st) = some (args_of g t 0 a b c d, st)
call_args _ st = none

-- The price of the account that a CALL makes. Only CALL asks whether the account exists.
unfoldable pub new_account_gas : Op → Address → ℕ → State → ℕ × State
new_account_gas Op.call to value s =
    let (exists, s1) = account_exists to s in
    let is_new = not exists && (ltb 0 value || not (is_spurious_dragon s1)) in
    ((if is_new then gcallnewaccount else 0), s1)
new_account_gas _ to value s = (0, s)

unfoldable pub extra_gas : ℕ → ℕ → Bool → ℕ
extra_gas new_account value anti_dos =
    new_account
    + (if ltb 0 value then gcallvaluetransfer else 0)
    + (if anti_dos then call_supplemental_gas else 0)

-- The gas for the child; `none` where the parent cannot pay.
unfoldable pub child_gas : Bool → ℕ → ℕ → ℤ → Option ℤ
child_gas true requested extra gas =
    if ltb_ℤ gas (pos extra)
    then none
    else some (min_ℤ (pos requested) (all_but_1n (gas -ℤ pos extra) call_child_limit_denom))
child_gas false requested extra gas =
    if ltb_ℤ gas (pos (requested + extra)) then none else some (pos requested)

-- The message of a call; `none` where the operation is not active yet.
unfoldable pub call_message : Frame → Op → CallArgs → ℤ → List ℕ → State → Option Message
call_message f op a gas mem s =
    let to = addr_of a.to in
    let base : Message = record {
      sender = f.msg.to;
      to = to;
      value = a.value;
      gas = gas;
      call_data = record { bytes = mem; offset = a.meminstart; size = a.meminsz };
      depth = f.msg.depth + 1;
      code_address = some to;
      is_create = false;
      transfers_value = true;
      static = f.msg.static;
    } in
    elim op [
      | Op.call ↦ some base
      | Op.delegatecall ↦
          (if is_homestead s
            then some (record base {
              sender = f.msg.sender;
              to = f.msg.to;
              value = f.msg.value;
              transfers_value = false;
            })
            else none)
      | Op.staticcall ↦ (if is_metropolis s then some (record base { static = true }) else none)
      | Op.callcode ↦ some (record base { to = f.msg.to })
      | _ ↦ none
    ]

-- The end of a call: the result, the output in the memory, the gas that comes back.
unfoldable pub called : Reply → CallArgs → List ℕ → Machine → Outcome
called r a st m = with_stack ((if r.success then 1 else 0) ∷ st) (record m {
  memory = write_at a.memoutstart (take a.memoutsz r.output) m.memory;
  gas = m.gas +ℤ r.gas;
  last_returned = r.output;
})

abbrev pub after_call : Result Reply × State → CallArgs → List ℕ → Machine → Outcome × State
after_call (ok r, s) a st m = (called r a st m, s)
after_call (raised e, s) a st m = (fault e, s)

abbrev pub send : Handler → Option Message → CallArgs → List ℕ → Machine → State → Outcome × State
send handler none a st m s = (vm_exception, s)
send handler (some msg) a st m s = after_call (handler msg s) a st m

-- A call for which the gas of the child is known.
unfoldable pub call_paid :
    Frame → Handler → Op → CallArgs → ℕ → Option ℤ → List ℕ → Machine → State → Outcome × State
call_paid f handler op a extra none st m s = (vm_exception, s)
call_paid f handler op a extra (some gas) st m s =
    let submsg_gas = gas +ℤ pos (if ltb 0 a.value then gstipend else 0) in
    let (balance, s1) = get_balance f.msg.to s in
    let left = m.gas -ℤ (gas +ℤ pos extra) in
    if ltb_ℤ balance (pos a.value) || leb max_depth f.msg.depth
    then (with_stack (0 ∷ st) (record m { gas = left +ℤ submsg_gas; last_returned = [] }), s1)
    else if ltb_ℤ left (pos 0)
    then (fault assertion_error, s1)
    else send handler (call_message f op a submsg_gas m.memory s1) a st (record m { gas = left }) s1

-- A call whose memory is paid for.
unfoldable pub call_extended :
    Frame → Handler → Op → CallArgs → List ℕ → Machine → State → Outcome × State
call_extended f handler op a st m s =
    let (new_account, s1) = new_account_gas op (addr_of a.to) a.value s in
    let extra = extra_gas new_account a.value (is_anti_dos s1) in
    call_paid f handler op a extra (child_gas (is_anti_dos s1) a.gas extra m.gas) st m s1

unfoldable pub call_with :
    Frame → Handler → Op → Option (CallArgs × List ℕ) → Machine → State → Outcome × State
call_with f handler op none m s = (fault index_error, s)
call_with f handler op (some (a, st)) m s =
    let is_call : Bool = elim op [ Op.call ↦ true | _ ↦ false ] in
    if f.msg.static && ltb 0 a.value && is_call
    then (vm_exception, s)
    else charged (mem_extend a.meminstart a.meminsz m) s λ m1.
      charged (mem_extend a.memoutstart a.memoutsz m1) s λ m2. call_extended f handler op a st m2 s

unfoldable pub call_step : Frame → Handler → Op → Machine → State → Outcome × State
call_step f handler op m s = call_with f handler op (call_args op m.stack) m s
