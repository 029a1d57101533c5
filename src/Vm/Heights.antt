-- ===== src/Vm/Heights.antt =====
-- The stack of ethereum/vm.py keeps within 1024 items.
pub mod Reached
use shopper.Prelude.{
  ℕ, suc, get_or, drop, take, ◌+◌, ◌-◌, ◌≤◌, ◌<◌, ◌≡◌, refl, Bool, true, false, ltb, if◌then◌else◌,
  List, [], ◌∷◌, length, length-drop, ℤ, pos, ◌-ℤ◌, ◌+ℤ◌, ltb_ℤ, Option, none, some, arith, ◌==◌,
  Bool-cases, inl, inr,
}
use shopper.Exceptions.{Result, ok, raised}
use shopper.State.{Address, State, is_metropolis, is_anti_dos}
use shopper.State.Ops.{get_balance}
use shopper.Opcodes.{Op, in_args, out_args, fee, decode, call_child_limit_denom, gstipend}
use shopper.Vm.{
  Machine, Outcome, next, halt, fault, Reply, Frame, Externals, Handlers, Handler, Message,
  vm_exception,
}
use shopper.Vm.Memory.{all_but_1n, charged, mem_extend, data_copy, addr_of}
use shopper.Vm.Alu.{alu_step, stack_op, stack_result, exp_step, exp_on}
use shopper.Vm.Alu.Height.{stack_op-height}
use shopper.Vm.Env.{env_step, copy_to, copy_returned, sha3_step, pushed, block_hash}
use shopper.Vm.Flow.{flow_step, sstore_step, jump_to, push_step, push_value}
use shopper.Vm.Calls.{
  CallArgs, log_step, create_step, create_paid, created, after_create, call_args, call_step,
  call_with, call_extended, call_paid, called, after_call, send, return_step, suicide_step,
  suicided, create_message, call_message,
}

-- Where the execution goes on, the stack has at most `n` items.
abbrev pub IsLow : ℕ → Outcome → Type 0
IsLow n (next m) = length m.stack ≤ n
IsLow n (halt r) = Unit
IsLow n (fault e) = Unit

charged-IsLow :
    (n : ℕ) (p : Bool × Machine) (s : State) (k : Machine → Outcome × State)
    → ((m : Machine) → IsLow n (k m).0)
    → IsLow n (charged p s k).0
charged-IsLow n (true, m) s k h = h m
charged-IsLow n (false, m) s k h = tt

copy_to-IsLow :
    (mstart size : ℕ) (bytes st : List ℕ) (m : Machine) (s : State)
    → IsLow (length st) (copy_to mstart size bytes st m s).0
unfolding copy_to
copy_to-IsLow mstart size bytes st m s =
    charged-IsLow (length st) (mem_extend mstart size m) s _
      λ m1. charged-IsLow (length st) (data_copy size m1) s _ λ m2. omega arith

copy_returned-IsLow :
    (mstart dstart size : ℕ) (st : List ℕ) (m : Machine) (s : State)
    → IsLow (length st) (copy_returned mstart dstart size st m s).0
unfolding copy_returned
copy_returned-IsLow mstart dstart size st m s =
    charged-IsLow (length st) (mem_extend mstart size m) s _
      λ m1. charged-IsLow (length st) (data_copy size m1) s _ λ m2. ground arith

sha3_step-IsLow :
    (sha3 : List ℕ → ℕ) (a b : ℕ) (st : List ℕ) (m : Machine) (s : State)
    → IsLow (suc (length st)) (sha3_step sha3 a b st m s).0
unfolding sha3_step
sha3_step-IsLow sha3 a b st m s = ground arith

pub env_step-IsLow :
    (x : Externals) (f : Frame) (op : Op) (st : List ℕ) (m : Machine) (s : State)
    → IsLow (length st - in_args op + out_args op) (env_step x f op st m s).0
unfolding env_step in_args out_args copy_to copy_returned sha3_step
env_step-IsLow x f op st m s = ground arith

pub flow_step-IsLow :
    (f : Frame) (op : Op) (st : List ℕ) (m : Machine) (s : State)
    → length m.stack ≡ length st
    → IsLow (length st - in_args op + out_args op) (flow_step f op st m s).0
unfolding flow_step in_args out_args sstore_step jump_to
flow_step-IsLow f op st m s same = ground arith

pub alu_step-IsLow :
    (op : Op) (m : Machine)
    → in_args op ≤ length m.stack
    → IsLow (length m.stack - in_args op + out_args op) (alu_step op m)
unfolding alu_step
alu_step-IsLow op m enough = go (stack_op op m.stack) (stack_op-height op m.stack)
  where
    go :
        (r : Option (List ℕ))
        → ((st : List ℕ) → r ≡ some st → length st + in_args op ≡ length m.stack + out_args op)
        → IsLow (length m.stack - in_args op + out_args op) (stack_result r m)
    go none h = tt
    go (some st) h = omega (arith, h st refl)

pub exp_on-IsLow :
    (big : ℕ → List ℕ) (b : Bool) (st : List ℕ) (m : Machine)
    → IsLow (length st - 1) (exp_on big b st m)
unfolding exp_on
exp_on-IsLow big b st m = ground arith

pub push_value-IsLow :
    (v : Option ℕ) (n : ℕ) (m : Machine) → IsLow (length m.stack + 1) (push_value v n m)
push_value-IsLow none n m = tt
push_value-IsLow (some v) n m = omega arith

pub log_step-IsLow :
    (f : Frame) (depth : ℕ) (st : List ℕ) (m : Machine) (s : State)
    → IsLow (length st - (depth + 2)) (log_step f depth st m s).0
unfolding log_step
log_step-IsLow f depth [] m s = tt
log_step-IsLow f depth (a ∷ []) m s = tt
log_step-IsLow f depth (a ∷ b ∷ st) m s = ground (arith, length-drop depth st)

after_create-IsLow :
    (r : Result Reply × State) (ingas : ℤ) (st : List ℕ) (m : Machine)
    → IsLow (length st + 1) (after_create r ingas st m).0
unfolding created
after_create-IsLow (ok r, s) ingas st m = ground arith
after_create-IsLow (raised e, s) ingas st m = tt

pub IsLow-mono : (a b : ℕ) (o : Outcome) → a ≤ b → IsLow a o → IsLow b o
IsLow-mono a b o le h = ground arith

create_paid-IsLow :
    (f : Frame) (h : Handler) (value mstart msz : ℕ) (st : List ℕ) (m : Machine) (s : State)
    → IsLow (length st + 1) (create_paid f h value mstart msz st m s).0
unfolding create_paid
create_paid-IsLow f h value mstart msz st m s =
    let s1 = (get_balance f.msg.to s).1 in
    let ingas = if is_anti_dos s1 then all_but_1n m.gas call_child_limit_denom else m.gas in
    let msg = create_message f value mstart msz ingas m in
    ground (arith, after_create-IsLow (h msg s1) ingas st m)

pub create_step-IsLow :
    (f : Frame) (h : Handler) (st : List ℕ) (m : Machine) (s : State)
    → IsLow (length st - 3 + 1) (create_step f h st m s).0
unfolding create_step
create_step-IsLow f h [] m s = tt
create_step-IsLow f h (a ∷ []) m s = tt
create_step-IsLow f h (a ∷ b ∷ []) m s = tt
create_step-IsLow f h (a ∷ b ∷ c ∷ st) m s =
    charged-IsLow (length (a ∷ b ∷ c ∷ st) - 3 + 1) (mem_extend b c m) s _ λ m1.
      IsLow-mono _ _ (create_paid f h a b c st m1 s).0 (omega arith)
        (create_paid-IsLow f h a b c st m1 s)

after_call-IsLow :
    (r : Result Reply × State) (a : CallArgs) (st : List ℕ) (m : Machine)
    → IsLow (length st + 1) (after_call r a st m).0
unfolding called
after_call-IsLow (ok r, s) a st m = omega arith
after_call-IsLow (raised e, s) a st m = tt

send-IsLow :
    (h : Handler) (msg : Option Message) (a : CallArgs) (st : List ℕ) (m : Machine) (s : State)
    → IsLow (length st + 1) (send h msg a st m s).0
send-IsLow h none a st m s = tt
send-IsLow h (some msg) a st m s = after_call-IsLow (h msg s) a st m

call_paid-IsLow :
    (f : Frame) (h : Handler) (op : Op) (a : CallArgs) (extra : ℕ) (gas : Option ℤ) (st : List ℕ)
    (m : Machine) (s : State)
    → IsLow (length st + 1) (call_paid f h op a extra gas st m s).0
unfolding call_paid
call_paid-IsLow f h op a extra none st m s = tt
call_paid-IsLow f h op a extra (some gas) st m s =
    let s1 = (get_balance f.msg.to s).1 in
    let submsg_gas = gas +ℤ pos (if ltb 0 a.value then gstipend else 0) in
    let left = m.gas -ℤ (gas +ℤ pos extra) in
    let msg = call_message f op a submsg_gas m.memory s1 in
    ground (arith, send-IsLow h msg a st (record m { gas = left }) s1)

-- What is left on the stack below the arguments of a call.
abbrev pub IsBelowArgs : Op → List ℕ → Option (CallArgs × List ℕ) → Type 0
IsBelowArgs op st none = Unit
IsBelowArgs op st (some (a, rest)) = length rest + in_args op ≡ length st

pub call_args-IsBelowArgs : (op : Op) (st : List ℕ) → IsBelowArgs op st (call_args op st)
unfolding call_args in_args
call_args-IsBelowArgs op st = ground arith

pub call_with-IsLow :
    (f : Frame) (h : Handler) (op : Op) (args : Option (CallArgs × List ℕ)) (st : List ℕ)
    (m : Machine) (s : State)
    → IsBelowArgs op st args
    → IsLow (length st - in_args op + 1) (call_with f h op args m s).0
unfolding call_with call_extended
call_with-IsLow f h op none st m s below = tt
call_with-IsLow f h op (some (a, rest)) st m s below =
    if-IsLow (length st - in_args op + 1) _ (vm_exception, s) _ tt
      (charged-IsLow (length st - in_args op + 1) (mem_extend a.meminstart a.meminsz m) s _ λ m1.
        charged-IsLow (length st - in_args op + 1) (mem_extend a.memoutstart a.memoutsz m1) s _
          λ m2.
            IsLow-mono _ _ (call_extended f h op a rest m2 s).0 (omega arith)
              (call_paid-IsLow f h op a _ _ rest m2 _))
  where
    if-IsLow :
        (n : ℕ) (b : Bool) (p q : Outcome × State)
        → IsLow n p.0
        → IsLow n q.0
        → IsLow n (if b then p else q).0
    if-IsLow n true p q hp hq = hp
    if-IsLow n false p q hp hq = hq
