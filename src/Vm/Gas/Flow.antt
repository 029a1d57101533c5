-- ===== src/Vm/Gas/Flow.antt =====
-- Gas in ethereum/vm.py: memory, storage, jumps, pushes, logs, arithmetic, and the ways to end.
use shopper.Prelude.{
  ℕ, get_or, drop, ◌+◌, ◌*◌, ◌≤◌, ◌<◌, refl, Bool, true, false, if◌then◌else◌, List, [], ◌∷◌,
  length, ℤ, pos, pos_part, ◌-ℤ◌, Option, none, some, arith, -ℤ_parts,
}
use shopper.State.{Address, State, is_anti_dos}
use shopper.State.Ops.{get_balance, get_storage_data}
use shopper.Opcodes.{Op, sload_supplemental_gas, glogbyte, gexponentbyte, exp_supplemental_gas}
use shopper.Vm.{Machine, Outcome, next, halt, fault, Frame}
use shopper.Vm.Memory.{addr_of}
use shopper.Vm.Alu.{alu_step, stack_result, exp_step, exp_on}
use shopper.Vm.Flow.{flow_step, sstore_step, sstore_gas, jump_to, push_step, push_value}
use shopper.Vm.Calls.{log_step, return_step, suicide_step, suicide_charge, suicided}
use shopper.Vm.Gas.{
  IsWithin, pos_part-minus, mem_extend-IsWithin, eat_gas-IsWithin, surcharge-IsWithin,
}

-- As `IsWithin`, and where the execution goes on there is less gas.
abbrev pub IsBelow : ℕ → Outcome → Type 0
IsBelow g (next m) = pos_part m.gas < g
IsBelow g (halt r) = pos_part r.gas ≤ g
IsBelow g (fault e) = IsWithin g (fault e)

sstore_gas-pos : (stored value : ℕ) → 5000 ≤ (sstore_gas stored value).0
unfolding sstore_gas
sstore_gas-pos stored value = ground arith

pub sstore_step-IsBelow :
    (f : Frame) (k v : ℕ) (st : List ℕ) (m : Machine) (s : State)
    → IsBelow (pos_part m.gas) (sstore_step f k v st m s).0
unfolding sstore_step
sstore_step-IsBelow f k v st m s =
    let cost = (sstore_gas (get_storage_data f.msg.to k s).0 v).0 in
    ground (arith, sstore_gas-pos (get_storage_data f.msg.to k s).0 v, -ℤ_parts m.gas (pos cost))

pub IsWithin-below : (g : ℕ) (o : Outcome) → IsBelow g o → IsWithin g o
IsWithin-below g (next m) h = omega (arith, h)
IsWithin-below g (halt r) h = h
IsWithin-below g (fault e) h = h

pub flow_step-IsWithin :
    (f : Frame) (op : Op) (st : List ℕ) (m : Machine) (s : State)
    → IsWithin (pos_part m.gas) (flow_step f op st m s).0
unfolding flow_step jump_to
flow_step-IsWithin f op st m s =
    let a = get_or st 0 0 in
    let stored =
      IsWithin-below (pos_part m.gas) (sstore_step f a (get_or st 1 0) (drop 2 st) m s).0
        (sstore_step-IsBelow f a (get_or st 1 0) (drop 2 st) m s) in
    ground (
      arith,
      mem_extend-IsWithin a 32 m,
      mem_extend-IsWithin a 1 m,
      surcharge-IsWithin sload_supplemental_gas m s,
      stored,
    )

push_value-IsWithin :
    (v : Option ℕ) (n : ℕ) (m : Machine) → IsWithin (pos_part m.gas) (push_value v n m)
push_value-IsWithin none n m = refl
push_value-IsWithin (some v) n m = omega arith

pub push_step-IsWithin :
    (f : Frame) (n : ℕ) (m : Machine) → IsWithin (pos_part m.gas) (push_step f n m)
unfolding push_step
push_step-IsWithin f n m = push_value-IsWithin _ n m

stack_result-IsWithin :
    (r : Option (List ℕ)) (m : Machine) → IsWithin (pos_part m.gas) (stack_result r m)
stack_result-IsWithin none m = refl
stack_result-IsWithin (some st) m = omega arith

pub alu_step-IsWithin : (op : Op) (m : Machine) → IsWithin (pos_part m.gas) (alu_step op m)
unfolding alu_step
alu_step-IsWithin op m = stack_result-IsWithin _ m

exp_on-IsWithin :
    (big : ℕ → List ℕ) (b : Bool) (st : List ℕ) (m : Machine)
    → IsWithin (pos_part m.gas) (exp_on big b st m)
unfolding exp_on
exp_on-IsWithin big b [] m = refl
exp_on-IsWithin big b (base ∷ []) m = refl
exp_on-IsWithin big b (base ∷ exponent ∷ st) m =
    let nbytes = length (big exponent) in
    let expfee = nbytes * gexponentbyte + (if b then exp_supplemental_gas * nbytes else 0) in
    ground (arith, pos_part-minus m.gas expfee)

pub exp_step-IsWithin :
    (big : ℕ → List ℕ) (b : Bool) (m : Machine) → IsWithin (pos_part m.gas) (exp_step big b m)
unfolding exp_step
exp_step-IsWithin big b m = exp_on-IsWithin big b m.stack m

pub log_step-IsWithin :
    (f : Frame) (depth : ℕ) (st : List ℕ) (m : Machine) (s : State)
    → IsWithin (pos_part m.gas) (log_step f depth st m s).0
unfolding log_step
log_step-IsWithin f depth [] m s = refl
log_step-IsWithin f depth (a ∷ []) m s = refl
log_step-IsWithin f depth (mstart ∷ msz ∷ st) m s =
    let m0 = record m { gas = m.gas -ℤ pos (msz * glogbyte) } in
    ground (arith, mem_extend-IsWithin mstart msz m0, pos_part-minus m.gas (msz * glogbyte))

pub return_step-IsBelow :
    (b : Bool) (st : List ℕ) (m : Machine) (s : State)
    → IsBelow (pos_part m.gas) (return_step b st m s).0
unfolding return_step
return_step-IsBelow b st m s = ground (arith, mem_extend-IsWithin (get_or st 0 0) (get_or st 1 0) m)

if-gas :
    (g : ℕ) (b : Bool) (p q : Bool × Machine × State)
    → pos_part p.1.gas ≤ g
    → pos_part q.1.gas ≤ g
    → pos_part (if b then p else q).1.gas ≤ g
if-gas g true p q hp hq = hp
if-gas g false p q hp hq = hq

suicide_charge-IsWithin :
    (to : Address) (xfer : ℤ) (m : Machine) (s : State)
    → pos_part (suicide_charge to xfer m s).1.gas ≤ pos_part m.gas
unfolding suicide_charge
suicide_charge-IsWithin to xfer m s =
    if-gas (pos_part m.gas) (is_anti_dos s) _ _ (eat_gas-IsWithin _ m) (omega arith)

suicided-IsBelow :
    (g : ℕ) (f : Frame) (to : Address) (xfer : ℤ) (r : Bool × Machine × State)
    → pos_part r.1.gas ≤ g
    → IsBelow g (suicided f to xfer r).0
suicided-IsBelow g f to xfer (false, m, s) h = omega arith
suicided-IsBelow g f to xfer (true, m, s) h = h

pub suicide_step-IsBelow :
    (f : Frame) (st : List ℕ) (m : Machine) (s : State)
    → IsBelow (pos_part m.gas) (suicide_step f st m s).0
unfolding suicide_step
suicide_step-IsBelow f [] m s = refl
suicide_step-IsBelow f (a ∷ st) m s =
    let read = get_balance f.msg.to s in
    let charge = suicide_charge (addr_of a) read.0 m read.1 in
    ground (
      arith,
      suicided-IsBelow (pos_part m.gas) f (addr_of a) read.0 charge
          (suicide_charge-IsWithin (addr_of a) read.0 m read.1),
    )
