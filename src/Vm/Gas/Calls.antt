-- ===== src/Vm/Gas/Calls.antt =====
-- Gas in ethereum/vm.py: creations and calls, where the handlers of nested messages are frugal.
mod Creations
use shopper.Prelude.{
  ℕ, suc, ◌+◌, ◌≤◌, ◌<◌, ◌≡◌, refl, Bool, true, false, ◌&&◌, ltb, leb, leb_ℤ, if◌then◌else◌, List,
  [], ◌∷◌, ℤ, pos, negsuc, pos_part, neg_part, min_ℤ, ◌-ℤ◌, ◌+ℤ◌, ltb_ℤ, Option, none, some, arith,
  -ℤ_parts, +ℤ_parts, Bool-cases, inl, inr, ap, ◌||◌,
}
use shopper.Exceptions.{Result, ok, raised, assertion_error}
use shopper.State.{State, is_anti_dos}
use shopper.State.Ops.{get_balance}
use shopper.Opcodes.{Op, gstipend, call_child_limit_denom}
use shopper.Vm.{Message, Machine, fault, Reply, Frame, Handler, vm_exception}
use shopper.Vm.Memory.{mem_extend, all_but_1n, addr_of}
use shopper.Vm.Calls.{
  max_depth, CallArgs, create_paid, create_step, created, create_message, call_args,
  new_account_gas, extra_gas, child_gas, call_message, called, call_paid, call_extended, call_with,
  call_step, after_create, after_call, send,
}
use shopper.Vm.Gas.{
  IsReal, IsWithin, mem_extend-IsWithin, charged-IsWithin, if-IsWithin, IsWithin-mono,
}
pub use shopper.Vm.Gas.Calls.Creations.{IsSettled, IsFrugal, create_step-IsWithin}
use shopper.Vm.Gas.Calls.Creations.{
  all_but_1n-parts, created-IsWithin, after_create-IsWithin, create_gas, create_paid-IsWithin,
}

-- What a call hands on: the gas it was given, one level down.
abbrev IsCarried : ℤ → ℕ → Option Message → Type 0
IsCarried gas depth none = Unit
IsCarried gas depth (some msg) = (msg.gas ≡ gas) × (msg.depth ≡ depth + 1)

call_message-IsCarried :
    (f : Frame) (op : Op) (a : CallArgs) (gas : ℤ) (mem : List ℕ) (s : State)
    → IsCarried gas f.msg.depth (call_message f op a gas mem s)
unfolding call_message
call_message-IsCarried f op a gas mem s = ground arith

-- The child's gas is not negative, and the parent can pay it with the rest of the price.
abbrev IsPayable : ℕ → ℤ → Option ℤ → Type 0
IsPayable extra gas none = Unit
IsPayable extra gas (some child) =
    (neg_part child ≡ 0) × (neg_part gas ≡ 0) × (pos_part child + extra ≤ pos_part gas)

all_but_1n-min :
    (requested : ℕ) (x : ℤ)
    → neg_part x ≡ 0
    → (neg_part (min_ℤ (pos requested) (all_but_1n x 64)) ≡ 0)
      × (pos_part (min_ℤ (pos requested) (all_but_1n x 64)) ≤ pos_part x)
unfolding all_but_1n ◌-ℤ◌
all_but_1n-min requested (pos n) h = (ground arith, ground arith)
all_but_1n-min requested (negsuc n) h = ground arith

child_gas-IsPayable :
    (b : Bool) (requested extra : ℕ) (gas : ℤ)
    → IsPayable extra gas (child_gas b requested extra gas)
unfolding child_gas
child_gas-IsPayable true requested extra gas =
    let left = gas -ℤ pos extra in
    elim (Bool-cases (ltb_ℤ gas (pos extra))) [
      | inl e ↦ rw e tt
      | inr e ↦ rw e (
          let least = all_but_1n-min requested left (ground (arith, -ℤ_parts gas (pos extra))) in
          (least.0, ground arith, ground (arith, least.1, -ℤ_parts gas (pos extra))))
    ]
child_gas-IsPayable false requested extra gas = ground arith

abbrev stipend_of : ℕ → ℕ
stipend_of value = if ltb 0 value then gstipend else 0

extra_gas-stipend : (new value : ℕ) (b : Bool) → stipend_of value ≤ extra_gas new value b
unfolding extra_gas
extra_gas-stipend new value b = ground arith

after_call-IsWithin :
    (g room : ℕ) (r : Result Reply × State) (a : CallArgs) (st : List ℕ) (m : Machine)
    → IsSettled room r.0
    → neg_part m.gas ≡ 0
    → pos_part m.gas + room ≤ g
    → IsWithin g (after_call r a st m).0
unfolding called
after_call-IsWithin g room (ok r, s) a st m h n le = ground (arith, +ℤ_parts m.gas r.gas)
after_call-IsWithin g room (raised e, s) a st m h n le = h

send-IsWithin :
    (depth g own : ℕ) (h : Handler) (gas : ℤ) (below : ℕ) (msg : Option Message) (a : CallArgs)
    (st : List ℕ) (m : Machine) (s : State)
    → IsFrugal depth own h
    → IsCarried gas below msg
    → below + 1 ≤ max_depth
    → max_depth < below + suc depth
    → pos_part gas ≤ own
    → neg_part m.gas ≡ 0
    → pos_part m.gas + pos_part gas ≤ g
    → IsWithin g (send h msg a st m s).0
send-IsWithin depth g own h gas below none a st m s frugal carried lo hi fits n le = omega arith
send-IsWithin depth g own h gas below (some msg) a st m s frugal carried lo hi fits n le =
    let same = carried.0 in
    let deeper = carried.1 in
    let room = ap pos_part same in
    after_call-IsWithin g (pos_part msg.gas) (h msg s) a st m
      (frugal msg s (omega arith) (omega arith) (omega arith)) n (omega arith)

call_paid-IsWithin :
    (depth g : ℕ) (f : Frame) (h : Handler) (op : Op) (a : CallArgs) (extra : ℕ) (gas : Option ℤ)
    (st : List ℕ) (m : Machine) (s : State)
    → IsFrugal depth g h
    → max_depth < f.msg.depth + suc depth
    → pos_part m.gas ≤ g
    → IsPayable extra m.gas gas
    → stipend_of a.value ≤ extra
    → IsWithin (pos_part m.gas) (call_paid f h op a extra gas st m s).0
unfolding call_paid
call_paid-IsWithin depth g f h op a extra none st m s frugal deep le pay stipend = omega arith
call_paid-IsWithin depth g f h op a extra (some gas) st m s frugal deep le pay stipend =
    let submsg_gas = gas +ℤ pos (stipend_of a.value) in
    let read = get_balance f.msg.to s in
    let left = m.gas -ℤ (gas +ℤ pos extra) in
    let whole = pay.0 in
    let sound = pay.1 in
    let room = pay.2 in
    let given = +ℤ_parts gas (pos (stipend_of a.value)) in
    let price = +ℤ_parts gas (pos extra) in
    let rest = -ℤ_parts m.gas (gas +ℤ pos extra) in
    let back = +ℤ_parts left submsg_gas in
    let given_whole : neg_part submsg_gas ≡ 0 = ground arith in
    let price_whole : neg_part (gas +ℤ pos extra) ≡ 0 = ground arith in
    let left_whole : neg_part left ≡ 0 = ground arith in
    elim (Bool-cases (ltb_ℤ read.0 (pos a.value) || leb max_depth f.msg.depth)) [
      | inl e ↦ rw e (ground arith)
      | inr e ↦ rw e (
          if-IsWithin _ (ltb_ℤ left (pos 0)) (fault assertion_error, read.1) _ refl
            (send-IsWithin depth _ g h submsg_gas f.msg.depth
              (call_message f op a submsg_gas m.memory read.1) a st (record m { gas = left }) read.1
              frugal (call_message-IsCarried f op a submsg_gas m.memory read.1) (ground arith) deep
              (ground arith) left_whole (ground arith)))
    ]

call_extended-IsWithin :
    (depth g : ℕ) (f : Frame) (h : Handler) (op : Op) (a : CallArgs) (st : List ℕ) (m : Machine)
    (s : State)
    → IsFrugal depth g h
    → max_depth < f.msg.depth + suc depth
    → pos_part m.gas ≤ g
    → IsWithin (pos_part m.gas) (call_extended f h op a st m s).0
unfolding call_extended
call_extended-IsWithin depth g f h op a st m s frugal deep le =
    let made = new_account_gas op (addr_of a.to) a.value s in
    let extra = extra_gas made.0 a.value (is_anti_dos made.1) in
    call_paid-IsWithin depth g f h op a extra _ st m made.1 frugal deep le
      (child_gas-IsPayable (is_anti_dos made.1) a.gas extra m.gas)
      (extra_gas-stipend made.0 a.value (is_anti_dos made.1))

call_with-IsWithin :
    (depth g : ℕ) (f : Frame) (h : Handler) (op : Op) (args : Option (CallArgs × List ℕ))
    (m : Machine) (s : State)
    → IsFrugal depth g h
    → max_depth < f.msg.depth + suc depth
    → pos_part m.gas ≤ g
    → IsWithin (pos_part m.gas) (call_with f h op args m s).0
unfolding call_with
call_with-IsWithin depth g f h op none m s frugal deep le = refl
call_with-IsWithin depth g f h op (some (a, st)) m s frugal deep le =
    if-IsWithin (pos_part m.gas) _ (vm_exception, s) _ (omega arith)
      (charged-IsWithin (pos_part m.gas) (mem_extend a.meminstart a.meminsz m) s _
        (mem_extend-IsWithin a.meminstart a.meminsz m)
        λ m1 h1.
          charged-IsWithin (pos_part m.gas) (mem_extend a.memoutstart a.memoutsz m1) s _
            (omega (arith, mem_extend-IsWithin a.memoutstart a.memoutsz m1, h1))
            λ m2 h2.
              IsWithin-mono _ _ (call_extended f h op a st m2 s).0 h2
                (call_extended-IsWithin depth g f h op a st m2 s frugal deep (omega arith)))

pub call_step-IsWithin :
    (depth g : ℕ) (f : Frame) (h : Handler) (op : Op) (m : Machine) (s : State)
    → IsFrugal depth g h
    → max_depth < f.msg.depth + suc depth
    → pos_part m.gas ≤ g
    → IsWithin (pos_part m.gas) (call_step f h op m s).0
unfolding call_step
call_step-IsWithin depth g f h op m s frugal deep le =
    call_with-IsWithin depth g f h op (call_args op m.stack) m s frugal deep le
