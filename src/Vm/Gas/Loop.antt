-- ===== src/Vm/Gas/Loop.antt =====
-- The loop of `vm_execute` in ethereum/vm.py ends within its gas.
use shopper.Prelude.{
  ℕ, zero, suc, get_or, ◌+◌, ◌≤◌, ◌<◌, ◌≡◌, refl, Bool, true, false, if◌then◌else◌, List, [], pos,
  pos_part, ◌-ℤ◌, ltb_ℤ, Option, none, some, arith, -ℤ_parts, Bool-cases, inl, inr, ◌⊎◌, ◌∷◌, subst,
  sym,
}
use shopper.Exceptions.{Result, ok, raised}
use shopper.State.{State, is_metropolis}
use shopper.Opcodes.{Op, decode, fee}
use shopper.Vm.{
  Message, Machine, Outcome, next, halt, fault, Reply, Frame, Context, Externals, Handlers,
  vm_exception,
}
use shopper.Vm.Flow.{flow_step}
use shopper.Vm.Calls.{max_depth, return_step, suicide_step}
use shopper.Vm.Loop.{
  Group, number_of, group, apply_op, checked_step, vm_step, run, continue, vm_execute,
}
use shopper.Vm.Loop.Group.{
  pushes, stops, alu, exponent, environment, flow, logs, creates, calls, returns, reverts, suicides,
  nothing,
}
use shopper.Vm.Gas.{IsWithin, if-IsWithin, env_step-IsWithin}
use shopper.Vm.Gas.Flow.{
  IsBelow, flow_step-IsWithin, sstore_step-IsBelow, push_step-IsWithin, alu_step-IsWithin,
  exp_step-IsWithin, log_step-IsWithin, return_step-IsBelow, suicide_step-IsBelow, IsWithin-below,
}
use shopper.Vm.Gas.Calls.{IsSettled, IsFrugal, create_step-IsWithin, call_step-IsWithin}

-- Both handlers are frugal, and the frame is within the depth that they go down to.
pub record CanNest (depth g : ℕ) (h : Handlers) (f : Frame) : Type 0 where
  pub msg : IsFrugal depth g h.msg
  pub create : IsFrugal depth g h.create
  pub deep : max_depth < f.msg.depth + suc depth

apply_op-IsWithin :
    (depth g : ℕ) (x : Externals) (h : Handlers) (f : Frame) (op : Op) (k : Group) (m : Machine)
    (s : State)
    → CanNest depth g h f
    → pos_part m.gas ≤ g
    → IsWithin (pos_part m.gas) (apply_op x h f op k m s).0
unfolding apply_op
apply_op-IsWithin depth g x h f op pushes m s can le = push_step-IsWithin f (number_of op) m
apply_op-IsWithin depth g x h f op stops m s can le = omega arith
apply_op-IsWithin depth g x h f op alu m s can le = alu_step-IsWithin op m
apply_op-IsWithin depth g x h f op exponent m s can le = exp_step-IsWithin x.int_to_big_endian _ m
apply_op-IsWithin depth g x h f op environment m s can le = env_step-IsWithin x f op m.stack m s
apply_op-IsWithin depth g x h f op flow m s can le = flow_step-IsWithin f op m.stack m s
apply_op-IsWithin depth g x h f op logs m s can le = log_step-IsWithin f (number_of op) m.stack m s
apply_op-IsWithin depth g x h f op creates m s can le =
    create_step-IsWithin depth g f h.create m.stack m s can.create can.deep le
apply_op-IsWithin depth g x h f op calls m s can le =
    call_step-IsWithin depth g f h.msg op m s can.msg can.deep le
apply_op-IsWithin depth g x h f op returns m s can le =
    IsWithin-below _ (return_step true m.stack m s).0 (return_step-IsBelow true m.stack m s)
apply_op-IsWithin depth g x h f op reverts m s can le =
    if-IsWithin _ (is_metropolis s) _ (vm_exception, s)
      (IsWithin-below _ (return_step false m.stack m s).0 (return_step-IsBelow false m.stack m s))
      (omega arith)
apply_op-IsWithin depth g x h f op suicides m s can le =
    IsWithin-below _ (suicide_step f m.stack m s).0 (suicide_step-IsBelow f m.stack m s)
apply_op-IsWithin depth g x h f op nothing m s can le = omega arith

-- The operations without a base fee.
fee-cases :
    (op : Op)
    → (1 ≤ fee op)
      ⊎ (op ≡ Op.stop)
      ⊎ (op ≡ Op.sstore)
      ⊎ (op ≡ Op.return)
      ⊎ (op ≡ Op.revert)
      ⊎ (op ≡ Op.suicide)
unfolding fee
fee-cases op = ground arith

IsBelow-mono : (a b : ℕ) (o : Outcome) → a ≤ b → IsBelow a o → IsBelow b o
IsBelow-mono a b (next m) le h = omega arith
IsBelow-mono a b (halt r) le h = omega arith
IsBelow-mono a b (fault e) le h = h

IsBelow-strict : (a b : ℕ) (o : Outcome) → a < b → IsWithin a o → IsBelow b o
IsBelow-strict a b (next m) lt h = omega arith
IsBelow-strict a b (halt r) lt h = omega arith
IsBelow-strict a b (fault e) lt h = h

sstore-IsBelow :
    (f : Frame) (st : List ℕ) (m : Machine) (s : State)
    → IsBelow (pos_part m.gas) (flow_step f Op.sstore st m s).0
unfolding flow_step
sstore-IsBelow f [] m s = refl
sstore-IsBelow f (a ∷ []) m s = refl
sstore-IsBelow f (a ∷ b ∷ st) m s = sstore_step-IsBelow f a b st m s

free-IsBelow :
    (x : Externals) (h : Handlers) (f : Frame) (op : Op) (m : Machine) (s : State)
    → (op ≡ Op.stop) ⊎ (op ≡ Op.sstore) ⊎ (op ≡ Op.return) ⊎ (op ≡ Op.revert) ⊎ (op ≡ Op.suicide)
    → IsBelow (pos_part m.gas) (apply_op x h f op (group op) m s).0
unfolding apply_op group
free-IsBelow x h f op m s free = elim free [
  | inl e ↦ at op Op.stop e (omega arith)
  | inr (inl e) ↦ at op Op.sstore e (sstore-IsBelow f m.stack m s)
  | inr (inr (inl e)) ↦ at op Op.return e (return_step-IsBelow true m.stack m s)
  | inr (inr (inr (inl e))) ↦ at op Op.revert e (reverted-IsBelow (is_metropolis s))
  | inr (inr (inr (inr e))) ↦ at op Op.suicide e (suicide_step-IsBelow f m.stack m s)
]
  where
    at :
        (op known : Op)
        → op ≡ known
        → IsBelow (pos_part m.gas) (apply_op x h f known (group known) m s).0
        → IsBelow (pos_part m.gas) (apply_op x h f op (group op) m s).0
    at op known e p =
        subst (λ o. IsBelow (pos_part m.gas) (apply_op x h f o (group o) m s).0) (sym e) p

    reverted-IsBelow :
        (b : Bool)
        → IsBelow
            (pos_part m.gas)
            (if b then return_step false m.stack m s else (vm_exception, s)).0
    reverted-IsBelow true = return_step-IsBelow false m.stack m s
    reverted-IsBelow false = omega arith

-- An operation whose fee is paid leaves less gas than there was before the fee, or ends the code.
applied-IsBelow :
    (depth g : ℕ) (x : Externals) (h : Handlers) (f : Frame) (op : Op) (m m1 : Machine) (s : State)
    → CanNest depth g h f
    → pos_part m.gas ≤ g
    → m1.gas ≡ m.gas -ℤ pos (fee op)
    → ltb_ℤ m1.gas (pos 0) ≡ false
    → IsBelow (pos_part m.gas) (apply_op x h f op (group op) m1 s).0
applied-IsBelow depth g x h f op m m1 s can le paid enough =
    let taken = -ℤ_parts m.gas (pos (fee op)) in
    let less : pos_part m1.gas + fee op ≤ pos_part m.gas = ground arith in
    elim (fee-cases op) [
      | inl priced ↦
          IsBelow-strict (pos_part m1.gas) (pos_part m.gas) _ (omega arith)
            (apply_op-IsWithin depth g x h f op (group op) m1 s can (omega arith))
      | inr free ↦
          IsBelow-mono (pos_part m1.gas) (pos_part m.gas) _ (omega arith)
            (free-IsBelow x h f op m1 s free)
    ]

checked_step-IsBelow :
    (depth g : ℕ) (x : Externals) (h : Handlers) (f : Frame) (op : Option Op) (m : Machine)
    (s : State)
    → CanNest depth g h f
    → pos_part m.gas ≤ g
    → IsBelow (pos_part m.gas) (checked_step x h f op m s).0
unfolding checked_step
checked_step-IsBelow depth g x h f none m s can le = omega arith
checked_step-IsBelow depth g x h f (some op) m s can le =
    let m1 : Machine = record m { gas = m.gas -ℤ pos (fee op); pc = m.pc + 1 } in
    elim (Bool-cases (ltb_ℤ m1.gas (pos 0))) [
      | inl e ↦ ground arith
      | inr e ↦ ground (arith, applied-IsBelow depth g x h f op m m1 s can le refl e)
    ]

-- A round of the loop leaves less gas, or ends the code.
pub vm_step-IsBelow :
    (depth g : ℕ) (x : Externals) (h : Handlers) (f : Frame) (m : Machine) (s : State)
    → CanNest depth g h f
    → pos_part m.gas ≤ g
    → IsBelow (pos_part m.gas) (vm_step x h f m s).0
unfolding vm_step
vm_step-IsBelow depth g x h f m s can le =
    ground (arith, checked_step-IsBelow depth g x h f (decode (get_or f.code m.pc 0)) m s can le)

pub IsSettled-mono : (a b : ℕ) (r : Result Reply) → a ≤ b → IsSettled a r → IsSettled b r
IsSettled-mono a b (ok r) le h = omega arith
IsSettled-mono a b (raised e) le h = h

continue-IsSettled :
    (g : ℕ) (k : Machine → State → Result Reply × State) (r : Outcome × State)
    → IsBelow g r.0
    → ((m : Machine) (s : State) → pos_part m.gas < g → IsSettled (pos_part m.gas) (k m s).0)
    → IsSettled g (continue k r).0
unfolding continue
continue-IsSettled g k (next m, s) h hk = IsSettled-mono _ _ (k m s).0 (omega arith) (hk m s h)
continue-IsSettled g k (halt r, s) h hk = h
continue-IsSettled g k (fault e, s) h hk = h

run-IsSettled :
    (fuel depth g : ℕ) (x : Externals) (h : Handlers) (f : Frame) (m : Machine) (s : State)
    → CanNest depth g h f
    → pos_part m.gas ≤ g
    → pos_part m.gas < fuel
    → IsSettled (pos_part m.gas) (run fuel x h f m s).0
unfolding run
run-IsSettled zero depth g x h f m s can le lt = ground arith
run-IsSettled (suc fuel) depth g x h f m s can le lt =
    continue-IsSettled (pos_part m.gas) (λ m1 s1. run fuel x h f m1 s1) (vm_step x h f m s)
      (vm_step-IsBelow depth g x h f m s can le)
      (λ m1 s1 less. run-IsSettled fuel depth g x h f m1 s1 can (omega arith) (omega arith))

-- With more rounds than gas the machine settles a message: it replies with at most the gas of the
-- message, or raises what the source raises; it does not run out of rounds.
pub vm_execute-IsSettled :
    (fuel depth : ℕ) (x : Externals) (h : Handlers) (c : Context) (msg : Message) (code : List ℕ)
    (s : State)
    → CanNest depth (pos_part msg.gas) h (record { context = c; msg = msg; code = code })
    → pos_part msg.gas < fuel
    → IsSettled (pos_part msg.gas) (vm_execute fuel x h c msg code s).0
unfolding vm_execute
vm_execute-IsSettled fuel depth x h c msg code s can lt =
    run-IsSettled fuel depth (pos_part msg.gas) x h _ _ s can (omega arith) lt
