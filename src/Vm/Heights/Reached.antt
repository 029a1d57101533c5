-- ===== src/Vm/Heights/Reached.antt =====
-- The machines that the loop of `vm_execute` in ethereum/vm.py goes through.
use shopper.Prelude.{
  ℕ, get_or, ◌+◌, ◌-◌, ◌≤◌, ◌≡◌, refl, subst, Bool, true, false, ltb, List, length, pos, ◌-ℤ◌,
  Option, none, some, arith, Bool-cases, inl, inr, ap,
}
use shopper.State.{State, is_spurious_dragon}
use shopper.Opcodes.{Op, in_args, out_args, fee, decode}
use shopper.Vm.{Machine, Outcome, next, Frame, Externals, Handlers}
use shopper.Vm.Alu.{exp_step}
use shopper.Vm.Flow.{push_step}
use shopper.Vm.Calls.{call_args, call_step, return_step, suicide_step}
use shopper.Vm.Loop.{Group, number_of, group, apply_op, checked_step, vm_step}
use shopper.Vm.Loop.Group.{
  pushes, stops, alu, exponent, environment, flow, logs, creates, calls, returns, reverts, suicides,
  nothing,
}
use shopper.Vm.Heights.{
  IsLow, IsLow-mono, env_step-IsLow, flow_step-IsLow, alu_step-IsLow, exp_on-IsLow,
  push_value-IsLow, log_step-IsLow, create_step-IsLow, call_with-IsLow, call_args-IsBelowArgs,
}

-- What the table of opcodes says of the operations of a branch.
abbrev Arity : Group → Op → Type 0
Arity pushes op = (in_args op ≡ 0) × (out_args op ≡ 1)
Arity exponent op = (in_args op ≡ 2) × (out_args op ≡ 1)
Arity logs op = (in_args op ≡ number_of op + 2) × (out_args op ≡ 0)
Arity creates op = (in_args op ≡ 3) × (out_args op ≡ 1)
Arity calls op = out_args op ≡ 1
Arity _ op = Unit

group-Arity : (op : Op) → Arity (group op) op
unfolding group in_args out_args
group-Arity op = ground arith

return_step-IsLow :
    (n : ℕ) (b : Bool) (st : List ℕ) (m : Machine) (s : State) → IsLow n (return_step b st m s).0
unfolding return_step
return_step-IsLow n b st m s = ground arith

suicide_step-IsLow :
    (n : ℕ) (f : Frame) (st : List ℕ) (m : Machine) (s : State) → IsLow n (suicide_step f st m s).0
unfolding suicide_step
suicide_step-IsLow n f st m s = ground arith

apply_op-IsLow :
    (x : Externals) (h : Handlers) (f : Frame) (op : Op) (g : Group) (m : Machine) (s : State)
    → Arity g op
    → length m.stack ≤ 1024
    → in_args op ≤ length m.stack
    → length m.stack - in_args op + out_args op ≤ 1024
    → IsLow 1024 (apply_op x h f op g m s).0
unfolding apply_op push_step exp_step call_step
apply_op-IsLow x h f op pushes m s a low enough fits =
    IsLow-mono _ _ (push_step f (number_of op) m) (omega arith)
      (push_value-IsLow _ (number_of op) m)
apply_op-IsLow x h f op stops m s a low enough fits = tt
apply_op-IsLow x h f op alu m s a low enough fits =
    IsLow-mono _ _ _ fits (alu_step-IsLow op m enough)
apply_op-IsLow x h f op exponent m s a low enough fits =
    IsLow-mono _ _ _ (omega arith)
      (exp_on-IsLow x.int_to_big_endian (is_spurious_dragon s) m.stack m)
apply_op-IsLow x h f op environment m s a low enough fits =
    IsLow-mono _ _ _ fits (env_step-IsLow x f op m.stack m s)
apply_op-IsLow x h f op flow m s a low enough fits =
    IsLow-mono _ _ _ fits (flow_step-IsLow f op m.stack m s refl)
apply_op-IsLow x h f op logs m s a low enough fits =
    IsLow-mono _ _ _ (omega arith) (log_step-IsLow f (number_of op) m.stack m s)
apply_op-IsLow x h f op creates m s a low enough fits =
    IsLow-mono _ _ _ (omega arith) (create_step-IsLow f h.create m.stack m s)
apply_op-IsLow x h f op calls m s a low enough fits = IsLow-mono _ _ _ (omega arith) (
    call_with-IsLow f h.msg op (call_args op m.stack) m.stack m s
      (call_args-IsBelowArgs op m.stack))
apply_op-IsLow x h f op returns m s a low enough fits = return_step-IsLow 1024 true m.stack m s
apply_op-IsLow x h f op reverts m s a low enough fits =
    ground (arith, return_step-IsLow 1024 false m.stack m s)
apply_op-IsLow x h f op suicides m s a low enough fits = suicide_step-IsLow 1024 f m.stack m s
apply_op-IsLow x h f op nothing m s a low enough fits = low

checked_step-IsLow :
    (x : Externals) (h : Handlers) (f : Frame) (op : Option Op) (m : Machine) (s : State)
    → length m.stack ≤ 1024
    → IsLow 1024 (checked_step x h f op m s).0
unfolding checked_step
checked_step-IsLow x h f none m s low = tt
checked_step-IsLow x h f (some op) m s low =
    let m1 : Machine = record m { gas = m.gas -ℤ pos (fee op); pc = m.pc + 1 } in
    elim (Bool-cases (ltb (length m.stack) (in_args op))) [
      | inl e ↦ ground arith
      | inr e ↦ elim (Bool-cases (ltb 1024 (length m.stack - in_args op + out_args op))) [
        | inl b ↦ ground arith
        | inr b ↦ ground (
          arith,
          apply_op-IsLow x h f op (group op) m1 s (group-Arity op) low (ground arith)
              (ground arith),
        )
      ]
    ]

vm_step-IsLow :
    (x : Externals) (h : Handlers) (f : Frame) (m : Machine) (s : State)
    → length m.stack ≤ 1024
    → IsLow 1024 (vm_step x h f m s).0
unfolding vm_step
vm_step-IsLow x h f m s low =
    ground (arith, checked_step-IsLow x h f (decode (get_or f.code m.pc 0)) m s low)

-- The machines and states that rounds of the loop lead to.
pub data Reached (x : Externals) (h : Handlers) (f : Frame) (m0 : Machine) (s0 : State)
    : Machine → State → Type 0 where
  begun : Reached x h f m0 s0 m0 s0
  round :
      {m m1 : Machine} {s s1 : State}
      → Reached x h f m0 s0 m s
      → vm_step x h f m s ≡ (next m1, s1)
      → Reached x h f m0 s0 m1 s1

-- Every machine that rounds lead to, whatever code, handlers and state, has a stack of at most 1024
-- items, if the first one has.
pub Reached-low :
    {x : Externals} {h : Handlers} {f : Frame} {m0 : Machine} {s0 : State} {m : Machine} {s : State}
    → Reached x h f m0 s0 m s
    → length m0.stack ≤ 1024
    → length m.stack ≤ 1024
Reached-low begun low = low
Reached-low {x} {h} {f} (round {m} {m1} {s} {s1} before e) low =
    let last = vm_step-IsLow x h f m s (Reached-low before low) in
    subst (λ o. IsLow 1024 o) (ap (λ (r : Outcome × State). r.0) e) last
