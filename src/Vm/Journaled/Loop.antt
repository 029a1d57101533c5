-- ===== src/Vm/Journaled/Loop.antt =====
-- `vm_execute` in ethereum/vm.py changes the state through the journal alone.
use shopper.Prelude.{
  ℕ, zero, suc, ◌+◌, List, get_or, true, false, Option, none, some, pos, ◌-ℤ◌, arith,
}
use shopper.Exceptions.{Result}
use shopper.State.{State}
use shopper.State.Revert.{IsQuiet}
use shopper.State.Journaled.{Journaled, Journaled-refl, Journaled-trans, IsQuiet-Journaled}
use shopper.Opcodes.{Op, decode, fee}
use shopper.Vm.{
  Message, Machine, Outcome, next, halt, fault, Reply, Frame, Context, Externals, Handlers,
}
use shopper.Vm.Loop.{
  Group, number_of, group, apply_op, checked_step, vm_step, run, continue, vm_execute,
}
use shopper.Vm.Loop.Group.{
  pushes, stops, alu, exponent, environment, flow, logs, creates, calls, returns, reverts, suicides,
  nothing,
}
use shopper.Vm.Journaled.{env_step-Journaled, flow_step-Journaled}
use shopper.Vm.Journaled.Calls.{
  IsJournaled, log_step-Journaled, create_step-Journaled, call_step-Journaled,
  return_step-Journaled, suicide_step-Journaled, if-Journaled,
}

abbrev pub AreJournaled : Handlers → Type 0
AreJournaled h = IsJournaled h.msg × IsJournaled h.create

apply_op-Journaled :
    (x : Externals) (h : Handlers) (f : Frame) (op : Op) (g : Group) (m : Machine) (s : State)
    → AreJournaled h
    → IsQuiet s
    → Journaled s (apply_op x h f op g m s).1
unfolding apply_op
apply_op-Journaled x h f op pushes m s j quiet = Journaled-refl s
apply_op-Journaled x h f op stops m s j quiet = Journaled-refl s
apply_op-Journaled x h f op alu m s j quiet = Journaled-refl s
apply_op-Journaled x h f op exponent m s j quiet = Journaled-refl s
apply_op-Journaled x h f op environment m s j quiet = env_step-Journaled x f op m.stack m s
apply_op-Journaled x h f op flow m s j quiet = flow_step-Journaled f op m.stack m s
apply_op-Journaled x h f op logs m s j quiet = log_step-Journaled f (number_of op) m.stack m s
apply_op-Journaled x h f op creates m s j quiet =
    create_step-Journaled f h.create m.stack m s j.1 quiet
apply_op-Journaled x h f op calls m s j quiet = call_step-Journaled f h.msg op m s j.0 quiet
apply_op-Journaled x h f op returns m s j quiet = return_step-Journaled true m.stack m s
apply_op-Journaled x h f op reverts m s j quiet =
    if-Journaled _ _ _ (return_step-Journaled false m.stack m s) (Journaled-refl s)
apply_op-Journaled x h f op suicides m s j quiet = suicide_step-Journaled f m.stack m s
apply_op-Journaled x h f op nothing m s j quiet = Journaled-refl s

checked_step-Journaled :
    (x : Externals) (h : Handlers) (f : Frame) (op : Option Op) (m : Machine) (s : State)
    → AreJournaled h
    → IsQuiet s
    → Journaled s (checked_step x h f op m s).1
unfolding checked_step
checked_step-Journaled x h f none m s j quiet = Journaled-refl s
checked_step-Journaled x h f (some op) m s j quiet =
    let same = Journaled-refl s in
    let m1 = record m { gas = m.gas -ℤ pos (fee op); pc = m.pc + 1 } in
    let applied = apply_op-Journaled x h f op (group op) m1 s j quiet in
    ground (arith, same, applied)

vm_step-Journaled :
    (x : Externals) (h : Handlers) (f : Frame) (m : Machine) (s : State)
    → AreJournaled h
    → IsQuiet s
    → Journaled s (vm_step x h f m s).1
unfolding vm_step
vm_step-Journaled x h f m s j quiet =
    if-Journaled _ _ _ (Journaled-refl s)
      (checked_step-Journaled x h f (decode (get_or f.code m.pc 0)) m s j quiet)

continue-Journaled :
    {s : State} (k : Machine → State → Result Reply × State) (r : Outcome × State)
    → Journaled s r.1
    → IsQuiet s
    → ((m : Machine) (t : State) → IsQuiet t → Journaled t (k m t).1)
    → Journaled s (continue k r).1
unfolding continue
continue-Journaled k (next m, t) j quiet h = Journaled-trans j (h m t (IsQuiet-Journaled j quiet))
continue-Journaled k (halt r, t) j quiet h = j
continue-Journaled k (fault e, t) j quiet h = j

run-Journaled :
    (fuel : ℕ) (x : Externals) (h : Handlers) (f : Frame) (m : Machine) (s : State)
    → AreJournaled h
    → IsQuiet s
    → Journaled s (run fuel x h f m s).1
unfolding run
run-Journaled zero x h f m s j quiet = Journaled-refl s
run-Journaled (suc fuel) x h f m s j quiet =
    continue-Journaled (λ m1 s1. run fuel x h f m1 s1) (vm_step x h f m s)
      (vm_step-Journaled x h f m s j quiet) quiet (λ m1 s1 q. run-Journaled fuel x h f m1 s1 j q)

pub vm_execute-Journaled :
    (fuel : ℕ) (x : Externals) (h : Handlers) (c : Context) (msg : Message) (code : List ℕ)
    (s : State)
    → AreJournaled h
    → IsQuiet s
    → Journaled s (vm_execute fuel x h c msg code s).1
unfolding vm_execute
vm_execute-Journaled fuel x h c msg code s j quiet = run-Journaled fuel x h _ _ s j quiet
