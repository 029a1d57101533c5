-- ===== src/Vm/Journaled.antt =====
-- No operation of ethereum/vm.py changes the state but through the journal.
pub mod Calls
pub mod Loop
use shopper.Prelude.{
  ℕ, get_or, drop, ◌+◌, ◌≡◌, refl, Bool, true, false, List, [], ◌∷◌, ℤ, pos, arith, Option, none,
  some,
}
use shopper.Exceptions.{Result, ok, raised}
use shopper.State.{Address, Log, Param, State}
use shopper.State.Ops.{get_balance, get_code, get_storage_data, set_storage_data, set_param}
use shopper.State.Revert.{IsQuiet}
use shopper.State.Journaled.{
  Journaled, Journaled-refl, Journaled-trans, IsQuiet-Journaled, Journaled-get_balance,
  Journaled-get_code, Journaled-get_storage_data, Journaled-set_storage_data, Journaled-refunds,
}
use shopper.Opcodes.{Op}
use shopper.Vm.{Machine, Outcome, Frame, Externals, Handler}
use shopper.Vm.Memory.{charged, addr_of}
use shopper.Vm.Env.{env_step, copy_to, copy_returned, sha3_step, surcharge}
use shopper.Vm.Flow.{flow_step, sstore_step, sstore_gas, add_refund}

-- What follows a payment, where it is made.
pub charged-Journaled :
    (p : Bool × Machine) {s0 : State} (s : State) (k : Machine → Outcome × State)
    → Journaled s0 s
    → ((m : Machine) → Journaled s0 (k m).1)
    → Journaled s0 (charged p s k).1
charged-Journaled (true, m) s k j h = h m
charged-Journaled (false, m) s k j h = j

pub env_step-Journaled :
    (x : Externals) (f : Frame) (op : Op) (st : List ℕ) (m : Machine) (s : State)
    → Journaled s (env_step x f op st m s).1
unfolding env_step copy_to copy_returned sha3_step surcharge
env_step-Journaled x f op st m s =
    let a = addr_of (get_or st 0 0) in
    ground (arith, Journaled-refl s, Journaled-get_balance a s, Journaled-get_code a s)

-- The whole effect of SSTORE: the read, the refund, the write.
stored-Journaled :
    (a : Address) (k v refund : ℕ) (s : State)
    → Journaled s (set_storage_data a k v (add_refund refund (get_storage_data a k s).1))
unfolding add_refund
stored-Journaled a k v refund s =
    let s1 = (get_storage_data a k s).1 in
    Journaled-trans (Journaled-get_storage_data a k s) (
      Journaled-trans (Journaled-refunds (s1.refunds + refund) s1)
        (Journaled-set_storage_data a k v (set_param (Param.refunds (s1.refunds + refund)) s1)))

sstore_step-Journaled :
    (f : Frame) (k v : ℕ) (st : List ℕ) (m : Machine) (s : State)
    → Journaled s (sstore_step f k v st m s).1
unfolding sstore_step
sstore_step-Journaled f k v st m s =
    let refund = (sstore_gas (get_storage_data f.msg.to k s).0 v).1 in
    ground (
      arith,
      Journaled-refl s,
      Journaled-get_storage_data f.msg.to k s,
      stored-Journaled f.msg.to k v refund s,
    )

pub flow_step-Journaled :
    (f : Frame) (op : Op) (st : List ℕ) (m : Machine) (s : State)
    → Journaled s (flow_step f op st m s).1
unfolding flow_step
flow_step-Journaled f op st m s =
    let k = get_or st 0 0 in
    ground (
      arith,
      Journaled-refl s,
      Journaled-get_storage_data f.msg.to k s,
      sstore_step-Journaled f k (get_or st 1 0) (drop 2 st) m s,
    )
