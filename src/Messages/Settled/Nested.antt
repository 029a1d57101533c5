-- ===== src/Messages/Settled/Nested.antt =====
-- Nested messages and whole transactions of ethereum/messages.py end.
use shopper.Prelude.{
  ℕ, zero, suc, ◌+◌, ◌*◌, ◌≤◌, ◌<◌, refl, Bool, true, false, ◌==◌, if◌then◌else◌, List, pos,
  pos_part, ◌-ℤ◌, ltb_ℤ, Option, none, some, arith,
}
use shopper.Exceptions.{Exn, Result, ok, raised, ◌>>◌}
use shopper.State.{Address, Log, State}
use shopper.State.Ops.{increment_nonce, delta_balance}
use shopper.Vm.{Message, Reply, Handlers, Context, Externals}
use shopper.Vm.Memory.{extract_all}
use shopper.Vm.Calls.{max_depth}
use shopper.Vm.Gas.{IsReal, IsAnswer}
use shopper.Vm.Gas.Calls.{IsSettled}
use shopper.Messages.{Transaction, null_address}
use shopper.Messages.Apply.{apply_msg, new_address, create_with, create_contract, handlers}
use shopper.Messages.Validation.{
  validate_transaction, config_fork_specific_validation, validate_with, require,
}
use shopper.Messages.Transactions.{
  check_start, intrinsic_gas, context_of, message_of, finish_transaction, run_transaction, begin,
  apply_transaction, clear,
}
use shopper.Vm.Gas.Loop.{IsSettled-mono}
use shopper.Messages.Settled.{
  SpecialsAreSettled, IsNested, apply_code-IsSettled, create_at-IsSettled,
}

apply_msg-IsSettled :
    (rounds depth : ℕ) (x : Externals) (h : Handlers) (c : Context) (msg : Message) (s : State)
    → IsNested depth rounds x h
    → max_depth < msg.depth + suc depth
    → pos_part msg.gas < rounds
    → IsSettled (pos_part msg.gas) (apply_msg rounds x h c msg s).0
unfolding apply_msg
apply_msg-IsSettled rounds depth x h c msg s nested deep lt =
    apply_code-IsSettled rounds depth x h c msg _ _ nested deep lt

new_address-IsAnswer : (x : Externals) (a : Address) (s : State) → IsAnswer (new_address x a s).0
unfolding new_address
new_address-IsAnswer x a s = ground arith

create_contract-IsSettled :
    (rounds depth : ℕ) (x : Externals) (h : Handlers) (c : Context) (msg : Message) (s : State)
    → IsNested depth rounds x h
    → max_depth < msg.depth + suc depth
    → pos_part msg.gas < rounds
    → IsSettled (pos_part msg.gas) (create_contract rounds x h c msg s).0
unfolding create_contract
create_contract-IsSettled rounds depth x h c msg s nested deep lt =
    let s1 = if c.tx_origin == msg.sender then s else increment_nonce msg.sender s in
    go (new_address x msg.sender s1) (new_address-IsAnswer x msg.sender s1)
  where
    go :
        (r : Result Address × State)
        → IsAnswer r.0
        → IsSettled (pos_part msg.gas) (create_with rounds x h c msg r).0
    go (raised e, t) answer = answer
    go (ok to, t) answer =
        create_at-IsSettled rounds depth x h c msg (extract_all msg.call_data) to t nested deep lt

-- The handlers of nested messages settle them, at every depth.
handlers-IsNested :
    (rounds depth : ℕ) (x : Externals) (c : Context)
    → SpecialsAreSettled x
    → IsNested depth rounds x (handlers rounds x c depth)
unfolding handlers
handlers-IsNested rounds zero x c sound = record {
  specials = sound;
  msg = λ g lt msg s shallow deep le. ground (arith, shallow, deep);
  create = λ g lt msg s shallow deep le. ground (arith, shallow, deep);
}
handlers-IsNested rounds (suc depth) x c sound =
    let nested = handlers-IsNested rounds depth x c sound in
    let h = handlers rounds x c depth in
    record {
      specials = sound;
      msg = λ g lt msg s shallow deep le.
          apply_msg-IsSettled rounds depth x h c msg s nested deep (omega (arith, lt, le));
      create = λ g lt msg s shallow deep le.
          create_contract-IsSettled rounds depth x h c msg s nested deep (omega (arith, lt, le));
    }

-- A message from outside, whatever code it runs: with more rounds than its gas, and the depth that
-- the machine allows, `apply_msg` replies with at most the gas of the message or raises what the
-- source raises. It never runs out of rounds or depth, if the precompiled contracts do not either.
pub apply_msg-handlers :
    (rounds depth : ℕ) (x : Externals) (c : Context) (msg : Message) (s : State)
    → SpecialsAreSettled x
    → pos_part msg.gas < rounds
    → max_depth ≤ msg.depth + depth
    → IsSettled (pos_part msg.gas) (apply_msg rounds x (handlers rounds x c depth) c msg s).0
apply_msg-handlers rounds depth x c msg s sound lt deep =
    apply_msg-IsSettled rounds depth x (handlers rounds x c depth) c msg s
      (handlers-IsNested rounds depth x c sound) (omega arith) lt

run_transaction-IsSettled :
    (rounds depth : ℕ) (x : Externals) (tx : Transaction) (s : State)
    → SpecialsAreSettled x
    → tx.startgas < rounds
    → max_depth ≤ depth
    → IsSettled tx.startgas (run_transaction rounds depth x tx s).0
unfolding run_transaction
run_transaction-IsSettled rounds depth x tx s sound lt deep =
    let s1 = if tx.sender == null_address then s else increment_nonce tx.sender s in
    let s2 = delta_balance tx.sender (pos 0 -ℤ pos (tx.startgas * tx.gasprice)) s1 in
    let c = context_of s2 tx in
    let h = handlers rounds x c depth in
    let msg = message_of tx (intrinsic_gas s tx) in
    let nested = handlers-IsNested rounds depth x c sound in
    let less : pos_part msg.gas ≤ tx.startgas = omega arith in
    pick tx.to (create_contract rounds x h c msg s2) (apply_msg rounds x h c msg s2)
      (IsSettled-mono _ _ (create_contract rounds x h c msg s2).0 less
        (create_contract-IsSettled rounds depth x h c msg s2 nested (omega arith) (omega arith)))
      (IsSettled-mono _ _ (apply_msg rounds x h c msg s2).0 less
        (apply_msg-IsSettled rounds depth x h c msg s2 nested (omega arith) (omega arith)))
  where
    pick :
        (to : Option Address) (p q : Result Reply × State)
        → IsSettled tx.startgas p.0
        → IsSettled tx.startgas q.0
        → IsSettled tx.startgas (elim to as (λ o. Result Reply × State) [ none ↦ p | some a ↦ q ]).0
    pick none p q hp hq = hp
    pick (some a) p q hp hq = hq

pub require-IsAnswer : (b : Bool) (e : Exn) → IsReal e → IsAnswer (require b e)
require-IsAnswer true e h = tt
require-IsAnswer false e h = h

pub IsAnswer-both : (p q : Result (Unit {0})) → IsAnswer p → IsAnswer q → IsAnswer (p >> q)
IsAnswer-both (ok _) q hp hq = hq
IsAnswer-both (raised e) q hp hq = hp

validate_transaction-IsAnswer :
    (s : State) (tx : Transaction) → IsAnswer (validate_transaction s tx).0
unfolding validate_transaction config_fork_specific_validation validate_with
validate_transaction-IsAnswer s tx = ground arith

check_start-IsAnswer : (s : State) (tx : Transaction) → IsAnswer (check_start s tx)
unfolding check_start
check_start-IsAnswer s tx = ground arith

finish_transaction-IsAnswer :
    (bloom_of : List Log → ℕ) (tx : Transaction) (g : ℕ) (r : Result Reply × State)
    → IsSettled g r.0
    → IsAnswer (finish_transaction bloom_of tx r).0
unfolding finish_transaction
finish_transaction-IsAnswer bloom_of tx g (raised e, s) h = h
finish_transaction-IsAnswer bloom_of tx g (ok r, s) h = go (ltb_ℤ r.gas (pos 0)) _ _ refl tt
  where
    go :
        (b : Bool) (p q : Result (Bool × List ℕ) × State)
        → IsAnswer p.0
        → IsAnswer q.0
        → IsAnswer (if b then p else q).0
    go true p q hp hq = hp
    go false p q hp hq = hq

begin-IsAnswer :
    (bloom_of : List Log → ℕ) (rounds depth : ℕ) (x : Externals) (tx : Transaction)
    (r : Result (Unit {0})) (s : State)
    → IsAnswer r
    → IsSettled tx.startgas (run_transaction rounds depth x tx s).0
    → IsAnswer (begin bloom_of rounds depth x tx r s).0
begin-IsAnswer bloom_of rounds depth x tx (raised e) s answer settled = answer
begin-IsAnswer bloom_of rounds depth x tx (ok _) s answer settled =
    finish_transaction-IsAnswer bloom_of tx tx.startgas (run_transaction rounds depth x tx s)
      settled

-- With more rounds than the transaction's gas, and 1024 levels of nested messages, applying any
-- transaction to any state ends: it gives a result or raises an exception of the source, and never
-- runs out of rounds or depth, where the precompiled contracts reply within their gas.
pub apply_transaction-IsAnswer :
    (bloom_of : List Log → ℕ) (rounds depth : ℕ) (x : Externals) (tx : Transaction) (s : State)
    → SpecialsAreSettled x
    → tx.startgas < rounds
    → max_depth ≤ depth
    → IsAnswer (apply_transaction bloom_of rounds depth x tx s).0
unfolding apply_transaction
apply_transaction-IsAnswer bloom_of rounds depth x tx s sound lt deep =
    let checked = validate_transaction (clear s) tx in
    begin-IsAnswer bloom_of rounds depth x tx _ checked.1
      (IsAnswer-both checked.0 (check_start checked.1 tx)
        (validate_transaction-IsAnswer (clear s) tx) (check_start-IsAnswer checked.1 tx))
      (run_transaction-IsSettled rounds depth x tx checked.1 sound lt deep)
