-- ===== src/Tests/Machines.antt =====
-- The virtual machine and transactions (ethereum/vm.py, ethereum/messages.py) at fixed inputs.
use shopper.Prelude.{
  get_or, ◌<◌, false, true, List, arith, ℕ, ◌+◌, ◌/◌, ◌%◌, ◌≤◌, ◌≡◌, ◌↔◌, ◌⊎◌, refl, some, [], ◌∷◌,
  length, replicate, pos, ◌+ℤ◌, ◌-ℤ◌,
}
use shopper.Exceptions.{ok}
use shopper.Opcodes.{Op}
use shopper.Vm.{Machine, Reply}
use shopper.Vm.Code.{is_jumpdest, jumpdests, scan_jumpdests, width, contains}
use shopper.Vm.Code.Boundaries.{StartsFrom, is_jumpdest_iff}
use shopper.Messages.Transactions.{settle}
use shopper.Messages.Transactions.Gas.{IsSettledAt, settle-IsSettledAt}
use shopper.Vm.Memory.{mem_extend, memory_fee, ceil32}
use shopper.Vm.Memory.Fees.{mem_extend_paid}
use shopper.Vm.Alu.{dup, stack_op}
use shopper.Vm.Alu.Height.{Takes, stack_op-Takes}
use shopper.Messages.{Transaction}
use shopper.Messages.Validation.{validate_transaction}
use shopper.Messages.Validity.{IsValid, validate_transaction_iff}
use shopper.Tests.States.{start}

abbrev machine : Machine
machine = record { memory = []; stack = 7 ∷ 5 ∷ 3 ∷ []; pc = 0; gas = pos 100; last_returned = [] }

abbrev grown : Machine
grown = record machine { memory = replicate 64 0; gas = pos 94 }

mem_extend_paid_example :
    (length grown.memory % 32 ≡ 0)
    × ((◌≡◌ {A = ℕ} 2 0) ⊎ (40 + 2 ≤ length grown.memory))
    × (grown.gas +ℤ pos (memory_fee (length grown.memory / 32))
        ≡ machine.gas +ℤ pos (memory_fee (length machine.memory / 32)))
mem_extend_paid_example =
    mem_extend_paid 40 2 machine grown refl (unfold mem_extend ceil32 memory_fee ◌-ℤ◌ in refl)

stack_op-Takes_example : Takes (Op.dup 2) (7 ∷ []) (stack_op (Op.dup 2) (7 ∷ []))
stack_op-Takes_example =
    stack_op-Takes (Op.dup 2) (7 ∷ 5 ∷ []) (5 ∷ 7 ∷ 5 ∷ []) (7 ∷ []) (omega arith)
      (unfold stack_op dup in refl)

abbrev payment : Transaction
payment = record {
  nonce = 1;
  gasprice = 0;
  startgas = 21000;
  to = some 2;
  value = 20;
  bytes = [];
  v = 27;
  r = 5;
  s = 6;
  sender = 1;
}

validate_transaction_iff_example :
    ((validate_transaction start payment).0 ≡ ok tt) ↔ IsValid start payment
validate_transaction_iff_example = validate_transaction_iff start payment

-- PUSH1 with a byte that looks like a destination, then a destination.
abbrev jumping : List ℕ
jumping = 0x60 ∷ 0x5b ∷ 0x5b ∷ []

is_jumpdest_iff_example :
    (is_jumpdest 2 jumping ≡ true)
    ↔ ((2 < length jumping) × (get_or jumping 2 0 ≡ 0x5b) × StartsFrom jumping 0 2)
is_jumpdest_iff_example = is_jumpdest_iff 2 jumping

inside_push : is_jumpdest 1 jumping ≡ false
unfolding is_jumpdest jumpdests scan_jumpdests width contains
inside_push = refl

abbrev reply : Reply
reply = record { success = true; gas = pos 6000; output = [] }

settle-IsSettledAt_example :
    IsSettledAt
      (record payment { gasprice = 3 })
      reply
      start
      1
      (settle (record payment { gasprice = 3 }) reply start)
settle-IsSettledAt_example =
    settle-IsSettledAt (record payment { gasprice = 3 }) reply start 1 (omega arith)
