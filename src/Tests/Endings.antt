-- ===== src/Tests/Endings.antt =====
-- Endings of messages and transactions (ethereum/messages.py) at concrete inputs.
use shopper.Prelude.{some, [], arith}
use shopper.Vm.Gas.{IsAnswer}
use shopper.Vm.Gas.Calls.{IsSettled}
use shopper.Messages.{Transaction}
use shopper.Messages.Apply.{apply_msg, handlers}
use shopper.Messages.Transactions.{apply_transaction}
use shopper.Messages.Settled.{SpecialsAreSettled}
use shopper.Messages.Settled.Nested.{apply_msg-handlers, apply_transaction-IsAnswer}
use shopper.Tests.States.{start}
use shopper.Tests.Failures.{externals, context, message}

pub no-SpecialsAreSettled : SpecialsAreSettled externals
no-SpecialsAreSettled a h e = ground arith

apply_msg-handlers_example :
    IsSettled 50000
      (apply_msg 50001 externals (handlers 50001 externals context 1024) context message start).0
apply_msg-handlers_example =
    apply_msg-handlers 50001 1024 externals context message start no-SpecialsAreSettled
      (omega arith) (omega arith)

abbrev pub transfer : Transaction
transfer = record {
  nonce = 0;
  gasprice = 1;
  startgas = 30000;
  to = some 2;
  value = 7;
  bytes = [];
  v = 27;
  r = 1;
  s = 1;
  sender = 1;
}

apply_transaction-IsAnswer_example :
    IsAnswer (apply_transaction (λ logs. 0) 30001 1024 externals transfer start).0
apply_transaction-IsAnswer_example =
    apply_transaction-IsAnswer (λ logs. 0) 30001 1024 externals transfer start no-SpecialsAreSettled
      (omega arith) (omega arith)
